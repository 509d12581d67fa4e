-- ===== src/Client/Sql.antt =====
-- `query_sql` and `_parse_sql_result` of src/helix_mcp/clients/arapi/client.py: the bounds of a query, and
-- what is read of the rows.
pub mod Rows
use helix_mcp_gateway.Prelude.{
  ℕ, Bool, true, false, ◌&&◌, Option, none, some, List, [], ◌∷◌, String, eqb, leb, length,
}
use helix_mcp_gateway.Prelude.Collect.{collect}
use helix_mcp_gateway.Prelude.Attempt.{◌>>=◌, require}
use helix_mcp_gateway.Writes.Models.{JsonInt, finite}
use helix_mcp_gateway.Client.Json.{
  JsonValue, null, boolean, integer, number, text, as_object, as_array, as_boolean, get,
  has_exactly,
}

-- `_MAX_SQL_COLUMNS` and `_MAX_SQL_ROWS`
abbrev pub max_sql_columns : ℕ
max_sql_columns = 128

abbrev pub max_sql_rows : ℕ
max_sql_rows = 100000

-- `ArapiSqlValue`; a float is finite.
pub data ArapiSqlValue : Type 0 where
  sql_null : ArapiSqlValue
  sql_text : String → ArapiSqlValue
  sql_integer : JsonInt → ArapiSqlValue
  sql_number : String → ArapiSqlValue
  sql_boolean : Bool → ArapiSqlValue

-- `ArapiSqlResult`
pub record ArapiSqlResult : Type 0 where
  pub rows : List (List ArapiSqlValue)
  pub truncated : Bool

-- One value of a row.
unfoldable pub parse_sql_value : JsonValue → Option ArapiSqlValue
parse_sql_value null = some sql_null
parse_sql_value (text s) = some (sql_text s)
parse_sql_value (boolean b) = some (sql_boolean b)
parse_sql_value (integer i) = some (sql_integer i)
parse_sql_value (number (finite digits)) = some (sql_number digits)
parse_sql_value _ = none

unfoldable pub parse_row : ℕ → JsonValue → Option (List ArapiSqlValue)
parse_row column_count raw = do
  values ← as_array raw
  require (eqb (length values) column_count) (collect parse_sql_value values)

-- `_parse_sql_result`
unfoldable pub parse_sql_result : ℕ → ℕ → JsonValue → Option ArapiSqlResult
parse_sql_result column_count limit payload = do
  d ← as_object payload
  raw_rows ← as_array (get "rows" d)
  truncated ← as_boolean (get "truncated" d)
  rows ←
      require (has_exactly ("rows" ∷ "truncated" ∷ []) d && leb (length raw_rows) limit)
        (collect (parse_row column_count) raw_rows)
  some (record { rows = rows; truncated = truncated })

-- What `query_sql` checks before it sends.
unfoldable pub sql_bounds : ℕ → ℕ → Bool
sql_bounds column_count limit =
    leb 1 column_count && leb column_count max_sql_columns && leb 1 limit && leb limit max_sql_rows
