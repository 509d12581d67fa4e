-- ===== src/Client/Sql/Rows.antt =====
-- The rows that `_parse_sql_result` of src/helix_mcp/clients/arapi/client.py accepts, and what
-- `dict(zip(..., strict=True))` of src/helix_mcp/services/database/service.py makes of them.
use helix_mcp_gateway.Prelude.{
  ℕ, ◌≡◌, refl, ◌≤◌, ◌&&◌, some, List, [], ◌∷◌, String, eqb, leb, length, All, arith,
}
use helix_mcp_gateway.Prelude.Equality.{string_eq}
use helix_mcp_gateway.Prelude.Dict.{Dict, insert}
use helix_mcp_gateway.Prelude.Collect.{collect, AreRead, collect-AreRead, AreRead-length}
use helix_mcp_gateway.Prelude.Attempt.{
  require, bind_some, require-some, given, given_test, given_value,
}
use helix_mcp_gateway.Client.Json.{
  JsonValue, as_object, field_of, field_read, as_array, as_boolean, get, has_exactly,
}
use helix_mcp_gateway.Client.Sql.{
  ArapiSqlValue, ArapiSqlResult, parse_sql_value, parse_row, parse_sql_result,
}
use helix_mcp_gateway.Database.Service.{zip_row, zip_rows}

parse_row-length :
    (column_count : ℕ) (raw : JsonValue) (row : List ArapiSqlValue)
    → parse_row column_count raw ≡ some row
    → length row ≡ column_count
unfolding parse_row
parse_row-length column_count raw row h =
    let (values, is_array, h₁) =
      bind_some (as_array raw)
        (λ values. require (eqb (length values) column_count) (collect parse_sql_value values)) h in
    let (same, h₂) =
      require-some (eqb (length values) column_count) (collect parse_sql_value values) h₁ in
    let one_each =
      AreRead-length parse_sql_value values row (collect-AreRead parse_sql_value values row h₂) in
    ground (arith, same, one_each)

rows_have_columns :
    (column_count : ℕ) (raw : List JsonValue) (rows : List (List ArapiSqlValue))
    → AreRead (parse_row column_count) raw rows
    → All (λ row. length row ≡ column_count) rows
rows_have_columns column_count [] [] h = tt
rows_have_columns column_count [] (row ∷ rows) h = absurd h
rows_have_columns column_count (x ∷ raw) [] h = absurd h
rows_have_columns column_count (x ∷ raw) (row ∷ rows) h =
    (parse_row-length column_count x row h.0, rows_have_columns column_count raw rows h.1)

-- The rows are read from the rows of the payload, one from each in order; there are at most `limit`,
-- and each has a value for each column.
pub record IsTable (column_count limit : ℕ) (payload : JsonValue) (result : ArapiSqlResult)
    : Type 0 where
  pub raw : List JsonValue
  pub sent : field_of "rows" as_array payload ≡ some raw
  pub read : AreRead (parse_row column_count) raw result.rows
  pub marked : field_of "truncated" as_boolean payload ≡ some result.truncated
  pub bounded : length result.rows ≤ limit
  pub complete : All (λ row. length row ≡ column_count) result.rows

-- An accepted result has the rows of the payload in order, at most `limit`, each with `column_count`
-- values, and the mark that the payload has.
pub parse_sql_result-IsTable :
    (column_count limit : ℕ) (payload : JsonValue) (result : ArapiSqlResult)
    → parse_sql_result column_count limit payload ≡ some result
    → IsTable column_count limit payload result
unfolding parse_sql_result
parse_sql_result-IsTable column_count limit payload result h =
    given (as_object payload) h λ d is_object h₁.
      given (as_array (get "rows" d)) h₁ λ raw is_array h₂.
        given (as_boolean (get "truncated" d)) h₂ λ truncated is_boolean h₃.
          let test = has_exactly ("rows" ∷ "truncated" ∷ []) d && leb (length raw) limit in
          given (require test (collect (parse_row column_count) raw)) h₃ λ rows h₄ h₅.
            given_test test h₄ λ tested h₆.
              let reads = collect-AreRead (parse_row column_count) raw rows h₆ in
              given_value (IsTable column_count limit payload) h₅ (record {
                raw = raw;
                sent = field_read "rows" as_array payload d is_object is_array;
                read = reads;
                marked = field_read "truncated" as_boolean payload d is_object is_boolean;
                bounded =
                    ground (arith, tested, AreRead-length (parse_row column_count) raw rows reads);
                complete = rows_have_columns column_count raw rows reads;
              })

zip_row-total :
    {V : Type 0} (columns : List String) (row : List V) (d : Dict String V)
    → length row ≡ length columns
    → (zipped : Dict String V) × (zip_row columns row d ≡ some zipped)
unfolding zip_row
zip_row-total [] [] d h = (d, refl)
zip_row-total [] (v ∷ row) d h = absurd (omega (arith, h))
zip_row-total (c ∷ columns) [] d h = absurd (omega (arith, h))
zip_row-total (c ∷ columns) (v ∷ row) d h =
    zip_row-total columns row (insert c v d) (omega (arith, h))

-- Rows with a value for each column are zipped with the columns without an error.
pub zip_rows-total :
    {V : Type 0} (columns : List String) (rows : List (List V))
    → All (λ row. length row ≡ length columns) rows
    → (zipped : List (Dict String V)) × (zip_rows columns rows ≡ some zipped)
unfolding zip_rows
zip_rows-total columns [] h = ([], refl)
zip_rows-total columns (row ∷ rows) h =
    let (d, e) = zip_row-total columns row [] h.0 in
    let (ds, f) = zip_rows-total columns rows h.1 in (d ∷ ds, rw (e, f, zip_rows) refl)
