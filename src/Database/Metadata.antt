-- ===== src/Database/Metadata.antt =====
-- src/helix_mcp/services/database/metadata.py: the SQL that the catalogue of the database is asked with,
-- which objects a policy permits, and what is read of the rows. `str.casefold` is an argument.
pub mod Literals
pub mod Rows
pub mod Objects
pub mod Service
use Prim.Native.Char.{code}
use Prim.Native.Nat.{Ordering}
use Prim.Native.String.{compare}
use helix_mcp_gateway.Prelude.{
  ℕ, Bool, true, false, not, ◌&&◌, ◌||◌, Option, none, some, List, [], ◌∷◌, ◌++◌, map, String, eqb,
  if◌then◌else◌,
}
use helix_mcp_gateway.Prelude.Equality.{◌==◌, string_eq}
use helix_mcp_gateway.Prelude.Distinct.{is_in}
use helix_mcp_gateway.Prelude.Dict.{Dict, lookup}
use helix_mcp_gateway.Prelude.Attempt.{◌>>=◌, require}
use helix_mcp_gateway.Text.{append, join, codes, text_of, stripped}
use helix_mcp_gateway.Config.{TargetPolicyConfig}
use helix_mcp_gateway.Writes.Models.{JsonInt}
use helix_mcp_gateway.Database.Sql.Names.{split_parts}
use helix_mcp_gateway.Client.Decimal.{natural_text}
use helix_mcp_gateway.Client.Sql.{ArapiSqlValue, sql_text, sql_integer, sql_boolean}

-- `DatabaseObjectKind` and its `relkind`
pub data DatabaseObjectKind : Type 0 where
  table partitioned_table view materialized_view foreign_table : DatabaseObjectKind

abbrev pub relkind : DatabaseObjectKind → String
relkind table = "r"
relkind partitioned_table = "p"
relkind view = "v"
relkind materialized_view = "m"
relkind foreign_table = "f"

-- `DatabaseObjectKind(value)`
unfoldable pub kind_of : String → Option DatabaseObjectKind
kind_of value =
    if value == "table"
    then some table
    else if value == "partitioned_table"
    then some partitioned_table
    else if value == "view"
    then some view
    else if value == "materialized_view"
    then some materialized_view
    else if value == "foreign_table"
    then some foreign_table
    else none

-- `value.replace("'", "''")`
abbrev pub doubled : String → String
doubled String.[] = ""
doubled (String.◌∷◌ c s) =
    let rest = String.◌∷◌ c (doubled s) in if eqb (code c) 39 then String.◌∷◌ c rest else rest

-- `_sql_literal`
unfoldable pub sql_literal : String → String
sql_literal value = append "'" (append (doubled value) "'")

-- `_OBJECT_SELECT` and `_COLUMNS_SELECT`
unfoldable pub object_select : String
object_select = join "\n" (
    "SELECT" ∷ "    n.nspname AS schema_name," ∷ "    c.relname AS object_name,"
    ∷ "    CASE c.relkind" ∷ "        WHEN 'r' THEN 'table'"
    ∷ "        WHEN 'p' THEN 'partitioned_table'" ∷ "        WHEN 'v' THEN 'view'"
    ∷ "        WHEN 'm' THEN 'materialized_view'" ∷ "        WHEN 'f' THEN 'foreign_table'"
    ∷ "    END AS object_kind" ∷ "FROM pg_catalog.pg_class AS c"
    ∷ "JOIN pg_catalog.pg_namespace AS n ON n.oid = c.relnamespace"
    ∷ "WHERE c.relkind IN ('r', 'p', 'v', 'm', 'f')" ∷ [])

unfoldable pub columns_select : String
columns_select = join "\n" (
    "SELECT" ∷ "    a.attname AS column_name,"
    ∷ "    pg_catalog.format_type(a.atttypid, a.atttypmod) AS data_type,"
    ∷ "    NOT a.attnotnull AS nullable," ∷ "    a.attnum AS ordinal_position"
    ∷ "FROM pg_catalog.pg_class AS c"
    ∷ "JOIN pg_catalog.pg_namespace AS n ON n.oid = c.relnamespace"
    ∷ "JOIN pg_catalog.pg_attribute AS a ON a.attrelid = c.oid"
    ∷ "WHERE c.relkind IN ('r', 'p', 'v', 'm', 'f')" ∷ [])

-- The SQL of `_resolve_object`.
unfoldable pub object_sql : String → String → String
unfolding sql_literal object_select
object_sql schema object_name = join "\n" (
    object_select
    ∷ append "  AND n.nspname = " (sql_literal schema)
    ∷ append "  AND c.relname = " (sql_literal object_name)
    ∷ [])

abbrev pub containing : Option String → List String
unfolding sql_literal
containing none = []
containing (some name) =
    append "  AND strpos(lower(a.attname), lower(" (append (sql_literal name) ")) > 0") ∷ []

-- The SQL of `_load_columns`.
unfoldable pub columns_sql : String → String → Option String → ℕ → String
unfolding sql_literal columns_select natural_text
columns_sql schema object_name name_contains offset = join "\n" (
    (columns_select
      ∷ append "  AND n.nspname = " (sql_literal schema)
      ∷ append "  AND c.relname = " (sql_literal object_name)
      ∷ "  AND a.attnum > 0"
      ∷ "  AND NOT a.attisdropped"
      ∷ [])
    ++ containing name_contains
    ++ ("ORDER BY a.attnum" ∷ append "OFFSET " (natural_text offset) ∷ []))

-- `sorted` of a set, into which the names are added one by one.
abbrev place_name : String → List String → List String
place_name name [] = name ∷ []
place_name name (other ∷ names) =
    let rest = place_name name names in
    elim (compare name other) [
      | Ordering.lt ↦ name ∷ other ∷ names
      | Ordering.eq ↦ other ∷ names
      | Ordering.gt ↦ other ∷ rest
    ]

abbrev last_two : List String → List String
last_two (first ∷ second ∷ third ∷ parts) = last_two (second ∷ third ∷ parts)
last_two parts = parts

module _ (casefold : String → String) where
  abbrev add_name : List String → List String × List String → List String × List String
  add_name (part ∷ []) (unqualified, qualified) = (place_name part unqualified, qualified)
  add_name parts (unqualified, qualified) =
      (unqualified, place_name (join "." (last_two parts)) qualified)

  -- `_allowed_object_names`
  unfoldable pub allowed_object_names : List String → List String × List String
  unfolding split_parts text_of
  allowed_object_names [] = ([], [])
  allowed_object_names (raw_name ∷ names) =
      add_name (map (λ part. casefold (text_of part)) (split_parts (codes raw_name)))
        (allowed_object_names names)

  -- `_ensure_object_permitted`
  unfoldable pub is_object_permitted : TargetPolicyConfig → String → String → Bool
  unfolding allowed_object_names
  is_object_permitted policy schema object_name =
      let (unqualified, qualified) = allowed_object_names policy.allowed_sql_objects in
      policy.allow_all_sql_objects
      || is_in unqualified (casefold object_name)
      || is_in qualified (casefold (append schema (append "." object_name)))
