-- ===== src/Database/Metadata/Rows.antt =====
-- What src/helix_mcp/services/database/metadata.py reads of a row of the catalogue. A reader gives nothing
-- where the source raises. `str.casefold` is an argument.
use helix_mcp_gateway.Prelude.{
  ℕ, Bool, true, false, not, ◌&&◌, ◌||◌, Option, none, some, List, [], ◌∷◌, String, eqb,
  if◌then◌else◌,
}
use helix_mcp_gateway.Prelude.Equality.{◌==◌, string_eq}
use helix_mcp_gateway.Prelude.Distinct.{is_in}
use helix_mcp_gateway.Prelude.Dict.{Dict, lookup}
use helix_mcp_gateway.Prelude.Action.{Action, pure, or_raise, raise_if, ◌>>=◌, ◌>>◌}
use helix_mcp_gateway.Errors.{Exn, from_database, database_metadata_response, other_exception}
use helix_mcp_gateway.Text.{stripped}
use helix_mcp_gateway.Writes.Models.{JsonInt}
use helix_mcp_gateway.Client.Sql.{ArapiSqlValue, sql_text, sql_integer, sql_boolean}
use helix_mcp_gateway.Database.Metadata.{DatabaseObjectKind, kind_of}

-- `DatabaseObjectMetadata` and `DatabaseColumnMetadata`
pub record DatabaseObjectMetadata : Type 0 where
  pub schema_name : String
  pub name : String
  pub kind : DatabaseObjectKind

pub record DatabaseColumnMetadata : Type 0 where
  pub name : String
  pub data_type : String
  pub nullable : Bool
  pub position : ℕ

abbrev pub Row : Type 0
Row = Dict String ArapiSqlValue

-- `_require_str`
unfoldable pub require_str : Row → String → Option String
require_str row key = elim (lookup key row) [
  | some (sql_text s) ↦ if s == "" then none else some s
  | _ ↦ none
]

abbrev bool_of : JsonInt → Option Bool
bool_of i =
    if eqb i.magnitude 0
    then some false
    else if not i.negative && eqb i.magnitude 1
    then some true
    else none

abbrev bool_read : String → Option Bool
bool_read normalized =
    if is_in ("1" ∷ "t" ∷ "true" ∷ []) normalized
    then some true
    else if is_in ("0" ∷ "f" ∷ "false" ∷ []) normalized
    then some false
    else none

-- `_require_bool`
unfoldable pub require_bool : (String → String) → Row → String → Option Bool
unfolding stripped
require_bool casefold row key = elim (lookup key row) [
  | some (sql_boolean b) ↦ some b
  | some (sql_integer i) ↦ bool_of i
  | some (sql_text s) ↦ bool_read (casefold (stripped s))
  | _ ↦ none
]

-- `_require_int`
unfoldable pub require_int : Row → String → Option JsonInt
require_int row key = elim (lookup key row) [ some (sql_integer i) ↦ some i | _ ↦ none ]

module _ {S : Type 0} where
  -- A value that is missing or of another type is a response that is not valid.
  abbrev pub valid : {A : Type 0} → Option A → Action Exn S A
  valid o = or_raise o (from_database database_metadata_response)

  -- `_object_from_row`; a kind that is none is a `ValueError`.
  unfoldable pub object_from_row : Row → Action Exn S DatabaseObjectMetadata
  object_from_row row = do
    schema_name ← valid (require_str row "schema_name")
    name ← valid (require_str row "object_name")
    kind_name ← valid (require_str row "object_kind")
    kind ← or_raise (kind_of kind_name) other_exception
    pure (record { schema_name = schema_name; name = name; kind = kind })

  -- `_column_from_row`; a position that is not positive is a `ValidationError`.
  unfoldable pub column_from_row : (String → String) → Row → Action Exn S DatabaseColumnMetadata
  column_from_row casefold row = do
    name ← valid (require_str row "column_name")
    data_type ← valid (require_str row "data_type")
    nullable ← valid (require_bool casefold row "nullable")
    position ← valid (require_int row "ordinal_position")
    raise_if (position.negative || eqb position.magnitude 0) other_exception
    pure (record {
      name = name;
      data_type = data_type;
      nullable = nullable;
      position = position.magnitude;
    })

  -- `tuple(read(row) for row in rows)`
  unfoldable pub read_each :
      {A : Type 0} → (Row → Action Exn S A) → List Row → Action Exn S (List A)
  read_each read [] = pure []
  read_each read (row ∷ rows) = do first ← read row; rest ← read_each read rows; pure (first ∷ rest)
