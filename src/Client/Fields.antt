-- ===== src/Client/Fields.antt =====
-- The values and menus of fields: `_parse_field_selection`, `_parse_field_menu` and
-- `_parse_field_menu_values` of src/helix_mcp/clients/arapi/client.py.
pub mod Menus
pub mod Selections
use helix_mcp_gateway.Prelude.{
  ℕ, Bool, true, false, not, ◌&&◌, ◌||◌, Option, none, some, List, [], ◌∷◌, String, eqb, leb,
  length, is_some,
}
use helix_mcp_gateway.Prelude.Equality.{◌==◌, string_eq}
use helix_mcp_gateway.Prelude.Collect.{collect, collect_distinct}
use helix_mcp_gateway.Prelude.Dict.{Dict}
use helix_mcp_gateway.Prelude.Attempt.{◌>>=◌, require}
use helix_mcp_gateway.Writes.Models.{JsonInt}
use helix_mcp_gateway.Client.Json.{
  JsonValue, null, as_object, as_array, as_natural, as_boolean, as_choice, as_int32, int_eq, get,
  has_exactly, as_normalized, as_safe,
}

-- `_MAX_SELECTION_VALUES`, `_MAX_MENU_VALUES`, `_MAX_MENU_DEPTH` and `_MAX_MENU_VALUE_LENGTH`
abbrev pub max_selection_values : ℕ
max_selection_values = 4096

abbrev pub max_menu_values : ℕ
max_menu_values = 500

abbrev pub max_menu_depth : ℕ
max_menu_depth = 32

abbrev pub max_menu_value_length : ℕ
max_menu_value_length = 8192

-- `ArapiSelectionValue`, `ArapiFieldSelection`, `ArapiFieldMenu`, `ArapiMenuValue`, `ArapiFieldMenuValues`
pub record ArapiSelectionValue : Type 0 where
  pub number : JsonInt
  pub label : String

pub record ArapiFieldSelection : Type 0 where
  pub id : ℕ
  pub name : String
  pub datatype : String
  pub selection_style : Option String
  pub values : List ArapiSelectionValue

pub record ArapiFieldMenu : Type 0 where
  pub id : ℕ
  pub name : String
  pub datatype : String
  pub has_menu : Bool
  pub menu_name : Option String
  pub menu_style : Option String

pub record ArapiMenuValue : Type 0 where
  pub label : String
  pub value : String
  pub path : List String

pub record ArapiFieldMenuValues : Type 0 where
  pub menu : ArapiFieldMenu
  pub menu_type : Option String
  pub values : List ArapiMenuValue
  pub limit : ℕ
  pub truncated : Bool

-- An identifier of a field, in the range of a signed 32-bit integer.
abbrev pub as_field_id : JsonValue → Option ℕ
as_field_id v = do
  field_id ← as_natural v
  require (leb 1 field_id && leb field_id 2147483647) (some field_id)

unfoldable pub parse_selection_value : JsonValue → Option ArapiSelectionValue
parse_selection_value raw = do
  d ← as_object raw
  number ← as_int32 (get "number" d)
  label ← as_normalized 255 (get "label" d)
  require (has_exactly ("number" ∷ "label" ∷ []) d)
      (some (record { number = number; label = label }))

abbrev pub is_empty {ℓ} : {A : Type ℓ} → List A → Bool
is_empty [] = true
is_empty (x ∷ xs) = false

-- `_parse_field_selection`
unfoldable pub parse_field_selection : JsonValue → Option ArapiFieldSelection
parse_field_selection payload = do
  d ← as_object payload
  field_id ← as_field_id (get "id" d)
  name ← as_normalized 255 (get "name" d)
  datatype ← as_safe 64 (get "datatype" d)
  selection_style ← as_choice ("regular" ∷ "custom" ∷ []) (get "selection_style" d)
  raw_values ← as_array (get "values" d)
  values ←
      require
        (has_exactly ("id" ∷ "name" ∷ "datatype" ∷ "selection_style" ∷ "values" ∷ []) d
          && leb (length raw_values) max_selection_values
          && (is_some selection_style || is_empty raw_values))
        (collect_distinct parse_selection_value (λ value. value.number) raw_values [])
  some (record {
    id = field_id;
    name = name;
    datatype = datatype;
    selection_style = selection_style;
    values = values;
  })

-- The name of a menu: there is one exactly where there is a menu.
abbrev pub menu_name_of : Bool → JsonValue → Option (Option String)
menu_name_of true v = do name ← as_normalized 255 v; some (some name)
menu_name_of false null = some none
menu_name_of false _ = none

-- Whether a property of a menu is there exactly where there is a menu.
abbrev pub there_with : Bool → Option String → Bool
there_with true choice = is_some choice
there_with false choice = not (is_some choice)

-- What the two parsers of menus read alike.
unfoldable pub parse_menu : Dict String JsonValue → Option ArapiFieldMenu
parse_menu d = do
  field_id ← as_field_id (get "id" d)
  name ← as_normalized 255 (get "name" d)
  datatype ← as_safe 64 (get "datatype" d)
  has_menu ← as_boolean (get "has_menu" d)
  menu_style ← as_choice ("append" ∷ "overwrite" ∷ []) (get "menu_style" d)
  menu_name ← menu_name_of has_menu (get "menu_name" d)
  require (there_with has_menu menu_style) (
      some (record {
        id = field_id;
        name = name;
        datatype = datatype;
        has_menu = has_menu;
        menu_name = menu_name;
        menu_style = menu_style;
      }))

abbrev pub menu_keys : List String
menu_keys = "id" ∷ "name" ∷ "datatype" ∷ "has_menu" ∷ "menu_name" ∷ "menu_style" ∷ []

-- `_parse_field_menu`
unfoldable pub parse_field_menu : JsonValue → Option ArapiFieldMenu
parse_field_menu payload = do
  d ← as_object payload
  require (has_exactly menu_keys d) (parse_menu d)

unfoldable pub parse_menu_value : JsonValue → Option ArapiMenuValue
parse_menu_value raw = do
  d ← as_object raw
  label ← as_normalized max_menu_value_length (get "label" d)
  value ← as_normalized max_menu_value_length (get "value" d)
  raw_path ← as_array (get "path" d)
  path ←
      require
        (has_exactly ("label" ∷ "value" ∷ "path" ∷ []) d && leb (length raw_path) max_menu_depth)
        (collect (as_normalized max_menu_value_length) raw_path)
  some (record { label = label; value = value; path = path })

-- What the values of a menu are tested for, once each is of its type.
unfoldable pub is_consistent :
    ℕ → Dict String JsonValue → ArapiFieldMenu → Option String → List JsonValue → ℕ → Bool → Bool
is_consistent expected_limit d menu menu_type raw_values limit truncated =
    has_exactly ("menu_type" ∷ "values" ∷ "limit" ∷ "truncated" ∷ menu_keys) d
    && leb (length raw_values) max_menu_values
    && leb (length raw_values) expected_limit
    && eqb limit expected_limit
    && leb 1 limit
    && leb limit max_menu_values
    && there_with menu.has_menu menu_type
    && (menu.has_menu || (is_empty raw_values && not truncated))

-- `_parse_field_menu_values`
unfoldable pub parse_field_menu_values : ℕ → JsonValue → Option ArapiFieldMenuValues
parse_field_menu_values expected_limit payload = do
  d ← as_object payload
  menu ← parse_menu d
  menu_type ←
      as_choice ("list" ∷ "query" ∷ "file" ∷ "sql" ∷ "server_side" ∷ "data_dictionary" ∷ [])
        (get "menu_type" d)
  raw_values ← as_array (get "values" d)
  limit ← as_natural (get "limit" d)
  truncated ← as_boolean (get "truncated" d)
  values ←
      require (is_consistent expected_limit d menu menu_type raw_values limit truncated)
        (collect parse_menu_value raw_values)
  some (record {
    menu = menu;
    menu_type = menu_type;
    values = values;
    limit = limit;
    truncated = truncated;
  })
