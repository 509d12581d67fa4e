-- ===== src/Client/Calls.antt =====
-- The operations of `ArapiBridgeClient` of src/helix_mcp/clients/arapi/client.py: what each sends, and
-- what it makes of the answer. `str.casefold` is an argument.
pub mod Asked
pub mod Written
use helix_mcp_gateway.Prelude.{
  ℕ, Bool, true, false, not, ◌&&◌, Option, none, some, List, [], ◌∷◌, ◌++◌, String, length, map,
}
use helix_mcp_gateway.Prelude.Equality.{◌==◌, string_eq}
use helix_mcp_gateway.Prelude.Dict.{Dict}
use helix_mcp_gateway.Prelude.Action.{
  Result, ok, err, Action, pure, raise_if, or_raise, ◌>>=◌, ◌>>◌,
}
use helix_mcp_gateway.Errors.{Exn, from_bridge, other_exception, arapi_bridge_protocol}
use helix_mcp_gateway.Text.{append, join}
use helix_mcp_gateway.Writes.Models.{Values}
use helix_mcp_gateway.Client.Json.{JsonValue, as_object, as_text, get, has_exactly}
use helix_mcp_gateway.Client.Forms.{ArapiField, parse_forms, parse_fields}
use helix_mcp_gateway.Client.Fields.{
  ArapiFieldSelection, ArapiFieldMenu, ArapiFieldMenuValues, parse_field_selection,
  parse_field_menu, parse_field_menu_values,
}
use helix_mcp_gateway.Client.Decimal.{natural_text}
use helix_mcp_gateway.Client.Sql.{ArapiSqlResult, parse_sql_result, sql_bounds}
use helix_mcp_gateway.Client.Entries.{
  ArapiQueryPage, ArapiEntryResult, ArapiPreparedUpdate, parse_query_page, parse_entry_result,
  parse_prepared_update, parse_write_result, parse_create_result,
}
use helix_mcp_gateway.Client.Encode.{encode_write_values}
use helix_mcp_gateway.Client.Post.{ArapiBackendConfig, Http, State, ClientAction, post, update_with}

-- `payload != {"status": "authenticated"}`
unfoldable pub is_authenticated : JsonValue → Bool
is_authenticated payload = elim (as_object payload) [
  | none ↦ false
  | some d ↦
      has_exactly ("status" ∷ []) d
      && elim (as_text (get "status" d)) [ none ↦ false | some status ↦ status == "authenticated" ]
]

abbrev lower_bool : Bool → String
lower_bool true = "true"
lower_bool false = "false"

abbrev with_qualification : Option String → Dict String String
with_qualification none = []
with_qualification (some qualification) = ("qualification", qualification) ∷ []

abbrev with_sort : List (String × String) → Dict String String
with_sort [] = []
with_sort sort = ("sort", join "," (map (λ s. append s.0 (append "." s.1)) sort)) ∷ []

module _ (casefold : String → String) (H : Http) (config : ArapiBackendConfig)
    (bridge_token : Option String) where
  -- A call whose answer `parse` reads; an answer that it refuses is a protocol error.
  unfoldable pub ask :
      {A : Type 0}
      → String
      → Dict String String
      → Option ℕ
      → (JsonValue → Option A)
      → ClientAction H A
  ask path form timeout_seconds parse = do
    payload ← post H config bridge_token path form timeout_seconds
    or_raise (parse payload) (from_bridge arapi_bridge_protocol)

  unfoldable pub list_forms : ClientAction H (List String)
  list_forms = ask "/v1/forms" [] none (parse_forms casefold)

  unfoldable pub probe_authentication : ClientAction H (Unit {0})
  probe_authentication = do
    payload ← post H config bridge_token "/v1/authentication/probe" [] none
    raise_if (not (is_authenticated payload)) (from_bridge arapi_bridge_protocol)

  unfoldable pub list_fields : String → ClientAction H (List ArapiField)
  list_fields form = ask "/v1/fields" (("form", form) ∷ []) none parse_fields

  unfoldable pub get_field_selection_values : String → ℕ → ClientAction H ArapiFieldSelection
  get_field_selection_values form field_id =
      ask "/v1/fields/selection-values" (("form", form) ∷ ("field_id", natural_text field_id) ∷ [])
        none parse_field_selection

  unfoldable pub get_field_menu_metadata : String → ℕ → ClientAction H ArapiFieldMenu
  get_field_menu_metadata form field_id =
      ask "/v1/fields/menu-metadata" (("form", form) ∷ ("field_id", natural_text field_id) ∷ [])
        none parse_field_menu

  unfoldable pub resolve_field_menu_values : String → ℕ → ℕ → ClientAction H ArapiFieldMenuValues
  resolve_field_menu_values form field_id limit =
      ask "/v1/fields/menu-values"
        (("form", form) ∷ ("field_id", natural_text field_id) ∷ ("limit", natural_text limit) ∷ [])
        none (parse_field_menu_values limit)

  unfoldable pub query_entries :
      String
      → List String
      → Option String
      → List (String × String)
      → ℕ
      → ℕ
      → Bool
      → ClientAction H ArapiQueryPage
  query_entries form fields qualification sort offset limit include_total =
      ask "/v1/entries/query"
        ((("form", form)
            ∷ ("fields", join "," fields)
            ∷ ("offset", natural_text offset)
            ∷ ("limit", natural_text limit)
            ∷ ("include_total", lower_bool include_total)
            ∷ [])
          ++ with_qualification qualification
          ++ with_sort sort)
        none (parse_query_page casefold fields offset limit include_total)

  unfoldable pub get_entry : String → String → List String → ClientAction H ArapiEntryResult
  get_entry form entry_id fields =
      ask "/v1/entries/get"
        (("form", form) ∷ ("entry_id", entry_id) ∷ ("fields", join "," fields) ∷ []) none
        (parse_entry_result casefold entry_id fields)

  unfoldable pub prepare_update : String → String → List String → ClientAction H ArapiPreparedUpdate
  prepare_update form entry_id fields =
      ask "/v1/entries/prepare-update"
        (("form", form) ∷ ("entry_id", entry_id) ∷ ("fields", join "," fields) ∷ []) none
        (parse_prepared_update casefold entry_id fields)

  unfoldable pub create_entry : String → Values → ClientAction H (Option String)
  create_entry form values = do
    encoded ← or_raise (encode_write_values casefold values) other_exception
    ask "/v1/entries/create" (update_with (("form", form) ∷ []) encoded) none parse_create_result

  unfoldable pub update_entry : String → String → Values → String → ClientAction H (Unit {0})
  update_entry form entry_id values precondition = do
    encoded ← or_raise (encode_write_values casefold values) other_exception
    returned_id ←
        ask "/v1/entries/update"
          (update_with
            (("form", form) ∷ ("entry_id", entry_id) ∷ ("precondition", precondition) ∷ []) encoded)
          none parse_write_result
    raise_if (not (returned_id == entry_id)) (from_bridge arapi_bridge_protocol)

  unfoldable pub query_sql : String → ℕ → ℕ → ℕ → ClientAction H ArapiSqlResult
  query_sql sql column_count limit timeout_seconds = do
    raise_if (not (sql_bounds column_count limit)) other_exception
    ask "/v1/sql/query"
        (("sql", sql)
          ∷ ("column_count", natural_text column_count)
          ∷ ("limit", natural_text limit)
          ∷ [])
        (some timeout_seconds) (parse_sql_result column_count limit)
