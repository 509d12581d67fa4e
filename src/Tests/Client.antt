-- ===== src/Tests/Client.antt =====
-- The client of the bridge on concrete inputs.
use helix_mcp_gateway.Prelude.{
  ℕ, suc, ◌≡◌, refl, ◌⊎◌, ◌↔◌, ◌≤◌, true, false, none, some, [], ◌∷◌, String, length,
}
use helix_mcp_gateway.Prelude.Equality.{string_eq}
use helix_mcp_gateway.Prelude.Dict.{Dict, lookup, insert}
use helix_mcp_gateway.Prelude.Action.{ok, err, ◌>>=◌}
use helix_mcp_gateway.Prelude.Collect.{collect, collect_distinct}
use helix_mcp_gateway.Errors.{from_bridge, arapi_bridge_conflict}
use helix_mcp_gateway.Text.{strip, is_space, text_of, stripped}
use helix_mcp_gateway.Writes.Models.{Values, str, bool}
use helix_mcp_gateway.Writes.Bridge.{handle}
use helix_mcp_gateway.Client.Json.{
  JsonValue, null, boolean, integer, text, array, object, no_items, item, no_members, member,
  contains_control_characters, is_normalizable, is_safe, has_exactly,
}
use helix_mcp_gateway.Client.Decimal.{natural_text, with_digits, digit, decimal_value}
use helix_mcp_gateway.Client.Fields.{
  ArapiFieldMenuValues, is_consistent, parse_menu, parse_menu_value, parse_field_menu_values,
}
use helix_mcp_gateway.Client.Fields.Menus.{AreMenuValues, parse_field_menu_values-AreMenuValues}
use helix_mcp_gateway.Client.Entries.{
  ArapiEntry, ArapiQueryPage, ArapiPreparedUpdate, parse_name, parse_entry, parse_total,
  parse_query_page, parse_entry_of, parse_prepared_update, is_precondition,
}
use helix_mcp_gateway.Client.Entries.Pages.{
  IsPage, IsPrepared, parse_query_page-IsPage, parse_prepared_update-IsPrepared,
}
use helix_mcp_gateway.Client.Post.{
  ArapiBackendConfig, Http, decoded, raised_if, State, post, payload_of, form_of, update_with,
  authentication_of, read_chunks, read_bounded_body, is_bounded_length, error_of,
  max_response_bytes,
}
use helix_mcp_gateway.Client.Post.Body.{whole, read_bounded_body_iff}
use helix_mcp_gateway.Client.Post.Sent.{IsRefused, IsUnread}
use helix_mcp_gateway.Client.Encode.{key, set_value, encode_value, encode_from, encode_write_values}
use helix_mcp_gateway.Client.Encode.Form.{IsForm, encode_write_values-IsForm}
use helix_mcp_gateway.Client.Calls.{ask, update_entry}
use helix_mcp_gateway.Client.Calls.Written.{update_form, update_entry-IsRefused}
use helix_mcp_gateway.Tests.Writes.{same_text}

abbrev natural : ℕ → JsonValue
natural n = integer (record { negative = false; magnitude = n })

abbrev credentials : Dict String String
credentials = ("username", "reader") ∷ ("password", "secret") ∷ []

-- A bridge that gives one answer, and whose world counts the requests.
abbrev pub answering : ℕ → JsonValue → Http
answering status payload = record {
  World = ℕ;
  resolve_secret = λ w. (ok credentials, w);
  stream = λ request w. (
    some (record {
      status_code = status;
      content_length = none;
      chunks = some (123 ∷ []) ∷ some (125 ∷ []) ∷ [];
    }),
    suc w,
  );
  int_of = λ s. none;
  loads = λ body. decoded payload;
  response_json = λ body. decoded payload;
}

abbrev pub local : ArapiBackendConfig
local = record { gateway_host = "127.0.0.1"; gateway_port = 7 }

abbrev pub opened : (status : ℕ) (payload : JsonValue) → State (answering status payload)
opened status payload = record { closed = false; world = 0 }

abbrev closing_values : Values
closing_values = ("Status", str "Closed") ∷ ("Urgent", bool true) ∷ []

conflict_raised :
    (update_entry same_text
      (answering 409 null)
      local
      none
      "HPD:Help Desk"
      "INC1"
      closing_values
      "1700000000"
      (opened 409 null)).0
    ≡ err (from_bridge arapi_bridge_conflict)
unfolding update_entry ask post form_of authentication_of update_with natural_text with_digits digit
    lookup insert payload_of read_bounded_body read_chunks is_bounded_length error_of raised_if
    encode_write_values encode_from encode_value set_value key is_safe is_normalizable strip
    is_space stripped text_of contains_control_characters ◌>>=◌
conflict_raised = refl

conflict_known : (handle false (from_bridge arapi_bridge_conflict)).outcome_unknown ≡ false
unfolding handle
conflict_known = refl

update_entry-IsRefused_example :
    (encode_write_values same_text closing_values ≡ none)
    ⊎ ((encoded : Dict String String) × (IsRefused
            (answering 409 null)
            local
            none
            "/v1/entries/update"
            (update_form "HPD:Help Desk" "INC1" "1700000000" encoded)
            none
            (opened 409 null)
          ⊎ IsUnread
              (answering 409 null)
              local
              none
              "/v1/entries/update"
              (update_form "HPD:Help Desk" "INC1" "1700000000" encoded)
              none
              (opened 409 null)
              (from_bridge arapi_bridge_conflict)))
update_entry-IsRefused_example =
    update_entry-IsRefused same_text (answering 409 null) local none "HPD:Help Desk" "INC1"
      closing_values "1700000000" (opened 409 null) (from_bridge arapi_bridge_conflict)
      conflict_raised conflict_known

abbrev no_object : JsonValue
no_object = object no_members

read_bounded_body_iff_example :
    (read_bounded_body
        (λ s. none)
        (record {
          status_code = 200;
          content_length = none;
          chunks = some (123 ∷ []) ∷ some (125 ∷ []) ∷ [];
        })
      ≡ ok (123 ∷ 125 ∷ []))
    ↔ ((is_bounded_length (λ s. none) none ≡ true)
        × (whole (some (123 ∷ []) ∷ some (125 ∷ []) ∷ []) ≡ some (123 ∷ 125 ∷ []))
        × (length {A = ℕ} (123 ∷ 125 ∷ []) ≤ max_response_bytes))
read_bounded_body_iff_example =
    read_bounded_body_iff (λ s. none)
      (record {
        status_code = 200;
        content_length = none;
        chunks = some (123 ∷ []) ∷ some (125 ∷ []) ∷ [];
      })
      (123 ∷ 125 ∷ [])

abbrev closing_form : Dict String String
closing_form =
    ("value_count", "2")
    ∷ ("field_0", "Status")
    ∷ ("value_type_0", "string")
    ∷ ("value_0", "Closed")
    ∷ ("field_1", "Urgent")
    ∷ ("value_type_1", "boolean")
    ∷ ("value_1", "true")
    ∷ []

closing_encoded : encode_write_values same_text closing_values ≡ some closing_form
unfolding encode_write_values encode_from encode_value set_value key insert natural_text with_digits
    digit is_safe is_normalizable strip is_space stripped text_of contains_control_characters
closing_encoded = refl

encode_write_values-IsForm_example : IsForm same_text closing_values closing_form
encode_write_values-IsForm_example =
    encode_write_values-IsForm same_text closing_values closing_form closing_encoded

abbrev one_entry : JsonValue
one_entry = object (member "values" (object (member "Status" (text "Open") no_members)) no_members)

abbrev one_page : JsonValue
one_page = object (
    member "entries" (array (item one_entry no_items)) (
      member "offset" (natural 0)
        (member "limit" (natural 5) (member "total" (natural 1) no_members))))

abbrev open_entry : ArapiEntry
open_entry = record { values = ("Status", text "Open") ∷ [] }

abbrev open_page : ArapiQueryPage
open_page = record { entries = open_entry ∷ []; offset = 0; limit = 5; total = some 1 }

page_parsed : parse_query_page same_text ("Status" ∷ []) 0 5 true one_page ≡ some open_page
unfolding parse_query_page parse_total collect parse_entry parse_name collect_distinct lookup
    is_safe is_normalizable strip is_space stripped text_of contains_control_characters
page_parsed = refl

parse_query_page-IsPage_example : IsPage same_text ("Status" ∷ []) 0 5 true one_page open_page
parse_query_page-IsPage_example =
    parse_query_page-IsPage same_text ("Status" ∷ []) 0 5 true one_page open_page page_parsed

abbrev prepared_payload : JsonValue
prepared_payload = object (
    member "entry_id" (text "INC1")
      (member "precondition" (text "1700000000") (member "entry" one_entry no_members)))

abbrev prepared_update : ArapiPreparedUpdate
prepared_update = record { entry_id = "INC1"; entry = open_entry; precondition = "1700000000" }

update_parsed :
    parse_prepared_update same_text "INC1" ("Status" ∷ []) prepared_payload ≡ some prepared_update
unfolding parse_prepared_update parse_entry_of is_precondition decimal_value parse_entry parse_name
    collect_distinct lookup is_safe is_normalizable strip is_space stripped text_of
    contains_control_characters
update_parsed = refl

parse_prepared_update-IsPrepared_example :
    IsPrepared same_text "INC1" ("Status" ∷ []) prepared_payload prepared_update
parse_prepared_update-IsPrepared_example =
    parse_prepared_update-IsPrepared same_text "INC1" ("Status" ∷ []) prepared_payload
      prepared_update update_parsed

abbrev menu_payload : JsonValue
menu_payload = object (
    member "id" (natural 7) (
      member "name" (text " Priority ") (
        member "datatype" (text "CHAR") (
          member "has_menu" (boolean true) (
            member "menu_name" (text "Priorities") (
              member "menu_style" (text "append") (
                member "menu_type" (text "list") (
                  member "values"
                    (array (
                      item
                        (object (
                          member "label" (text "High") (
                            member "value" (text "1") (member "path" (array no_items) no_members))))
                        no_items))
                    (member "limit" (natural 10)
                      (member "truncated" (boolean false) no_members))))))))))

abbrev menu_values : ArapiFieldMenuValues
menu_values = record {
  menu = record {
    id = 7;
    name = "Priority";
    datatype = "CHAR";
    has_menu = true;
    menu_name = some "Priorities";
    menu_style = some "append";
  };
  menu_type = some "list";
  values = record { label = "High"; value = "1"; path = [] } ∷ [];
  limit = 10;
  truncated = false;
}

menu_parsed : parse_field_menu_values 10 menu_payload ≡ some menu_values
unfolding parse_field_menu_values is_consistent parse_menu parse_menu_value collect has_exactly
    lookup is_safe is_normalizable strip is_space stripped text_of contains_control_characters
menu_parsed = refl

parse_field_menu_values-AreMenuValues_example : AreMenuValues 10 menu_payload menu_values
parse_field_menu_values-AreMenuValues_example =
    parse_field_menu_values-AreMenuValues 10 menu_payload menu_values menu_parsed
