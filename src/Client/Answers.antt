-- ===== src/Client/Answers.antt =====
-- What the catalogues that src/helix_mcp/clients/arapi/client.py accepts are.
use helix_mcp_gateway.Prelude.{◌≡◌, String, some, List}
use helix_mcp_gateway.Prelude.Equality.{string_eq, nat_eq}
use helix_mcp_gateway.Client.Json.{JsonValue, as_normalized}
use helix_mcp_gateway.Client.Forms.{
  ArapiField, max_forms, max_fields, parse_forms, parse_field, parse_fields, AreItems,
  read_items-AreItems,
}

-- The names that are accepted as the catalogue of forms are read from the list of the payload, one from
-- each item in order and without the white space around it; no two are the same when case is folded, the
-- payload gives their number, and there are at most 100,000.
pub parse_forms-AreItems :
    (casefold : String → String) (payload : JsonValue) (forms : List String)
    → parse_forms casefold payload ≡ some forms
    → AreItems max_forms (as_normalized 255) casefold "forms" payload forms
unfolding parse_forms
parse_forms-AreItems casefold payload forms h =
    read_items-AreItems max_forms (as_normalized 255) casefold "forms" payload forms h

-- The fields that are accepted are read from the list of the payload, one from each item in order; no
-- two have one id, the payload gives their number, and there are at most 100,000.
pub parse_fields-AreItems :
    (payload : JsonValue) (fields : List ArapiField)
    → parse_fields payload ≡ some fields
    → AreItems max_fields parse_field (λ field. field.id) "fields" payload fields
unfolding parse_fields
parse_fields-AreItems payload fields h =
    read_items-AreItems max_fields parse_field (λ field. field.id) "fields" payload fields h
