-- ===== src/Client/Fields/Selections.antt =====
-- The values of selection fields that `_parse_field_selection` of src/helix_mcp/clients/arapi/client.py
-- accepts.
use helix_mcp_gateway.Prelude.{
  ◌≡◌, ◌≤◌, true, false, ◌&&◌, ◌||◌, none, some, List, [], ◌∷◌, leb, length, All, arith, is_some,
  map,
}
use helix_mcp_gateway.Prelude.Equality.{string_eq}
use helix_mcp_gateway.Prelude.Distinct.{has_duplicates}
use helix_mcp_gateway.Prelude.Collect.{
  AreRead, AreRead-length, collect_distinct, collect_distinct-AreReadOnce,
}
use helix_mcp_gateway.Prelude.Attempt.{require, given, given_test, given_value}
use helix_mcp_gateway.Client.Json.{
  JsonValue, as_object, as_array, as_integer, as_int32, is_int32, as_choice, int_eq, get,
  has_exactly, as_normalized, as_safe, field_of, field_read,
}
use helix_mcp_gateway.Client.Fields.{
  ArapiSelectionValue, ArapiFieldSelection, max_selection_values, as_field_id, is_empty,
  parse_selection_value, parse_field_selection,
}
use helix_mcp_gateway.Client.Fields.Menus.{as_field_id-bounds}

-- The values of a selection field, with distinct numbers, each a 32-bit integer.
pub record IsSelection (payload : JsonValue) (selection : ArapiFieldSelection) : Type 0 where
  pub identified : (1 ≤ selection.id) × (selection.id ≤ 2147483647)
  pub raw : List JsonValue
  pub sent : field_of "values" as_array payload ≡ some raw
  pub read : AreRead parse_selection_value raw selection.values
  pub distinct : has_duplicates (map (λ value. value.number) selection.values) ≡ false
  pub bounded : length selection.values ≤ max_selection_values
  pub in_range : All (λ value. is_int32 value.number ≡ true) selection.values
  pub none_without_style : selection.selection_style ≡ none → length selection.values ≡ 0

parse_selection_value-is_int32 :
    (raw : JsonValue) (value : ArapiSelectionValue)
    → parse_selection_value raw ≡ some value
    → is_int32 value.number ≡ true
unfolding parse_selection_value
parse_selection_value-is_int32 raw value h = given (as_object raw) h λ d _ h₁.
    given (as_int32 (get "number" d)) h₁ λ number is_number h₂.
      given (as_normalized 255 (get "label" d)) h₂ λ label _ h₃.
        given_test (has_exactly ("number" ∷ "label" ∷ []) d) h₃ λ _ h₄.
          given (as_integer (get "number" d)) is_number λ i _ h₅.
            given_test (is_int32 i) h₅ λ tested h₆.
              given_value (λ value. is_int32 value.number ≡ true) h₄
                (given_value (λ i. is_int32 i ≡ true) h₆ tested)

numbers_in_range :
    (raw : List JsonValue) (values : List ArapiSelectionValue)
    → AreRead parse_selection_value raw values
    → All (λ value. is_int32 value.number ≡ true) values
numbers_in_range [] [] h = tt
numbers_in_range [] (v ∷ values) h = absurd h
numbers_in_range (x ∷ raw) [] h = absurd h
numbers_in_range (x ∷ raw) (v ∷ values) h =
    (parse_selection_value-is_int32 x v h.0, numbers_in_range raw values h.1)

-- The values of a selection field that are accepted are read from the list of the payload, one from each
-- item in order, at most 4,096, with distinct numbers that are 32-bit integers; there are none where the
-- field has no style, and the identifier of the field is from 1 to 2,147,483,647.
pub parse_field_selection-IsSelection :
    (payload : JsonValue) (selection : ArapiFieldSelection)
    → parse_field_selection payload ≡ some selection
    → IsSelection payload selection
unfolding parse_field_selection
parse_field_selection-IsSelection payload selection h =
    given (as_object payload) h λ d is_object h₁.
      given (as_field_id (get "id" d)) h₁ λ field_id is_id h₂.
        given (as_normalized 255 (get "name" d)) h₂ λ name _ h₃.
          given (as_safe 64 (get "datatype" d)) h₃ λ datatype _ h₄.
            given (as_choice ("regular" ∷ "custom" ∷ []) (get "selection_style" d)) h₄ λ style _ h₅.
              given (as_array (get "values" d)) h₅ λ raw has_values h₆.
                let test =
                  has_exactly ("id" ∷ "name" ∷ "datatype" ∷ "selection_style" ∷ "values" ∷ []) d
                  && leb (length raw) max_selection_values
                  && (is_some style || is_empty raw) in
                given
                  (require test
                    (collect_distinct parse_selection_value (λ value. value.number) raw []))
                  h₆
                  λ values h₇ h₈. given_test test h₇ λ tested h₉.
                    let once =
                      collect_distinct-AreReadOnce parse_selection_value (λ value. value.number) raw
                        [] values h₉ in
                    let one_each = AreRead-length parse_selection_value raw values once.read in
                    given_value (IsSelection payload) h₈ (record {
                      identified = as_field_id-bounds (get "id" d) field_id is_id;
                      raw = raw;
                      sent = field_read "values" as_array payload d is_object has_values;
                      read = once.read;
                      distinct = once.distinct;
                      bounded = ground (arith, tested, one_each);
                      in_range = numbers_in_range raw values once.read;
                      none_without_style = λ no_style. ground (arith, tested, no_style, one_each);
                    })
