-- ===== src/Client/Encode.antt =====
-- `_encode_write_values` of src/helix_mcp/clients/arapi/client.py: the values of a write as the bridge
-- is sent them. `str.casefold` is an argument.
pub mod Keys
pub mod Form
use helix_mcp_gateway.Prelude.{
  ℕ, suc, Bool, true, false, not, ◌&&◌, ◌||◌, Option, none, some, List, [], ◌∷◌, String, eqb, leb,
  length, any_of, if◌then◌else◌,
}
use helix_mcp_gateway.Prelude.Equality.{string_eq}
use helix_mcp_gateway.Prelude.Distinct.{is_in}
use helix_mcp_gateway.Prelude.Dict.{Dict, insert}
use helix_mcp_gateway.Prelude.Attempt.{◌>>=◌, require}
use helix_mcp_gateway.Text.{codes, append}
use helix_mcp_gateway.Writes.Models.{
  Values, JsonScalar, str, int, float, bool, JsonInt, finite, infinite, not_a_number,
}
use helix_mcp_gateway.Client.Json.{is_safe}
use helix_mcp_gateway.Client.Decimal.{natural_text}

-- `str(value)` of an integer
unfoldable pub integer_text : JsonInt → String
unfolding natural_text
integer_text i =
    if i.negative && not (eqb i.magnitude 0)
    then append "-" (natural_text i.magnitude)
    else natural_text i.magnitude

-- The type and the text of a value.
unfoldable pub encode_value : JsonScalar → Option (String × String)
unfolding integer_text
encode_value (bool value) = some ("boolean", if value then "true" else "false")
encode_value (int value) = some ("integer", integer_text value)
encode_value (float (finite digits)) = some ("number", digits)
encode_value (float _) = none
encode_value (str value) = require (leb (length (codes value)) 8192) (some ("string", value))

-- The name of the form's field with a prefix and an index.
unfoldable pub key : String → ℕ → String
unfolding natural_text
key prefix index = append prefix (natural_text index)

unfoldable pub set_value : ℕ → String → String × String → Dict String String → Dict String String
unfolding key
set_value index field (value_type, value) form =
    insert (key "value_" index) value
      (insert (key "value_type_" index) value_type (insert (key "field_" index) field form))

module _ (casefold : String → String) where
  -- The loop; `folded` are the names so far.
  unfoldable pub encode_from :
      ℕ → List String → Values → Dict String String → Option (Dict String String)
  unfolding set_value
  encode_from index folded [] form = some form
  encode_from index folded ((field, value) ∷ values) form = do
    encoded ← encode_value value
    require
        (is_safe field 255
          && not (any_of (λ c. eqb c 44) (codes field))
          && not (is_in folded (casefold field)))
        (encode_from (suc index) (casefold field ∷ folded) values
          (set_value index field encoded form))

  -- `_encode_write_values`
  unfoldable pub encode_write_values : Values → Option (Dict String String)
  encode_write_values values =
      require (leb 1 (length values) && leb (length values) 32)
        (encode_from 0 [] values (("value_count", natural_text (length values)) ∷ []))
