-- ===== src/Client/Forms.antt =====
-- `_parse_forms` and `_parse_fields` of src/helix_mcp/clients/arapi/client.py. `str.casefold` is an
-- argument.
use helix_mcp_gateway.Prelude.{
  ℕ, ◌≤◌, ◌≡◌, ap, ◌∙◌, arith, map, false, ◌&&◌, Option, some, List, [], String, eqb, leb, length,
}
use helix_mcp_gateway.Prelude.Equality.{Eq, string_eq, nat_eq}
use helix_mcp_gateway.Prelude.Collect.{
  AreRead, AreRead-length, collect_distinct, collect_distinct-AreReadOnce,
}
use helix_mcp_gateway.Prelude.Distinct.{has_duplicates}
use helix_mcp_gateway.Prelude.Attempt.{◌>>=◌, require, given, given_test}
use helix_mcp_gateway.Client.Json.{
  JsonValue, as_object, field_of, field_read, as_array, as_natural, get, as_normalized, as_safe,
}

-- `_MAX_FORMS` and `_MAX_FIELDS`
abbrev pub max_forms : ℕ
max_forms = 100000

abbrev pub max_fields : ℕ
max_fields = 100000

-- `ArapiField`
pub record ArapiField : Type 0 where
  pub id : ℕ
  pub name : String
  pub datatype : String

-- What `_parse_forms` and `_parse_fields` do alike: the items of a list, no two with one key, and their
-- number in `total`.
module _ {A K : Type 0} ⦃e : Eq K⦄ (maximum : ℕ) (parse : JsonValue → Option A)
    (item_key : A → K) where
  unfoldable pub read_items : String → JsonValue → Option (List A)
  read_items name payload = do
    d ← as_object payload
    raw ← as_array (get name d)
    total ← as_natural (get "total" d)
    require (leb (length raw) maximum && eqb total (length raw))
        (collect_distinct parse item_key raw [])

  -- The items are read from the list in the payload, one from each in order, with distinct keys; they
  -- are within the maximum, and the payload gives their number.
  pub record AreItems (name : String) (payload : JsonValue) (items : List A) : Type 0 where
    pub raw : List JsonValue
    pub listed : field_of name as_array payload ≡ some raw
    pub counted : field_of "total" as_natural payload ≡ some (length items)
    pub read : AreRead parse raw items
    pub distinct : has_duplicates (map item_key items) ≡ false
    pub bounded : length items ≤ maximum

  pub read_items-AreItems :
      (name : String) (payload : JsonValue) (items : List A)
      → read_items name payload ≡ some items
      → AreItems name payload items
  unfolding read_items
  read_items-AreItems name payload items h = given (as_object payload) h λ d is_object h₁.
      given (as_array (get name d)) h₁ λ raw is_array h₂.
        given (as_natural (get "total" d)) h₂ λ total is_total h₃.
          given_test (leb (length raw) maximum && eqb total (length raw)) h₃ λ tested h₄.
            let once = collect_distinct-AreReadOnce parse item_key raw [] items h₄ in
            let same_length = AreRead-length parse raw items once.read in
            let same_total : total ≡ length items = ground (arith, tested, same_length) in
            record {
              raw = raw;
              listed = field_read name as_array payload d is_object is_array;
              counted =
                  field_read "total" as_natural payload d is_object (is_total ∙ ap some same_total);
              read = once.read;
              distinct = once.distinct;
              bounded = ground (arith, tested, same_length);
            }

module _ (casefold : String → String) where
  -- `_parse_forms`
  unfoldable pub parse_forms : JsonValue → Option (List String)
  parse_forms payload = read_items max_forms (as_normalized 255) casefold "forms" payload

-- One field of `_parse_fields`.
unfoldable pub parse_field : JsonValue → Option ArapiField
parse_field raw = do
  d ← as_object raw
  field_id ← as_natural (get "id" d)
  name ← as_normalized 255 (get "name" d)
  datatype ← as_safe 64 (get "datatype" d)
  require (leb 1 field_id) (some (record { id = field_id; name = name; datatype = datatype }))

-- `_parse_fields`
unfoldable pub parse_fields : JsonValue → Option (List ArapiField)
parse_fields payload = read_items max_fields parse_field (λ field. field.id) "fields" payload
