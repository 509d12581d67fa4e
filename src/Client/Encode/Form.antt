-- ===== src/Client/Encode/Form.antt =====
-- The form that `_encode_write_values` of src/helix_mcp/clients/arapi/client.py makes of the values.
use helix_mcp_gateway.Prelude.{
  ℕ, suc, ◌≡◌, refl, sym, ap, ◌∙◌, ◌≢◌, ◌≤◌, true, false, not, ◌&&◌, some, List, [], ◌∷◌, String,
  eqb, leb, length, any_of, All, map, arith, if◌then◌else◌, Bool-cases, inl, inr,
}
use helix_mcp_gateway.Prelude.Equality.{◌==◌, string_eq}
use helix_mcp_gateway.Prelude.Distinct.{is_in, has_duplicates, later_fresh}
use helix_mcp_gateway.Prelude.Dict.{Dict, lookup, insert, lookup-insert}
use helix_mcp_gateway.Prelude.Attempt.{given, given_test}
use helix_mcp_gateway.Text.{codes}
use helix_mcp_gateway.Writes.Models.{Values}
use helix_mcp_gateway.Client.Json.{is_safe}
use helix_mcp_gateway.Client.Decimal.{natural_text}
use helix_mcp_gateway.Client.Encode.{key, set_value, encode_value, encode_from, encode_write_values}
use helix_mcp_gateway.Client.Encode.Keys.{
  IsBefore, IsBefore-suc, field_key-IsBefore, type_key-IsBefore, value_key-IsBefore,
  count_key-IsBefore, field_key-type_key, field_key-value_key, value_key-type_key,
}

different : (a b : String) → a ≢ b → (a == b) ≡ false
different a b h = elim (Bool-cases (a == b)) [
  | inl e ↦ absurd (h ((string_eq.reflects a b).0 e))
  | inr e ↦ e
]

same : (a : String) → (a == a) ≡ true
same a = (string_eq.reflects a a).1 refl

lookup-insert-other :
    (k j v : String) (form : Dict String String)
    → j ≢ k
    → lookup j (insert k v form) ≡ lookup j form
lookup-insert-other k j v form h =
    lookup-insert k j v form
    ∙ ap (λ b. if b then some v else lookup j form) (different k j (λ e. h (sym e)))

lookup-insert-same :
    (k v : String) (form : Dict String String) → lookup k (insert k v form) ≡ some v
lookup-insert-same k v form =
    lookup-insert k k v form ∙ ap (λ b. if b then some v else lookup k form) (same k)

counted_first :
    (count : String) → lookup {K = String} "value_count" (("value_count", count) ∷ []) ≡ some count
unfolding lookup
counted_first count = refl

-- The three fields of one value.
module _ (index : ℕ) (field : String) (encoded : String × String) (form : Dict String String) where
  after_field : Dict String String
  after_field = insert (key "field_" index) field form

  after_type : Dict String String
  unfolding after_field
  after_type = insert (key "value_type_" index) encoded.0 after_field

  set_value-keeps :
      (k : String)
      → IsBefore index k
      → lookup k (set_value index field encoded form) ≡ lookup k form
  unfolding set_value after_type after_field
  set_value-keeps k before =
      lookup-insert-other (key "value_" index) k encoded.1 after_type
        (before.no_value index (omega arith))
      ∙ lookup-insert-other (key "value_type_" index) k encoded.0 after_field
          (before.no_type index (omega arith))
      ∙ lookup-insert-other (key "field_" index) k field form (before.no_field index (omega arith))

  set_value-value :
      lookup (key "value_" index) (set_value index field encoded form) ≡ some encoded.1
  unfolding set_value after_type after_field
  set_value-value = lookup-insert-same (key "value_" index) encoded.1 after_type

  set_value-type :
      lookup (key "value_type_" index) (set_value index field encoded form) ≡ some encoded.0
  unfolding set_value after_type after_field
  set_value-type =
      lookup-insert-other (key "value_" index) (key "value_type_" index) encoded.1 after_type
        (λ h. value_key-type_key index index (sym h))
      ∙ lookup-insert-same (key "value_type_" index) encoded.0 after_field

  set_value-field : lookup (key "field_" index) (set_value index field encoded form) ≡ some field
  unfolding set_value after_type after_field
  set_value-field =
      lookup-insert-other (key "value_" index) (key "field_" index) encoded.1 after_type
        (field_key-value_key index index)
      ∙ lookup-insert-other (key "value_type_" index) (key "field_" index) encoded.0 after_field
          (field_key-type_key index index)
      ∙ lookup-insert-same (key "field_" index) field form

module _ (casefold : String → String) where
  -- Each value has, under its index, its name, its type and its text in the form; its name is safe and has
  -- no comma.
  abbrev pub AreSent : ℕ → Values → Dict String String → Type 0
  AreSent index [] form = Unit
  AreSent index ((field, value) ∷ values) form =
      ((encoded : String × String) × (encode_value value ≡ some encoded)
        × (lookup (key "field_" index) form ≡ some field)
        × (lookup (key "value_type_" index) form ≡ some encoded.0)
        × (lookup (key "value_" index) form ≡ some encoded.1)
        × (is_safe field 255 ≡ true)
        × (any_of (λ c. eqb c 44) (codes field) ≡ false))
      × AreSent (suc index) values form

  -- What the loop gives: the values from the index on, with names that are new, and what was there before.
  record IsEncoded (index : ℕ) (folded : List String) (values : Values)
      (form result : Dict String String) : Type 0 where
    sent : AreSent index values result
    kept : (k : String) → IsBefore index k → lookup k result ≡ lookup k form
    distinct : has_duplicates (map (λ entry. casefold entry.0) values) ≡ false
    fresh : All (λ entry. is_in folded (casefold entry.0) ≡ false) values

  encode_from-IsEncoded :
      (index : ℕ) (folded : List String) (values : Values) (form result : Dict String String)
      → encode_from casefold index folded values form ≡ some result
      → IsEncoded index folded values form result
  unfolding encode_from
  encode_from-IsEncoded index folded [] form result h =
      let done : form ≡ result = cc h in
      record { sent = tt; kept = λ k before. ap (lookup k) (sym done); distinct = refl; fresh = tt }
  encode_from-IsEncoded index folded ((field, value) ∷ values) form result h =
      given (encode_value value) h λ encoded is_encoded h₁.
        let test =
          is_safe field 255
          && not (any_of (λ c. eqb c 44) (codes field))
          && not (is_in folded (casefold field)) in
        given_test test h₁ λ tested h₂.
          let form' = set_value index field encoded form in
          let later =
            encode_from-IsEncoded (suc index) (casefold field ∷ folded) values form' result h₂ in
          let (absent, fresh) =
            later_fresh (λ entry. casefold entry.0) (field, value) folded values later.fresh in
          record {
            sent = (
              (
                encoded,
                is_encoded,
                later.kept (key "field_" index) (field_key-IsBefore index)
                    ∙ set_value-field index field encoded form,
                later.kept (key "value_type_" index) (type_key-IsBefore index)
                    ∙ set_value-type index field encoded form,
                later.kept (key "value_" index) (value_key-IsBefore index)
                    ∙ set_value-value index field encoded form,
                ground (arith, tested),
                ground (arith, tested),
              ),
              later.sent,
            );
            kept = λ k before.
                later.kept k (IsBefore-suc index k before)
                ∙ set_value-keeps index field encoded form k before;
            distinct = rw (absent, later.distinct) refl;
            fresh = (ground (arith, tested), fresh);
          }

  -- The form of a write has the number of its values, from 1 to 32, and each value under its index, in
  -- order; no two names are the same when case is folded.
  pub record IsForm (values : Values) (form : Dict String String) : Type 0 where
    pub counted : lookup "value_count" form ≡ some (natural_text (length values))
    pub bounded : (1 ≤ length values) × (length values ≤ 32)
    pub sent : AreSent 0 values form
    pub distinct : has_duplicates (map (λ entry. casefold entry.0) values) ≡ false

  -- Values that are encoded are from 1 to 32. The form has their number, and for the value at each index
  -- its name, which is safe and has no comma, its type and its text, whatever the other values are; no two
  -- names are the same when case is folded.
  pub encode_write_values-IsForm :
      (values : Values) (form : Dict String String)
      → encode_write_values casefold values ≡ some form
      → IsForm values form
  unfolding encode_write_values
  encode_write_values-IsForm values form h =
      given_test (leb 1 (length values) && leb (length values) 32) h λ tested h₁.
        let start = ("value_count", natural_text (length values)) ∷ [] in
        let encoded = encode_from-IsEncoded 0 [] values start form h₁ in
        record {
          counted =
              encoded.kept "value_count" count_key-IsBefore
              ∙ counted_first (natural_text (length values));
          bounded = (ground (arith, tested), ground (arith, tested));
          sent = encoded.sent;
          distinct = encoded.distinct;
        }
