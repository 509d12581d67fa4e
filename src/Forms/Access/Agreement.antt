-- ===== src/Forms/Access/Agreement.antt =====
-- The three tests for sensitive fields, of src/helix_mcp/services/forms/service.py, of
-- src/helix_mcp/services/writes/service.py and of src/helix_mcp/config/models.py.
use helix_mcp_gateway.Prelude.{
  ◌≡◌, refl, sym, ap₂, ◌∙◌, Bool, false, ◌||◌, List, [], ◌∷◌, String, map, any_of, any_of-map,
  arith,
}
use helix_mcp_gateway.Prelude.Equality.{◌==◌, string_eq}
use helix_mcp_gateway.Config.{TargetPolicyConfig}
use helix_mcp_gateway.Prelude.Distinct.{is_in}
use helix_mcp_gateway.Config.Allowlists.{any_sensitive}
use helix_mcp_gateway.Text.{contains}
use helix_mcp_gateway.Forms.Access.{is_sensitive_field}
use helix_mcp_gateway.Writes.Policy.{folded_is_sensitive}

any_of-either :
    {A : Type 0} (a b : A → Bool) (xs : List A)
    → any_of (λ x. a x || b x) xs ≡ (any_of a xs || any_of b xs)
any_of-either a b [] = refl
any_of-either a b (x ∷ xs) = ground (arith, any_of-either a b xs)

any_of-never : {A : Type 0} (xs : List A) → any_of (λ x. false) xs ≡ false
any_of-never [] = refl
any_of-never (x ∷ xs) = any_of-never xs

module _ (casefold : String → String) (policy : TargetPolicyConfig) where
  abbrev reading : String → Bool
  reading field = is_sensitive_field casefold policy field

  abbrev writing : String → Bool
  writing field = folded_is_sensitive casefold policy (casefold field)

  one_field : (field : String) → reading field ≡ writing field
  unfolding is_sensitive_field folded_is_sensitive
  one_field field =
      let named = any_of-map (λ item. item == casefold field) casefold policy.sensitive_fields in
      ground (arith, named)

  -- What the validation of a policy asks of folded fields, with the loops the other way round.
  abbrev listing : List String → Bool
  listing folded =
      any_sensitive (map casefold policy.sensitive_fields)
        (map casefold policy.sensitive_field_markers) folded

  listed_one :
      (field : String)
      → (is_in (map casefold policy.sensitive_fields) (casefold field)
          || any_of
              (λ marker. contains marker (casefold field))
              (map casefold policy.sensitive_field_markers))
        ≡ writing field
  unfolding folded_is_sensitive
  listed_one field =
      ap₂ (λ a b. a || b)
        (any_of-map (λ item. item == casefold field) casefold policy.sensitive_fields)
        (any_of-map (λ marker. contains marker (casefold field)) casefold
          policy.sensitive_field_markers)

  all_fields : (fields : List String) → listing (map casefold fields) ≡ any_of writing fields
  unfolding any_sensitive
  all_fields [] = any_of-never (map casefold policy.sensitive_field_markers)
  all_fields (field ∷ fields) =
      let split =
        any_of-either (λ marker. contains marker (casefold field))
          (λ marker. any_of (contains marker) (map casefold fields))
          (map casefold policy.sensitive_field_markers) in
      ground (arith, split, listed_one field, all_fields fields)

  any_reading : (fields : List String) → any_of reading fields ≡ any_of writing fields
  any_reading [] = refl
  any_reading (field ∷ fields) = ap₂ (λ a b. a || b) (one_field field) (any_reading fields)

  -- The three tests for sensitive fields agree, on any fields: the validation of a policy finds a
  -- sensitive one among those it lists exactly where the check of a write does among those it is to
  -- write, and exactly where the check of a read does among those it is to read.
  pub any_sensitive-eq-is_sensitive_field :
      (fields : List String)
      → (any_sensitive
            (map casefold policy.sensitive_fields)
            (map casefold policy.sensitive_field_markers)
            (map casefold fields)
          ≡ any_of (is_sensitive_field casefold policy) fields)
        × (any_of (λ field. folded_is_sensitive casefold policy (casefold field)) fields
            ≡ any_of (is_sensitive_field casefold policy) fields)
  any_sensitive-eq-is_sensitive_field fields =
      (all_fields fields ∙ sym (any_reading fields), sym (any_reading fields))
