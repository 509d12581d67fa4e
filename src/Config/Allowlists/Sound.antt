-- ===== src/Config/Allowlists/Sound.antt =====
-- What a policy that passed `validate_allowlists` satisfies.
use mathlib.Core.Option.{some-injective}
use helix_mcp_gateway.Prelude.{
  ◌≡◌, refl, sym, ◌∙◌, subst, inl, inr, ◌⊎◌, Bool, true, false, not, ◌&&◌, ◌||◌, none, some, List,
  [], ◌∷◌, ◌++◌, String, any_of, any_of-map, map, All, arith, Bool-cases, if◌then◌else◌,
}
use helix_mcp_gateway.Prelude.Equality.{◌==◌, string_eq}
use helix_mcp_gateway.Prelude.Dict.{Dict, lookup}
use helix_mcp_gateway.Config.{TargetPolicyConfig, is_read_write}
use helix_mcp_gateway.Text.{contains}
use helix_mcp_gateway.Writes.Policy.{folded_is_sensitive}
use helix_mcp_gateway.Config.Allowlists.{
  FieldScope, allowed_fields, creatable_fields, updatable_fields, Check, first_failing,
  any_sensitive, mapping_checks, scope_checks, write_mapping_checks, form_checks,
  validate_allowlists, all_checks, is_subset, keys_of,
}

abbrev Passed : List Check → Type 0
Passed = All (λ (check : Check). check.0 ≡ false)

first_failing-Passed : (checks : List Check) → first_failing checks ≡ none → Passed checks
unfolding first_failing
first_failing-Passed [] h = tt
first_failing-Passed ((true, error) ∷ checks) h = absurd (cc h)
first_failing-Passed ((false, error) ∷ checks) h = (refl, first_failing-Passed checks h)

Passed-append : (cs ds : List Check) → Passed (cs ++ ds) → Passed cs × Passed ds
Passed-append [] ds h = (tt, h)
Passed-append (c ∷ cs) ds h = let (l, r) = Passed-append cs ds h.1 in ((h.0, l), r)

or_false : (a b : Bool) → (a || b) ≡ false → (a ≡ false) × (b ≡ false)
or_false true b h = absurd (cc h)
or_false false b h = (refl, h)

any_of-or :
    {A : Type 0} (a b : A → Bool) (xs : List A)
    → any_of (λ x. a x || b x) xs ≡ false
    → (any_of a xs ≡ false) × (any_of b xs ≡ false)
any_of-or a b [] h = (refl, refl)
any_of-or a b (x ∷ xs) h =
    let (now, later) = or_false (a x || b x) _ h in
    let (ax, bx) = or_false (a x) (b x) now in
    let (rest_a, rest_b) = any_of-or a b xs later in (rw ax rest_a, rw bx rest_b)

-- The test on the forms that a scope of fields covers.
is_covered :
    (writes_enabled all_writable all_forms : Bool) (allowed writable covered : List String)
    → writes_enabled ≡ true
    → (writes_enabled
        && not all_writable
        && not (
            is_subset covered (if all_writable && not all_forms then allowed else writable)
            && is_subset (if all_writable && not all_forms then allowed else writable) covered))
      ≡ false
    → (all_writable ≡ true) ⊎ (is_subset writable covered ≡ true)
is_covered enabled true all_forms allowed writable covered w h = inl refl
is_covered enabled false all_forms allowed writable covered w h = inr (ground (arith, w, h))

module _ (casefold : String → String) (p : TargetPolicyConfig) where
  abbrev pub IsInsensitive : String → Type 0
  IsInsensitive field = folded_is_sensitive casefold p (casefold field) ≡ false

  not_sensitive :
      (fields : List String)
      → any_sensitive
          (map casefold p.sensitive_fields)
          (map casefold p.sensitive_field_markers)
          (map casefold fields)
        ≡ false
      → All IsInsensitive fields
  unfolding any_sensitive folded_is_sensitive
  not_sensitive [] h = tt
  not_sensitive (field ∷ fields) h =
      let (by_name, by_marker) = or_false _ _ h in
      let (name, names) = or_false _ _ by_name in
      let (marker, markers) =
        any_of-or (λ m. contains m (casefold field))
          (λ m. any_of (contains m) (map casefold fields)) (map casefold p.sensitive_field_markers)
          by_marker in
      let name' =
        sym (any_of-map (λ item. item == casefold field) casefold p.sensitive_fields) ∙ name in
      let marker' =
        sym (any_of-map (λ m. contains m (casefold field)) casefold p.sensitive_field_markers)
        ∙ marker in
      (rw (name', marker') refl, not_sensitive fields (rw (names, markers) refl))

  mapping_checks-Insensitive :
      (label : FieldScope) (form : String) (mapping : Dict String (List String))
      {fields : List String}
      → Passed (mapping_checks casefold p label mapping)
      → lookup form mapping ≡ some fields
      → All IsInsensitive fields
  unfolding mapping_checks lookup
  mapping_checks-Insensitive label form [] h e = absurd (cc e)
  mapping_checks-Insensitive label form ((other, listed) ∷ mapping) h e =
      elim (Bool-cases (other == form)) [
        | inl same ↦
            subst (All IsInsensitive) (some-injective listed _ (sym (rw same) ∙ e))
              (not_sensitive listed h.1.1.0)
        | inr differs ↦ mapping_checks-Insensitive label form mapping h.1.1.1 (sym (rw differs) ∙ e)
      ]

  -- A policy that `validate_allowlists` accepts lists no sensitive field: whatever fields it lists
  -- for a form, to be read, to be created or to be updated, none of them is one that the writing
  -- service takes for sensitive.
  pub validate_allowlists-Insensitive :
      validate_allowlists casefold p ≡ none
      → (form : String) {fields : List String}
      → (lookup form p.allowed_fields_by_form ≡ some fields)
        ⊎ ((lookup form p.creatable_fields_by_form ≡ some fields)
            ⊎ (lookup form p.updatable_fields_by_form ≡ some fields))
      → All IsInsensitive fields
  unfolding validate_allowlists
  validate_allowlists-Insensitive h form listed =
      let passed = first_failing-Passed (all_checks casefold p) h in
      let creating =
        write_mapping_checks p creatable_fields p.creatable_fields_by_form
          p.allow_all_creatable_fields p.allow_all_creatable_fields_for_forms in
      let updating =
        write_mapping_checks p updatable_fields p.updatable_fields_by_form
          p.allow_all_updatable_fields p.allow_all_updatable_fields_for_forms in
      let a = (Passed-append (scope_checks p) _ passed).1 in
      let b = (Passed-append creating _ a).1 in
      let c = (Passed-append updating _ b).1 in
      let d = (Passed-append (form_checks p) _ c).1 in
      let (reads, e) =
        Passed-append (mapping_checks casefold p allowed_fields p.allowed_fields_by_form) _ d.1 in
      let (creates, updates) =
        Passed-append (mapping_checks casefold p creatable_fields p.creatable_fields_by_form) _ e in
      elim listed [
        | inl l ↦ mapping_checks-Insensitive allowed_fields form p.allowed_fields_by_form reads l
        | inr (inl l) ↦
            mapping_checks-Insensitive creatable_fields form p.creatable_fields_by_form creates l
        | inr (inr l) ↦
            mapping_checks-Insensitive updatable_fields form p.updatable_fields_by_form updates l
      ]

  abbrev creating_checks : List Check
  creating_checks =
      write_mapping_checks p creatable_fields p.creatable_fields_by_form
        p.allow_all_creatable_fields p.allow_all_creatable_fields_for_forms

  validate_allowlists-Passed :
      validate_allowlists casefold p ≡ none → Passed (scope_checks p) × Passed creating_checks
  unfolding validate_allowlists
  validate_allowlists-Passed h =
      let passed = first_failing-Passed (all_checks casefold p) h in
      let (scope, rest) = Passed-append (scope_checks p) _ passed in
      (scope, (Passed-append creating_checks _ rest).0)

  -- A policy that `validate_allowlists` accepts and that lets forms be written requires a human's
  -- approval and a reason; and it lets all forms of its scope be written, or else each writable
  -- form has its own list of creatable fields or stands among the forms where all are creatable.
  pub validate_allowlists-Governed :
      validate_allowlists casefold p ≡ none
      → is_read_write p.access_mode ≡ true
      → (p.require_human_approval ≡ true)
        × (p.require_write_reason ≡ true)
        × ((p.allow_all_writable_forms ≡ true)
            ⊎ (is_subset p.writable_forms
                  (keys_of p.creatable_fields_by_form ++ p.allow_all_creatable_fields_for_forms)
                ≡ true))
  unfolding scope_checks write_mapping_checks
  validate_allowlists-Governed h w =
      let (scope, creating) = validate_allowlists-Passed h in
      let approval = scope.1.1.1.1.1.1.0 in
      let reason = scope.1.1.1.1.1.1.1.0 in
      let covers = creating.1.1.1.1.1.1.1.0 in
      (
        ground (arith, approval, w),
        ground (arith, reason, w),
        is_covered (is_read_write p.access_mode) p.allow_all_writable_forms p.allow_all_forms
            p.allowed_forms p.writable_forms _ w covers,
      )
