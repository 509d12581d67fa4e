-- ===== src/Forms/Access/Sound.antt =====
-- What the checks of the form service let through.
use helix_mcp_gateway.Prelude.{
  ℕ, ◌≤◌, ◌≡◌, inl, inr, ◌⊎◌, true, false, Option, none, some, List, [], ◌∷◌, String, map, any_of,
  any_of-none, all_of, all_of-All, All, leb, leb→le, Bool-cases, arith,
}
use helix_mcp_gateway.Prelude.Equality.{string_eq}
use helix_mcp_gateway.Prelude.Action.{ok, Result-cases}
use helix_mcp_gateway.Config.{TargetPolicyConfig}
use helix_mcp_gateway.Text.{codes, text_of}
use helix_mcp_gateway.Forms.Qualification.{referenced_fields}
use helix_mcp_gateway.Forms.Access.{
  FormQuery, enforce_form_access, is_sensitive_field, is_listed, enforce_field_access,
  enforce_qualification, enforce_query_policy,
}

module _ (casefold : String → String) (policy : TargetPolicyConfig) (form : String) where
  -- The field is not sensitive, and all fields may be read or this one is listed for the form.
  pub record IsReadable (field : String) : Type 0 where
    pub not_sensitive : is_sensitive_field casefold policy field ≡ false
    pub listed : (policy.allow_all_fields ≡ true) ⊎ (is_listed casefold policy form field ≡ true)

  IsReadable-All :
      (fields : List String)
      → All (λ field. is_sensitive_field casefold policy field ≡ false) fields
      → All
          (λ field.
            (policy.allow_all_fields ≡ true) ⊎ (is_listed casefold policy form field ≡ true))
          fields
      → All IsReadable fields
  IsReadable-All [] s l = tt
  IsReadable-All (field ∷ fields) s l =
      (record { not_sensitive = s.0; listed = l.0 }, IsReadable-All fields s.1 l.1)

  any_listed :
      (fields : List String)
      → policy.allow_all_fields ≡ true
      → All
          (λ field.
            (policy.allow_all_fields ≡ true) ⊎ (is_listed casefold policy form field ≡ true))
          fields
  any_listed [] h = tt
  any_listed (field ∷ fields) h = (inl h, any_listed fields h)

  each_listed :
      (fields : List String)
      → All (λ field. is_listed casefold policy form field ≡ true) fields
      → All
          (λ field.
            (policy.allow_all_fields ≡ true) ⊎ (is_listed casefold policy form field ≡ true))
          fields
  each_listed [] h = tt
  each_listed (field ∷ fields) h = (inr h.0, each_listed fields h.1)

  enforce_field_access-IsReadable :
      (fields : List String)
      → enforce_field_access casefold policy form fields ≡ ok tt
      → (enforce_form_access policy form ≡ ok tt) × All IsReadable fields
  unfolding enforce_field_access
  enforce_field_access-IsReadable fields h =
      elim (Bool-cases (any_of (is_sensitive_field casefold policy) fields)) [
        | inl s ↦ absurd (ground (arith, s))
        | inr s ↦ elim (Bool-cases policy.allow_all_fields) [
          | inl a ↦ (
            ground (arith, s, a),
            IsReadable-All fields (any_of-none _ fields s) (any_listed fields a),
          )
          | inr a ↦ elim (Bool-cases (all_of (is_listed casefold policy form) fields)) [
            | inl l ↦ (
              ground (arith, s, a, l),
              IsReadable-All fields (any_of-none _ fields s)
                  (each_listed fields (all_of-All _ fields l)),
            )
            | inr l ↦ absurd (ground (arith, s, a, l))
          ]
        ]
      ]

-- The fields that a qualification refers to are found, and each may be read.
abbrev pub QualificationIsReadable :
    (String → String) → TargetPolicyConfig → String → Option String → Type 0
QualificationIsReadable casefold policy form none = Unit
QualificationIsReadable casefold policy form (some qualification) =
    (names : List (List ℕ)) × (referenced_fields (codes qualification) ≡ ok names)
    × All (IsReadable casefold policy form) (map text_of names)

module _ (casefold : String → String) (policy : TargetPolicyConfig) where
  pub record IsReadableQuery (query : FormQuery) : Type 0 where
    pub form_allowed : enforce_form_access policy query.form ≡ ok tt
    pub fields_readable : All (IsReadable casefold policy query.form) query.fields
    pub sort_readable :
        All (IsReadable casefold policy query.form) (map (λ item. item.field) query.sort)
    pub qualification_readable :
        QualificationIsReadable casefold policy query.form query.qualification
    pub within_limit : query.limit ≤ policy.max_rows

  qualification-IsReadable :
      (form : String) (qualification : Option String)
      → enforce_qualification casefold policy form qualification ≡ ok tt
      → QualificationIsReadable casefold policy form qualification
  unfolding enforce_qualification
  qualification-IsReadable form none h = tt
  qualification-IsReadable form (some qualification) h =
      elim (Result-cases (referenced_fields (codes qualification))) [
        | inl (x, e) ↦ absurd (ground (arith, e))
        | inr (names, e) ↦
            let checked : enforce_field_access casefold policy form (map text_of names) ≡ ok tt =
              ground (arith, e) in
            (
              names,
              e,
              (enforce_field_access-IsReadable casefold policy form (map text_of names) checked).1,
            )
      ]

  -- A query that passes `_enforce_query_policy` reads a form in scope; every field that it asks for,
  -- sorts by, or refers to in its qualification is not sensitive, and is listed for the form unless
  -- all fields are allowed; and its limit is within the policy's.
  pub enforce_query_policy-IsReadableQuery :
      (query : FormQuery)
      → enforce_query_policy casefold policy query ≡ ok tt
      → IsReadableQuery query
  unfolding enforce_query_policy
  enforce_query_policy-IsReadableQuery query h =
      let sort_fields = map (λ item. item.field) query.sort in
      elim (Result-cases (enforce_field_access casefold policy query.form query.fields)) [
        | inl (x, e) ↦ absurd (ground (arith, e))
        | inr (tt, e) ↦
            elim (Result-cases (enforce_field_access casefold policy query.form sort_fields)) [
              | inl (x, f) ↦ absurd (ground (arith, e, f))
              | inr (tt, f) ↦
                  elim (Result-cases
                    (enforce_qualification casefold policy query.form query.qualification)) [
                      | inl (x, g) ↦ absurd (ground (arith, e, f, g))
                      | inr (tt, g) ↦ elim (Bool-cases (leb query.limit policy.max_rows)) [
                        | inr l ↦ absurd (ground (arith, e, f, g, l))
                        | inl l ↦
                            let (scope, fields) =
                              enforce_field_access-IsReadable casefold policy query.form
                                query.fields e in
                            record {
                              form_allowed = scope;
                              fields_readable = fields;
                              sort_readable =
                                  (enforce_field_access-IsReadable casefold policy query.form
                                    sort_fields f).1;
                              qualification_readable =
                                  qualification-IsReadable query.form query.qualification g;
                              within_limit = leb→le query.limit policy.max_rows l;
                            }
                      ]
                    ]
            ]
      ]
