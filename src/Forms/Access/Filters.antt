-- ===== src/Forms/Access/Filters.antt =====
-- What the filters of the form service return.
use helix_mcp_gateway.Prelude.{
  ℕ, ◌≤◌, ◌≡◌, refl, sym, ap, ◌∙◌, inl, inr, Bool, true, false, not, ◌&&◌, none, List, [], ◌∷◌,
  String, map, keep_if, All, take, drop, zero, suc, length, length-take-le, Bool-cases, arith,
  if◌then◌else◌,
}
use helix_mcp_gateway.Prelude.Equality.{◌==◌, string_eq}
use helix_mcp_gateway.Prelude.Dict.{Dict, lookup}
use helix_mcp_gateway.Config.{TargetPolicyConfig}
use helix_mcp_gateway.Forms.Access.{
  FormFieldMetadata, FormFieldsQuery, is_one_of, is_sensitive_field, is_returned, entry_from_arapi,
  is_visible, visible_fields, matches_filter, page_of_fields,
}
use helix_mcp_gateway.Forms.Access.Sound.{IsReadable}

lookup-keep_if :
    {V : Type 0} (test : String → Bool) (k : String) (d : Dict String V)
    → lookup k (keep_if (λ entry. test entry.0) d) ≡ (if test k then lookup k d else none)
unfolding lookup
lookup-keep_if test k [] = elim (Bool-cases (test k)) [ inl e ↦ rw e refl | inr e ↦ rw e refl ]
lookup-keep_if test k ((j, v) ∷ d) = elim (Bool-cases (j == k)) [
  | inl same ↦ elim (Bool-cases (test j)) [
    | inl e ↦ rw (e, same, sym (ap test ((string_eq.reflects j k).0 same)) ∙ e) refl
    | inr e ↦
        let dropped : test k ≡ false = sym (ap test ((string_eq.reflects j k).0 same)) ∙ e in
        rw (e, dropped) (lookup-keep_if test k d ∙ rw dropped)
  ]
  | inr differs ↦ elim (Bool-cases (test j)) [
    | inl e ↦ rw (e, differs) (lookup-keep_if test k d)
    | inr e ↦ rw (e, differs) (lookup-keep_if test k d)
  ]
]

-- An entry is returned with the values of exactly those fields that the query asks for and that are
-- not sensitive, each as the bridge gave it, whatever else the bridge put into the entry.
pub lookup-entry_from_arapi :
    (casefold : String → String) (policy : TargetPolicyConfig) (fields : List String) {V : Type 0}
    (raw_values : Dict String V) (field : String)
    → lookup field (entry_from_arapi casefold policy fields raw_values) ≡ (
        if is_one_of (map casefold fields) (casefold field)
          && not (is_sensitive_field casefold policy field)
        then lookup field raw_values
        else none)
unfolding entry_from_arapi
lookup-entry_from_arapi casefold policy fields raw_values field =
    lookup-keep_if (is_returned casefold policy fields) field raw_values

module _ {A : Type 0} (P : A → Type 0) where
  All-keep_if : (test : A → Bool) (xs : List A) → All P xs → All P (keep_if test xs)
  All-keep_if test [] h = tt
  All-keep_if test (x ∷ xs) h = elim (Bool-cases (test x)) [
    | inl e ↦ rw e (h.0, All-keep_if test xs h.1)
    | inr e ↦ rw e (All-keep_if test xs h.1)
  ]

  All-drop : (n : ℕ) (xs : List A) → All P xs → All P (drop n xs)
  All-drop zero xs h = h
  All-drop (suc n) [] h = tt
  All-drop (suc n) (x ∷ xs) h = All-drop n xs h.1

  All-take : (n : ℕ) (xs : List A) → All P xs → All P (take n xs)
  All-take zero xs h = tt
  All-take (suc n) [] h = tt
  All-take (suc n) (x ∷ xs) h = (h.0, All-take n xs h.1)

module _ (casefold : String → String) (policy : TargetPolicyConfig) (form : String) where
  abbrev Readable : FormFieldMetadata → Type 0
  Readable field = IsReadable casefold policy form field.name

  visible-IsReadable :
      (name : String)
      → is_visible casefold policy form name ≡ true
      → IsReadable casefold policy form name
  visible-IsReadable name h = elim (Bool-cases policy.allow_all_fields) [
    | inl a ↦ record { not_sensitive = ground (arith, h); listed = inl a }
    | inr a ↦ record { not_sensitive = ground (arith, h); listed = inr (ground (arith, h, a)) }
  ]

  kept_visible :
      (raw_fields : List FormFieldMetadata)
      → All
          (λ (field : FormFieldMetadata). IsReadable casefold policy form field.name)
          (visible_fields casefold policy form raw_fields)
  unfolding visible_fields
  kept_visible [] = tt
  kept_visible (field ∷ raw_fields) =
      elim (Bool-cases (is_visible casefold policy form field.name)) [
        | inl e ↦ rw e (visible-IsReadable field.name e, kept_visible raw_fields)
        | inr e ↦ rw e (kept_visible raw_fields)
      ]

  -- Every field on a page of `list_fields` is one that a query may read, and there are at most as
  -- many as the page's limit.
  pub page_of_fields-IsReadable :
      (query : FormFieldsQuery) (raw_fields : List FormFieldMetadata)
      → All
          (λ (field : FormFieldMetadata). IsReadable casefold policy form field.name)
          (page_of_fields casefold query (visible_fields casefold policy form raw_fields)).fields
        × (length
              (page_of_fields casefold query
                (visible_fields casefold policy form raw_fields)).fields
            ≤ query.limit)
  unfolding page_of_fields
  page_of_fields-IsReadable query raw_fields =
      let kept =
        keep_if (matches_filter casefold query.name_contains)
          (visible_fields casefold policy form raw_fields) in
      (
        All-take Readable query.limit (drop query.offset kept) (
            All-drop Readable query.offset kept (
              All-keep_if Readable (matches_filter casefold query.name_contains) _
                (kept_visible raw_fields))),
        length-take-le query.limit (drop query.offset kept),
      )
