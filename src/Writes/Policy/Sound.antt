-- ===== src/Writes/Policy/Sound.antt =====
-- What a write that the policy lets through satisfies.
use mathlib.Core.Option.{some-injective}
use helix_mcp_gateway.Prelude.{
  ◌≡◌, refl, subst, inl, inr, ◌⊎◌, Bool, true, false, ◌&&◌, ◌||◌, some, List, [], ◌∷◌, String,
  arith, any_of, All, Bool-cases, Option-cases,
}
use helix_mcp_gateway.Prelude.Equality.{string_eq}
use helix_mcp_gateway.Prelude.Dict.{Dict, lookup, insert, Entries, Entries-lookup, Entries-insert}
use helix_mcp_gateway.Prelude.Action.{ok}
use helix_mcp_gateway.Config.{TargetPolicyConfig, is_read_write}
use helix_mcp_gateway.Text.{is_blank}
use helix_mcp_gateway.Writes.Models.{Values, JsonScalar, WriteOperation}
use helix_mcp_gateway.Writes.Policy.{
  is_member, fields_for, writable_fields, all_fields_writable, all_fields_writable_forms,
  form_is_allowed, is_sensitive, index_fields, rename_fields, restrict_fields, enforce_write,
}

module _ (casefold : String → String) (policy : TargetPolicyConfig) (operation : WriteOperation)
    (form : String) where
  -- Every field of the form may be written, or this one is on the list for the form.
  abbrev pub IsPermitted : String → Type 0
  IsPermitted field =
      ((all_fields_writable policy operation
          || is_member form (all_fields_writable_forms policy operation))
        ≡ true)
      ⊎ (is_member field (fields_for (writable_fields policy operation) form) ≡ true)

  pub record IsAllowedWrite (reason : String) (values : Values) : Type 0 where
    pub writes_enabled : is_read_write policy.access_mode ≡ true
    pub form_allowed : form_is_allowed policy form ≡ true
    pub has_reason : (policy.require_write_reason && is_blank reason) ≡ false
    pub no_sensitive_field :
        Entries
          (λ (field : String) (value : JsonScalar). is_sensitive casefold policy field ≡ false)
          values
    pub permitted : Entries (λ (field : String) (value : JsonScalar). IsPermitted field) values

abbrev FoldsTo : (String → String) → List String → String → String → Type 0
FoldsTo casefold fields folded name = (casefold name ≡ folded) × (is_member name fields ≡ true)

module _ (casefold : String → String) (fields : List String) where
  -- The index of the fields of a form leads from a folded name to a listed field that folds to it.
  index_fields-FoldsTo :
      (rest : List String) (d : Dict String String)
      → All (λ field. is_member field fields ≡ true) rest
      → Entries (FoldsTo casefold fields) d
      → Entries (FoldsTo casefold fields) (index_fields casefold rest d)
  unfolding index_fields
  index_fields-FoldsTo [] d listed h = h
  index_fields-FoldsTo (field ∷ rest) d listed h =
      index_fields-FoldsTo rest _ listed.1
        (Entries-insert (FoldsTo casefold fields) (casefold field) field d (refl, listed.0) h)

  module _ (P Q : String → Type 0)
      (keeps : (name field : String)
        → casefold name ≡ casefold field
        → is_member name fields ≡ true
        → P field
        → Q name) where
    rename_fields-Entries :
        (allowed : Dict String String) (values out renamed : Values)
        → Entries (FoldsTo casefold fields) allowed
        → Entries (λ (field : String) (value : JsonScalar). P field) values
        → Entries (λ (field : String) (value : JsonScalar). Q field) out
        → rename_fields casefold allowed values out ≡ some renamed
        → Entries (λ (field : String) (value : JsonScalar). Q field) renamed
    unfolding rename_fields
    rename_fields-Entries allowed [] out renamed a v o h =
        subst (Entries (λ (field : String) (value : JsonScalar). Q field))
          (some-injective out renamed h) o
    rename_fields-Entries allowed ((field, value) ∷ values) out renamed a v o h =
        elim (Option-cases (lookup (casefold field) allowed)) [
          | inl e ↦ absurd (ground (arith, e))
          | inr (name, e) ↦
              let found = Entries-lookup (FoldsTo casefold fields) (casefold field) allowed a e in
              rename_fields-Entries allowed values (insert name value out) renamed a v.1
                (Entries-insert (λ (field : String) (value : JsonScalar). Q field) name value out
                  (keeps name field found.0 found.1 v.0) o)
                (ground (arith, e))
        ]

All-member-cons :
    (x : String) (ys zs : List String)
    → All (λ field. is_member field ys ≡ true) zs
    → All (λ field. is_member field (x ∷ ys) ≡ true) zs
All-member-cons x ys [] h = tt
All-member-cons x ys (z ∷ zs) h = (ground (arith, h.0), All-member-cons x ys zs h.1)

All-member_self : (xs : List String) → All (λ field. is_member field xs ≡ true) xs
All-member_self [] = tt
All-member_self (x ∷ xs) =
    (rw ((string_eq.reflects x x).1 refl), All-member-cons x xs xs (All-member_self xs))

none_of :
    (test : String → Bool) (values : Values)
    → any_of (λ (entry : String × JsonScalar). test entry.0) values ≡ false
    → Entries (λ (field : String) (value : JsonScalar). test field ≡ false) values
none_of test [] h = tt
none_of test ((field, value) ∷ values) h = (ground arith, none_of test values (ground arith))

Entries-all :
    (P : String → Type 0)
    → ((field : String) → P field)
    → (values : Values) → Entries (λ (field : String) (value : JsonScalar). P field) values
Entries-all P p [] = tt
Entries-all P p ((field, value) ∷ values) = (p field, Entries-all P p values)

module _ (casefold : String → String) (policy : TargetPolicyConfig) (operation : WriteOperation)
    (form : String) where
  abbrev listed : List String
  listed = fields_for (writable_fields policy operation) form

  index_listed : Entries (FoldsTo casefold listed) (index_fields casefold listed [])
  index_listed = index_fields-FoldsTo casefold listed listed [] (All-member_self listed) tt

  abbrev SafeEntries : Values → Type 0
  SafeEntries =
      Entries (λ (field : String) (value : JsonScalar). is_sensitive casefold policy field ≡ false)

  abbrev PermittedEntries : Values → Type 0
  PermittedEntries =
      Entries
        (λ (field : String) (value : JsonScalar). IsPermitted casefold policy operation form field)

  abbrev anything_goes : Bool
  anything_goes =
      all_fields_writable policy operation
      || is_member form (all_fields_writable_forms policy operation)

  restrict_fields_all :
      (values out : Values)
      → anything_goes ≡ true
      → restrict_fields casefold policy operation form values ≡ ok out
      → values ≡ out
  unfolding restrict_fields
  restrict_fields_all values out e h = ground arith

  restrict_fields-listed :
      (values out : Values)
      → anything_goes ≡ false
      → restrict_fields casefold policy operation form values ≡ ok out
      → rename_fields casefold (index_fields casefold listed []) values [] ≡ some out
  unfolding restrict_fields
  restrict_fields-listed values out e h = ground arith

  restrict_fields-Entries :
      (values out : Values)
      → SafeEntries values
      → restrict_fields casefold policy operation form values ≡ ok out
      → SafeEntries out × PermittedEntries out
  restrict_fields-Entries values out safe h = elim (Bool-cases anything_goes) [
    | inl e ↦ (
      subst SafeEntries (restrict_fields_all values out e h) safe,
      Entries-all (IsPermitted casefold policy operation form) (λ _. inl e) out,
    )
    | inr e ↦
        let renamed = restrict_fields-listed values out e h in
        (
          rename_fields-Entries casefold listed
              (λ field. is_sensitive casefold policy field ≡ false)
              (λ field. is_sensitive casefold policy field ≡ false)
              (λ name field same on_list was. rw same was) (index_fields casefold listed []) values
              [] out index_listed safe tt renamed,
          rename_fields-Entries casefold listed
              (λ field. is_sensitive casefold policy field ≡ false)
              (IsPermitted casefold policy operation form)
              (λ name field same on_list was. inr on_list) (index_fields casefold listed []) values
              [] out index_listed safe tt renamed,
        )
  ]

  -- Whatever `_enforce_write` lets through: writes are enabled, the form is in scope and writable, a
  -- reason is there if the policy wants one, no field of what will be written is sensitive, and
  -- each of these fields is on the list of the form or all fields of the form are writable.
  pub enforce_write-IsAllowedWrite :
      (values out : Values) (reason : String)
      → enforce_write casefold policy operation form values reason ≡ ok out
      → IsAllowedWrite casefold policy operation form reason out
  unfolding enforce_write
  enforce_write-IsAllowedWrite values out reason h =
      let safe = none_of (is_sensitive casefold policy) values (ground arith) in
      let (no_secret, allowed) = restrict_fields-Entries values out safe (ground arith) in
      record {
        writes_enabled = ground arith;
        form_allowed = ground arith;
        has_reason = ground arith;
        no_sensitive_field = no_secret;
        permitted = allowed;
      }
