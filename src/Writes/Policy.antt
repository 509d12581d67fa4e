-- ===== src/Writes/Policy.antt =====
-- `_enforce_write` of src/helix_mcp/services/writes/service.py: what the policy of a target lets
-- be written. `str.casefold` is an argument: the model does not fix the Unicode tables.
pub mod Sound
use helix_mcp_gateway.Prelude.{
  ℕ, Bool, true, false, not, ◌&&◌, ◌||◌, Option, none, some, List, [], ◌∷◌, String, any_of, all_of,
  map, is_some, if◌then◌else◌,
}
use helix_mcp_gateway.Prelude.Equality.{◌==◌, string_eq}
use helix_mcp_gateway.Prelude.Dict.{Dict, lookup, insert}
use helix_mcp_gateway.Prelude.Action.{Result, ok, err}
use helix_mcp_gateway.Errors.{
  Exn, from_write, form_write_disabled, form_write_form_not_allowed, form_write_reason_required,
  form_write_field_not_allowed,
}
use helix_mcp_gateway.Config.{TargetPolicyConfig, is_read_write}
use helix_mcp_gateway.Text.{is_blank, contains}
use helix_mcp_gateway.Writes.Models.{Values, JsonScalar, WriteOperation, create, update}

abbrev pub is_member : String → List String → Bool
is_member s = any_of (λ item. item == s)

-- `mapping.get(form, ())`
abbrev pub fields_for : Dict String (List String) → String → List String
fields_for mapping form = elim (lookup form mapping) [ none ↦ [] | some fields ↦ fields ]

abbrev pub writable_fields : TargetPolicyConfig → WriteOperation → Dict String (List String)
writable_fields policy create = policy.creatable_fields_by_form
writable_fields policy update = policy.updatable_fields_by_form

abbrev pub all_fields_writable : TargetPolicyConfig → WriteOperation → Bool
all_fields_writable policy create = policy.allow_all_creatable_fields
all_fields_writable policy update = policy.allow_all_updatable_fields

abbrev pub all_fields_writable_forms : TargetPolicyConfig → WriteOperation → List String
all_fields_writable_forms policy create = policy.allow_all_creatable_fields_for_forms
all_fields_writable_forms policy update = policy.allow_all_updatable_fields_for_forms

-- Whether the form is in the scope of the policy and writable.
abbrev pub form_is_allowed : TargetPolicyConfig → String → Bool
form_is_allowed policy form =
    (policy.allow_all_forms || is_member form policy.allowed_forms)
    && (policy.allow_all_writable_forms || is_member form policy.writable_forms)

module _ (casefold : String → String) where
  -- A folded field name that is a sensitive field, or contains a sensitive marker.
  unfoldable pub folded_is_sensitive : TargetPolicyConfig → String → Bool
  folded_is_sensitive policy folded =
      any_of (λ s. casefold s == folded) policy.sensitive_fields
      || any_of (λ marker. contains (casefold marker) folded) policy.sensitive_field_markers

  abbrev pub is_sensitive : TargetPolicyConfig → String → Bool
  is_sensitive policy field = folded_is_sensitive policy (casefold field)

  -- `{field.casefold(): field for field in fields}`
  unfoldable pub index_fields : List String → Dict String String → Dict String String
  index_fields [] d = d
  index_fields (field ∷ fields) d = index_fields fields (insert (casefold field) field d)

  -- `{allowed[field.casefold()]: value for field, value in values.items()}`, and whether the
  -- requested fields are a subset of the allowed.
  unfoldable pub rename_fields : Dict String String → Values → Values → Option Values
  rename_fields allowed [] out = some out
  rename_fields allowed ((field, value) ∷ values) out = elim (lookup (casefold field) allowed) [
    | none ↦ none
    | some name ↦ rename_fields allowed values (insert name value out)
  ]

  unfoldable pub restrict_fields :
      TargetPolicyConfig → WriteOperation → String → Values → Result Exn Values
  unfolding index_fields rename_fields
  restrict_fields policy operation form values =
      if all_fields_writable policy operation
        || is_member form (all_fields_writable_forms policy operation)
      then ok values
      else elim (rename_fields
          (index_fields (fields_for (writable_fields policy operation) form) []) values []) [
            | none ↦ err (from_write form_write_field_not_allowed)
            | some renamed ↦ ok renamed
          ]

  unfoldable pub enforce_write :
      TargetPolicyConfig → WriteOperation → String → Values → String → Result Exn Values
  enforce_write policy operation form values reason =
      if not (is_read_write policy.access_mode)
      then err (from_write form_write_disabled)
      else if not (form_is_allowed policy form)
      then err (from_write form_write_form_not_allowed)
      else if policy.require_write_reason && is_blank reason
      then err (from_write form_write_reason_required)
      else if any_of (λ (entry : String × JsonScalar). is_sensitive policy entry.0) values
      then err (from_write form_write_field_not_allowed)
      else restrict_fields policy operation form values
