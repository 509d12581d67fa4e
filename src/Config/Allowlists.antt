-- ===== src/Config/Allowlists.antt =====
-- `TargetPolicyConfig.validate_allowlists` of src/helix_mcp/config/models.py: the tests in the order
-- of the method, each with the error that it raises. `str.casefold` is an argument.
pub mod Sound
use helix_mcp_gateway.Prelude.{
  Bool, true, false, not, ◌&&◌, ◌||◌, Option, none, some, List, [], ◌∷◌, ◌++◌, String, any_of,
  all_of, map, if◌then◌else◌,
}
use helix_mcp_gateway.Prelude.Equality.{◌==◌, string_eq}
use helix_mcp_gateway.Prelude.Distinct.{is_in, has_duplicates}
use helix_mcp_gateway.Prelude.Dict.{Dict}
use helix_mcp_gateway.Config.{TargetPolicyConfig, is_read_write}
use helix_mcp_gateway.Text.{contains}

-- The mappings from forms to fields, by their labels in the errors.
pub data FieldScope : Type 0 where
  allowed_fields creatable_fields updatable_fields : FieldScope

-- The `ValueError`s of the method.
pub data AllowlistError : Type 0 where
  sql_objects_required sql_objects_not_empty sql_not_enabled : AllowlistError
  writable_forms_required writable_forms_not_empty form_scope_required : AllowlistError
  human_approval_required write_reason_required : AllowlistError
  mapping_not_empty per_form_not_empty both_scopes_required : FieldScope → AllowlistError
  all_writable_forms_required per_form_not_unique per_form_unknown : FieldScope → AllowlistError
  form_listed_twice form_without_fields read_write_required : FieldScope → AllowlistError
  form_scope_requires_read_write writable_forms_not_allowed : AllowlistError
  allowed_forms_not_empty allowed_fields_not_empty allowed_fields_unknown_form : AllowlistError
  markers_not_unique : AllowlistError
  no_fields fields_not_unique fields_sensitive : FieldScope → String → AllowlistError

-- A test that the method makes, and what it raises when the test is true.
abbrev pub Check : Type 0
Check = Bool × AllowlistError

unfoldable pub first_failing : List Check → Option AllowlistError
first_failing [] = none
first_failing ((failed, error) ∷ checks) = if failed then some error else first_failing checks

abbrev pub has_any {ℓ} : {A : Type ℓ} → List A → Bool
has_any [] = false
has_any (x ∷ xs) = true

-- `set(items).issubset(others)`
abbrev pub is_subset : List String → List String → Bool
is_subset items others = all_of (is_in others) items

abbrev pub keys_of : {V : Type 0} → Dict String V → List String
keys_of = map (λ entry. entry.0)

unfoldable pub scope_checks : TargetPolicyConfig → List Check
scope_checks p =
    let writes_enabled = is_read_write p.access_mode in
    (
      p.allow_sql && not (p.allow_all_sql_objects || has_any p.allowed_sql_objects),
      sql_objects_required,
    )
    ∷ (p.allow_all_sql_objects && has_any p.allowed_sql_objects, sql_objects_not_empty)
    ∷ (p.allow_all_sql_objects && not p.allow_sql, sql_not_enabled)
    ∷ (
      writes_enabled && not (p.allow_all_writable_forms || has_any p.writable_forms),
      writable_forms_required,
    )
    ∷ (p.allow_all_writable_forms && has_any p.writable_forms, writable_forms_not_empty)
    ∷ (
      writes_enabled
          && p.allow_all_writable_forms
          && not (p.allow_all_forms || has_any p.allowed_forms),
      form_scope_required,
    )
    ∷ (writes_enabled && not p.require_human_approval, human_approval_required)
    ∷ (writes_enabled && not p.require_write_reason, write_reason_required)
    ∷ []

abbrev pub effective_writable_forms : TargetPolicyConfig → List String
effective_writable_forms p =
    if p.allow_all_writable_forms && not p.allow_all_forms
    then p.allowed_forms
    else p.writable_forms

-- The body of the first loop over `write_mappings`.
unfoldable pub write_mapping_checks :
    TargetPolicyConfig → FieldScope → Dict String (List String) → Bool → List String → List Check
write_mapping_checks p label mapping allow_all_fields per_form =
    let writes_enabled = is_read_write p.access_mode in
    let for_all_forms = writes_enabled && p.allow_all_writable_forms in
    let for_listed_forms = writes_enabled && not p.allow_all_writable_forms in
    let forms = effective_writable_forms p in
    let covered = keys_of mapping ++ per_form in
    (allow_all_fields && has_any mapping, mapping_not_empty label)
    ∷ (allow_all_fields && has_any per_form, per_form_not_empty label)
    ∷ (for_all_forms && not allow_all_fields, both_scopes_required label)
    ∷ (for_listed_forms && allow_all_fields, all_writable_forms_required label)
    ∷ (for_listed_forms && has_duplicates per_form, per_form_not_unique label)
    ∷ (for_listed_forms && not (is_subset per_form forms), per_form_unknown label)
    ∷ (for_listed_forms && any_of (is_in (keys_of mapping)) per_form, form_listed_twice label)
    ∷ (
      for_listed_forms && not (is_subset covered forms && is_subset forms covered),
      form_without_fields label,
    )
    ∷ (
      not writes_enabled && (has_any mapping || allow_all_fields || has_any per_form),
      read_write_required label,
    )
    ∷ []

unfoldable pub form_checks : TargetPolicyConfig → List Check
form_checks p =
    (
      not (is_read_write p.access_mode) && (has_any p.writable_forms || p.allow_all_writable_forms),
      form_scope_requires_read_write,
    )
    ∷ (
      has_any p.writable_forms
          && not p.allow_all_forms
          && not (is_subset p.writable_forms p.allowed_forms),
      writable_forms_not_allowed,
    )
    ∷ (p.allow_all_forms && has_any p.allowed_forms, allowed_forms_not_empty)
    ∷ (p.allow_all_fields && has_any p.allowed_fields_by_form, allowed_fields_not_empty)
    ∷ (
      not p.allow_all_forms && not (is_subset (keys_of p.allowed_fields_by_form) p.allowed_forms),
      allowed_fields_unknown_form,
    )
    ∷ []

-- `sensitive & set(folded_fields) or any(marker in field ...)`
unfoldable pub any_sensitive : List String → List String → List String → Bool
any_sensitive sensitive markers folded =
    any_of (is_in sensitive) folded || any_of (λ marker. any_of (contains marker) folded) markers

module _ (casefold : String → String) where
  -- The loop over a mapping from forms to fields.
  unfoldable pub mapping_checks :
      TargetPolicyConfig → FieldScope → Dict String (List String) → List Check
  unfolding any_sensitive
  mapping_checks p label [] = []
  mapping_checks p label ((form, fields) ∷ mapping) =
      let folded = map casefold fields in
      let sensitive = map casefold p.sensitive_fields in
      let markers = map casefold p.sensitive_field_markers in
      (not (has_any fields), no_fields label form)
      ∷ (has_duplicates folded, fields_not_unique label form)
      ∷ (any_sensitive sensitive markers folded, fields_sensitive label form)
      ∷ mapping_checks p label mapping

  abbrev pub all_checks : TargetPolicyConfig → List Check
  all_checks p =
      scope_checks p
      ++ (write_mapping_checks p creatable_fields p.creatable_fields_by_form
            p.allow_all_creatable_fields p.allow_all_creatable_fields_for_forms
          ++ (write_mapping_checks p updatable_fields p.updatable_fields_by_form
                p.allow_all_updatable_fields p.allow_all_updatable_fields_for_forms
              ++ (form_checks p
                  ++ ((has_duplicates (map casefold p.sensitive_field_markers), markers_not_unique)
                      ∷ (mapping_checks p allowed_fields p.allowed_fields_by_form
                          ++ (mapping_checks p creatable_fields p.creatable_fields_by_form
                              ++ mapping_checks p updatable_fields p.updatable_fields_by_form))))))

  -- What the method raises, if anything.
  unfoldable pub validate_allowlists : TargetPolicyConfig → Option AllowlistError
  unfolding first_failing
  validate_allowlists p = first_failing (all_checks p)
