-- ===== src/Forms/Access.antt =====
-- The checks of src/helix_mcp/services/forms/service.py on what a query reads, and its filters on
-- what the bridge returns. `str.casefold` is an argument.
pub mod Sound
pub mod Agreement
pub mod Filters
use helix_mcp_gateway.Prelude.{
  ℕ, Bool, true, false, not, ◌&&◌, Option, none, some, List, [], ◌∷◌, String, map, any_of, all_of,
  keep_if, take, drop, length, leb, if◌then◌else◌,
}
use helix_mcp_gateway.Prelude.Equality.{◌==◌, string_eq}
use helix_mcp_gateway.Prelude.Dict.{Dict, lookup}
use helix_mcp_gateway.Prelude.Action.{Result, ok, err}
use helix_mcp_gateway.Errors.{
  Exn, from_form, form_read_disabled, form_not_allowed, form_field_not_allowed,
  form_qualification_invalid, form_query_limit,
}
use helix_mcp_gateway.Config.{TargetPolicyConfig}
use helix_mcp_gateway.Text.{contains, codes, text_of}
use helix_mcp_gateway.Forms.Qualification.{referenced_fields}

pub record FormSort : Type 0 where
  pub field : String
  pub descending : Bool

pub record FormQuery : Type 0 where
  pub form : String
  pub fields : List String
  pub qualification : Option String
  pub sort : List FormSort
  pub offset : ℕ
  pub limit : ℕ
  pub include_total : Bool

-- A field of a form, as the bridge lists it and as the service returns it.
pub record FormFieldMetadata : Type 0 where
  pub id : ℕ
  pub name : String
  pub datatype : String

pub record FormFieldsQuery : Type 0 where
  pub form : String
  pub name_contains : Option String
  pub offset : ℕ
  pub limit : ℕ

pub record FormFieldsResult : Type 0 where
  pub fields : List FormFieldMetadata
  pub offset : ℕ
  pub limit : ℕ
  pub total : ℕ

abbrev pub is_one_of : List String → String → Bool
is_one_of items s = any_of (λ item. item == s) items

-- `policy.allowed_fields_by_form.get(form, ())`
abbrev pub listed_fields : TargetPolicyConfig → String → List String
listed_fields policy form = elim (lookup form policy.allowed_fields_by_form) [
  | none ↦ []
  | some fields ↦ fields
]

-- `_enforce_form_access`
unfoldable pub enforce_form_access : TargetPolicyConfig → String → Result Exn (Unit {0})
enforce_form_access policy form =
    if not policy.allow_form_reads
    then err (from_form form_read_disabled)
    else if not policy.allow_all_forms && not (is_one_of policy.allowed_forms form)
    then err (from_form form_not_allowed)
    else ok tt

module _ (casefold : String → String) where
  -- `_is_sensitive_field`
  unfoldable pub is_sensitive_field : TargetPolicyConfig → String → Bool
  is_sensitive_field policy field =
      let folded = casefold field in
      if is_one_of (map casefold policy.sensitive_fields) folded
      then true
      else any_of (λ marker. contains (casefold marker) folded) policy.sensitive_field_markers

  -- Whether the folded field is among the folded fields that are listed for the form.
  abbrev pub is_listed : TargetPolicyConfig → String → String → Bool
  is_listed policy form field =
      is_one_of (map casefold (listed_fields policy form)) (casefold field)

  -- `_enforce_field_access`
  unfoldable pub enforce_field_access :
      TargetPolicyConfig → String → List String → Result Exn (Unit {0})
  enforce_field_access policy form fields = elim (enforce_form_access policy form) [
    | err x ↦ err x
    | ok _ ↦
        if any_of (is_sensitive_field policy) fields
        then err (from_form form_field_not_allowed)
        else if policy.allow_all_fields
        then ok tt
        else if all_of (is_listed policy form) fields
        then ok tt
        else err (from_form form_field_not_allowed)
  ]

  -- The check of the fields that the qualification refers to.
  unfoldable pub enforce_qualification :
      TargetPolicyConfig → String → Option String → Result Exn (Unit {0})
  enforce_qualification policy form none = ok tt
  enforce_qualification policy form (some qualification) =
      elim (referenced_fields (codes qualification)) [
        | err x ↦ err (from_form form_qualification_invalid)
        | ok names ↦ enforce_field_access policy form (map text_of names)
      ]

  -- `_enforce_query_policy`
  unfoldable pub enforce_query_policy : TargetPolicyConfig → FormQuery → Result Exn (Unit {0})
  enforce_query_policy policy query = elim (enforce_field_access policy query.form query.fields) [
    | err x ↦ err x
    | ok _ ↦ elim (enforce_field_access policy query.form (map (λ item. item.field) query.sort)) [
      | err x ↦ err x
      | ok _ ↦ elim (enforce_qualification policy query.form query.qualification) [
        | err x ↦ err x
        | ok _ ↦ if leb query.limit policy.max_rows then ok tt else err (from_form form_query_limit)
      ]
    ]
  ]

  -- Whether a field of an entry is returned: it was asked for, and is not sensitive.
  abbrev pub is_returned : TargetPolicyConfig → List String → String → Bool
  is_returned policy fields field =
      is_one_of (map casefold fields) (casefold field) && not (is_sensitive_field policy field)

  -- `_entry_from_arapi`
  unfoldable pub entry_from_arapi :
      {V : Type 0} → TargetPolicyConfig → List String → Dict String V → Dict String V
  entry_from_arapi policy fields raw_values =
      keep_if (λ entry. is_returned policy fields entry.0) raw_values

  -- Whether `_load_field_metadata` keeps a field.
  abbrev pub is_visible : TargetPolicyConfig → String → String → Bool
  is_visible policy form name =
      not (is_sensitive_field policy name)
      && (if policy.allow_all_fields then true else is_listed policy form name)

  -- The loop of `_load_field_metadata`, over the fields that the bridge lists.
  unfoldable pub visible_fields :
      TargetPolicyConfig → String → List FormFieldMetadata → List FormFieldMetadata
  visible_fields policy form raw_fields =
      keep_if (λ (field : FormFieldMetadata). is_visible policy form field.name) raw_fields

  abbrev pub matches_filter : Option String → FormFieldMetadata → Bool
  matches_filter none field = true
  matches_filter (some name_filter) field = contains (casefold name_filter) (casefold field.name)

  -- `list_fields` after its checks: the filter by name, and the page.
  unfoldable pub page_of_fields : FormFieldsQuery → List FormFieldMetadata → FormFieldsResult
  page_of_fields query visible =
      let fields = keep_if (matches_filter query.name_contains) visible in
      record {
        fields = take query.limit (drop query.offset fields);
        offset = query.offset;
        limit = query.limit;
        total = length fields;
      }
