-- ===== src/Tests/Forms.antt =====
-- The checks and filters of the form service and the resolver of targets on concrete inputs.
use helix_mcp_gateway.Prelude.{
  ℕ, ◌≤◌, ◌≡◌, any_of, refl, ◌&&◌, not, map, All, length, true, false, none, some, List, [], ◌∷◌,
  String, if◌then◌else◌,
}
use helix_mcp_gateway.Prelude.Equality.{string_eq}
use helix_mcp_gateway.Prelude.Dict.{Dict, lookup}
use helix_mcp_gateway.Config.{dev, environment_eq, environment_beq, target_key_beq}
use helix_mcp_gateway.Text.{contains, text_of, is_blank, is_space}
use helix_mcp_gateway.Targeting.{
  TargetConfig, TargetRegistry, ResolvedTarget, text, resolve, select, availability_for,
  parse_target_key, parse_environment, parse_backend,
}
use helix_mcp_gateway.Targeting.{TargetDescriptor, describe_target, available}
use helix_mcp_gateway.Targeting.Listing.{list_descriptors, describe_each, sort_targets, place}
use helix_mcp_gateway.Targeting.Resolve.{resolve-IsResolved, IsResolved}
use helix_mcp_gateway.Forms.Qualification.{referenced_fields, scan, read_quoted_token}
use helix_mcp_gateway.Forms.Access.{
  FormQuery, FormFieldMetadata, FormFieldsQuery, enforce_form_access, is_sensitive_field, is_one_of,
  enforce_field_access, enforce_qualification, enforce_query_policy, entry_from_arapi,
  visible_fields, page_of_fields,
}
use helix_mcp_gateway.Config.Allowlists.{any_sensitive}
use helix_mcp_gateway.Writes.Policy.{folded_is_sensitive}
use helix_mcp_gateway.Forms.Access.Agreement.{any_sensitive-eq-is_sensitive_field}
use helix_mcp_gateway.Forms.Access.Sound.{
  IsReadable, IsReadableQuery, enforce_query_policy-IsReadableQuery,
}
use helix_mcp_gateway.Forms.Access.Filters.{lookup-entry_from_arapi, page_of_fields-IsReadable}
use helix_mcp_gateway.Prelude.Action.{Result, ok, err}
use helix_mcp_gateway.Errors.{Exn, other_exception}
use helix_mcp_gateway.Forms.Cache.{Cache}
use helix_mcp_gateway.Tests.Writes.{same_text, closing_policy}

abbrev status_query : FormQuery
status_query = record {
  form = "HPD:Help Desk";
  fields = "Status" ∷ [];
  qualification = some "'Status' = \"Open\"";
  sort = record { field = "Status"; descending = true } ∷ [];
  offset = 0;
  limit = 10;
  include_total = false;
}

enforce_query_policy-IsReadableQuery_example : IsReadableQuery same_text closing_policy status_query
unfolding enforce_query_policy enforce_field_access enforce_form_access is_sensitive_field
    enforce_qualification referenced_fields scan read_quoted_token text_of lookup contains
enforce_query_policy-IsReadableQuery_example =
    enforce_query_policy-IsReadableQuery same_text closing_policy status_query refl

abbrev raw_entry : Dict String ℕ
raw_entry = ("Status", 1) ∷ ("Password", 2) ∷ ("Summary", 3) ∷ []

lookup-entry_from_arapi_example :
    lookup "Password"
      (entry_from_arapi same_text closing_policy ("Status" ∷ "Password" ∷ []) raw_entry)
    ≡ (if is_one_of (map same_text ("Status" ∷ "Password" ∷ [])) "Password"
          && not (is_sensitive_field same_text closing_policy "Password")
        then lookup "Password" raw_entry
        else none)
lookup-entry_from_arapi_example =
    lookup-entry_from_arapi same_text closing_policy ("Status" ∷ "Password" ∷ []) raw_entry
      "Password"

abbrev raw_fields : List FormFieldMetadata
raw_fields =
    record { id = 7; name = "Status"; datatype = "enum" }
    ∷ record { id = 8; name = "Password"; datatype = "char" }
    ∷ []

abbrev first_page : FormFieldsQuery
first_page = record { form = "HPD:Help Desk"; name_contains = none; offset = 0; limit = 1 }

page_of_fields-IsReadable_example :
    All
      (λ (field : FormFieldMetadata).
        IsReadable same_text closing_policy "HPD:Help Desk" field.name)
      (page_of_fields same_text first_page
        (visible_fields same_text closing_policy "HPD:Help Desk" raw_fields)).fields
    × (length
          (page_of_fields same_text first_page
            (visible_fields same_text closing_policy "HPD:Help Desk" raw_fields)).fields
        ≤ 1)
page_of_fields-IsReadable_example =
    page_of_fields-IsReadable same_text closing_policy "HPD:Help Desk" first_page raw_fields

abbrev dev_config : TargetConfig
dev_config = record {
  environment = dev;
  display_name = "Dev";
  policy_ref = "writers";
  enabled = true;
}

abbrev registry : TargetRegistry
registry = record {
  targets = (record { environment = dev }, dev_config) ∷ [];
  policies = ("writers", closing_policy) ∷ [];
  credential_environments = some (dev ∷ []);
}

abbrev resolved : ResolvedTarget
resolved = record { config = dev_config; policy = closing_policy; backend = none }

resolve-IsResolved_example : IsResolved registry (text "dev") none true resolved
unfolding resolve select availability_for parse_target_key parse_environment parse_backend is_blank
    is_space lookup environment_beq target_key_beq
resolve-IsResolved_example = resolve-IsResolved registry (text "dev") none true resolved refl

abbrev names_cache : Cache String (List String)
names_cache = ("helix.dev", (50, "HPD:Help Desk" ∷ [])) ∷ []

abbrev refused : Result Exn (List String)
refused = err other_exception

any_sensitive-eq-is_sensitive_field_example :
    (any_sensitive ("Password" ∷ []) ("secret" ∷ []) ("Status" ∷ "my secret" ∷ [])
      ≡ any_of (is_sensitive_field same_text closing_policy) ("Status" ∷ "my secret" ∷ []))
    × (any_of (folded_is_sensitive same_text closing_policy) ("Status" ∷ "my secret" ∷ [])
        ≡ any_of (is_sensitive_field same_text closing_policy) ("Status" ∷ "my secret" ∷ []))
any_sensitive-eq-is_sensitive_field_example =
    any_sensitive-eq-is_sensitive_field same_text closing_policy ("Status" ∷ "my secret" ∷ [])

abbrev dev_descriptor : TargetDescriptor
dev_descriptor = describe_target dev_config closing_policy available

dev_is_listed : list_descriptors registry false ≡ ok (dev_descriptor ∷ [])
unfolding list_descriptors describe_each sort_targets place availability_for lookup environment_beq
dev_is_listed = refl
