-- ===== src/Targeting.antt =====
-- src/helix_mcp/targeting: the registry of targets and policies, the resolver that selects one
-- environment for one operation, and the public descriptors.
pub mod Resolve
pub mod Listing
use helix_mcp_gateway.Prelude.{
  Bool, true, false, not, ◌&&◌, ◌||◌, Option, none, some, List, [], ◌∷◌, String, any_of,
  if◌then◌else◌,
}
use helix_mcp_gateway.Prelude.Equality.{◌==◌, string_eq}
use helix_mcp_gateway.Prelude.Dict.{Dict, lookup, insert}
use helix_mcp_gateway.Prelude.Action.{Result, ok, err}
use helix_mcp_gateway.Errors.{
  Exn, from_target, other_exception, target_selection_required, invalid_environment,
  invalid_backend, target_not_found, target_disabled, target_credential_not_configured,
}
use helix_mcp_gateway.Config.{
  Environment, dev, qa, prod, environment_eq, TargetKey, target_key_eq, TargetPolicyConfig,
  BackendKind, arapi, is_read_write,
}
use helix_mcp_gateway.Text.{is_blank}

-- `TargetConfig`, without the settings of its backend.
pub record TargetConfig : Type 0 where
  pub environment : Environment
  pub display_name : String
  pub policy_ref : String
  pub enabled : Bool

abbrev pub key_of : TargetConfig → TargetKey
key_of target = record { environment = target.environment }

-- `HelixConfig`: the policies by their names, and the targets.
pub record HelixConfig : Type 0 where
  pub policies : List (String × TargetPolicyConfig)
  pub targets : List TargetConfig

pub data TargetAvailability : Type 0 where
  available credential_not_configured disabled : TargetAvailability

pub record TargetRegistry : Type 0 where
  pub targets : Dict TargetKey TargetConfig
  pub policies : Dict String TargetPolicyConfig
  pub credential_environments : Option (List Environment)

pub record ResolvedTarget : Type 0 where
  pub config : TargetConfig
  pub policy : TargetPolicyConfig
  pub backend : Option BackendKind

-- `{target.key: target for target in config.targets}`
unfoldable pub index_targets :
    List TargetConfig → Dict TargetKey TargetConfig → Dict TargetKey TargetConfig
index_targets [] d = d
index_targets (t ∷ ts) d = index_targets ts (insert (key_of t) t d)

-- `{policy.name: policy for policy in config.policies}`
unfoldable pub index_policies :
    List (String × TargetPolicyConfig)
    → Dict String TargetPolicyConfig
    → Dict String TargetPolicyConfig
index_policies [] d = d
index_policies ((name, p) ∷ ps) d = index_policies ps (insert name p d)

-- `TargetRegistry.__init__`
unfoldable pub make_registry : HelixConfig → Option (List Environment) → TargetRegistry
unfolding index_targets index_policies
make_registry config credentials = record {
  targets = index_targets config.targets [];
  policies = index_policies config.policies [];
  credential_environments = credentials;
}

abbrev pub has_credential : Option (List Environment) → Environment → Bool
has_credential none environment = true
has_credential (some environments) environment = any_of (λ e. e == environment) environments

unfoldable pub availability_for : TargetRegistry → TargetConfig → TargetAvailability
availability_for registry target =
    if not target.enabled
    then disabled
    else if has_credential registry.credential_environments target.environment
    then available
    else credential_not_configured

abbrev pub is_available : TargetAvailability → Bool
is_available available = true
is_available _ = false

-- The argument `environment: str | Environment | None`.
pub data EnvironmentArgument : Type 0 where
  missing : EnvironmentArgument
  text : String → EnvironmentArgument
  member : Environment → EnvironmentArgument

-- `Environment(text)`
unfoldable pub parse_environment : String → Result Exn TargetKey
parse_environment s =
    if s == "dev"
    then ok (record { environment = dev })
    else if s == "qa"
    then ok (record { environment = qa })
    else if s == "prod"
    then ok (record { environment = prod })
    else err (from_target invalid_environment)

-- `_parse_target_key`
unfoldable pub parse_target_key : EnvironmentArgument → Result Exn TargetKey
parse_target_key missing = err (from_target target_selection_required)
parse_target_key (text s) =
    if is_blank s then err (from_target target_selection_required) else parse_environment s
parse_target_key (member environment) = ok (record { environment = environment })

-- `_parse_backend`, of a text or nothing.
unfoldable pub parse_backend : Option String → Result Exn (Option BackendKind)
parse_backend none = ok none
parse_backend (some s) = if s == "arapi" then ok (some arapi) else err (from_target invalid_backend)

-- What `resolve` does with a target of the registry. Every backend is in `enabled_backends`.
unfoldable pub select :
    TargetRegistry → TargetConfig → Option String → Bool → Result Exn ResolvedTarget
select registry target backend require_enabled =
    if require_enabled && not (is_available (availability_for registry target))
    then err
        (from_target (if target.enabled then target_credential_not_configured else target_disabled))
    else elim (parse_backend backend) [
      | err x ↦ err x
      | ok selected ↦ elim (lookup target.policy_ref registry.policies) [
        | none ↦ err other_exception
        | some policy ↦ ok (record { config = target; policy = policy; backend = selected })
      ]
    ]

-- `TargetResolver.resolve`
unfoldable pub resolve :
    TargetRegistry → EnvironmentArgument → Option String → Bool → Result Exn ResolvedTarget
resolve registry environment backend require_enabled = elim (parse_target_key environment) [
  | err x ↦ err x
  | ok key ↦ elim (lookup key registry.targets) [
    | none ↦ err (from_target target_not_found)
    | some target ↦ select registry target backend require_enabled
  ]
]

pub record TargetCapabilities : Type 0 where
  pub form_read : Bool
  pub sql_read : Bool
  pub form_create : Bool
  pub form_update : Bool
  pub health_check : Bool

pub record TargetDescriptor : Type 0 where
  pub environment : Environment
  pub display_name : String
  pub enabled : Bool
  pub availability : TargetAvailability
  pub production : Bool
  pub read_only : Bool
  pub backends : List BackendKind
  pub capabilities : TargetCapabilities

abbrev pub non_empty {ℓ} : {A : Type ℓ} → List A → Bool
non_empty [] = false
non_empty (x ∷ xs) = true

abbrev capabilities_of : TargetPolicyConfig → Bool → TargetCapabilities
capabilities_of policy usable = record {
  form_read = policy.allow_form_reads && usable;
  sql_read = policy.allow_sql && usable;
  form_create =
      is_read_write policy.access_mode
      && ((policy.allow_all_creatable_fields
            || non_empty policy.allow_all_creatable_fields_for_forms)
          || non_empty policy.creatable_fields_by_form)
      && usable;
  form_update =
      is_read_write policy.access_mode
      && ((policy.allow_all_updatable_fields
            || non_empty policy.allow_all_updatable_fields_for_forms)
          || non_empty policy.updatable_fields_by_form)
      && usable;
  health_check = usable;
}

-- `describe_target` with an availability, as the registry calls it.
unfoldable pub describe_target :
    TargetConfig → TargetPolicyConfig → TargetAvailability → TargetDescriptor
describe_target target policy availability =
    let usable = is_available availability in
    let capabilities = capabilities_of policy usable in
    record {
      environment = target.environment;
      display_name = target.display_name;
      enabled = usable;
      availability = availability;
      production = target.environment == prod;
      read_only = not capabilities.form_create && not capabilities.form_update;
      backends = if usable then arapi ∷ [] else [];
      capabilities = capabilities;
    }
