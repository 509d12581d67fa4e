-- ===== src/Targeting/Listing.antt =====
-- `TargetRegistry.list_descriptors` of src/helix_mcp/targeting/registry.py.
pub mod Ordered
use helix_mcp_gateway.Prelude.{
  ℕ, Bool, ◌||◌, Option, none, some, List, [], ◌∷◌, String, map, keep_if, leb, if◌then◌else◌,
}
use helix_mcp_gateway.Prelude.Equality.{string_eq}
use helix_mcp_gateway.Prelude.Dict.{lookup}
use helix_mcp_gateway.Prelude.Action.{Result, ok, err}
use helix_mcp_gateway.Errors.{Exn, other_exception}
use helix_mcp_gateway.Config.{Environment, dev, qa, prod}
use helix_mcp_gateway.Targeting.{
  TargetConfig, TargetRegistry, TargetDescriptor, availability_for, is_available, describe_target,
}

-- `_environment_order`
abbrev pub environment_order : Environment → ℕ
environment_order dev = 0
environment_order qa = 1
environment_order prod = 2

-- A target put before those that do not come before it.
unfoldable pub place : TargetConfig → List TargetConfig → List TargetConfig
place target [] = target ∷ []
place target (other ∷ others) =
    let rest = place target others in
    if leb (environment_order target.environment) (environment_order other.environment)
    then target ∷ other ∷ others
    else other ∷ rest

-- `sorted`, which keeps the order of targets of the same environment.
unfoldable pub sort_targets : List TargetConfig → List TargetConfig
sort_targets [] = []
sort_targets (target ∷ targets) = place target (sort_targets targets)

abbrev pub is_listed_target : TargetRegistry → Bool → TargetConfig → Bool
is_listed_target registry include_disabled target =
    include_disabled || is_available (availability_for registry target)

abbrev pub registered : TargetRegistry → List TargetConfig
registered registry = map (λ entry. entry.1) registry.targets

-- The descriptors, where `policy_for` finds each policy.
unfoldable pub describe_each :
    TargetRegistry → List TargetConfig → Result Exn (List TargetDescriptor)
describe_each registry [] = ok []
describe_each registry (target ∷ targets) = elim (lookup target.policy_ref registry.policies) [
  | none ↦ err other_exception
  | some policy ↦ elim (describe_each registry targets) [
    | err x ↦ err x
    | ok descriptors ↦
        ok (describe_target target policy (availability_for registry target) ∷ descriptors)
  ]
]

-- `list_descriptors`
unfoldable pub list_descriptors : TargetRegistry → Bool → Result Exn (List TargetDescriptor)
list_descriptors registry include_disabled =
    describe_each registry
      (sort_targets (keep_if (is_listed_target registry include_disabled) (registered registry)))
