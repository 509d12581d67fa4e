-- ===== src/Targeting/Listing/Ordered.antt =====
-- The order and the completeness of the list that src/helix_mcp/targeting/registry.py makes.
use helix_mcp_gateway.Prelude.{
  ℕ, ◌+◌, ◌≤◌, ◌≡◌, refl, ap, subst, ◌∙◌, inl, inr, Bool, ◌&&◌, List, [], ◌∷◌, map, keep_if,
  count_if, one_if, All, leb, leb→le, leb→lt, arith, Bool-cases, Option-cases,
}
use helix_mcp_gateway.Prelude.Equality.{◌==◌, string_eq}
use helix_mcp_gateway.Prelude.Dict.{lookup}
use helix_mcp_gateway.Prelude.Action.{ok, Result-cases}
use helix_mcp_gateway.Config.{Environment, environment_eq}
use helix_mcp_gateway.Targeting.{
  TargetConfig, TargetRegistry, TargetDescriptor, availability_for, describe_target,
}
use helix_mcp_gateway.Targeting.Listing.{
  environment_order, place, sort_targets, is_listed_target, registered, describe_each,
  list_descriptors,
}

-- No environment comes before an earlier one.
abbrev pub IsOrdered : List Environment → Type 0
IsOrdered [] = Unit
IsOrdered (e ∷ es) = All (λ later. environment_order e ≤ environment_order later) es × IsOrdered es

abbrev environments : List TargetConfig → List Environment
environments targets = map (λ target. target.environment) targets

abbrev AllAfter : ℕ → List TargetConfig → Type 0
AllAfter n targets = All (λ later. n ≤ environment_order later) (environments targets)

after_later :
    (m n : ℕ) (targets : List TargetConfig) → m ≤ n → AllAfter n targets → AllAfter m targets
after_later m n [] h a = tt
after_later m n (target ∷ targets) h a = (omega (arith, h, a.0), after_later m n targets h a.1)

placed_after :
    (n : ℕ) (target : TargetConfig) (targets : List TargetConfig)
    → n ≤ environment_order target.environment
    → AllAfter n targets
    → AllAfter n (place target targets)
unfolding place
placed_after n target [] h a = (h, tt)
placed_after n target (other ∷ others) h a =
    elim (Bool-cases
      (leb (environment_order target.environment) (environment_order other.environment))) [
        | inl e ↦ rw e (h, a)
        | inr e ↦ rw e (a.0, placed_after n target others h a.1)
      ]

place-IsOrdered :
    (target : TargetConfig) (targets : List TargetConfig)
    → IsOrdered (environments targets)
    → IsOrdered (environments (place target targets))
unfolding place
place-IsOrdered target [] o = (tt, tt)
place-IsOrdered target (other ∷ others) o =
    elim (Bool-cases
      (leb (environment_order target.environment) (environment_order other.environment))) [
        | inl e ↦
            let first =
              leb→le (environment_order target.environment) (environment_order other.environment)
                e in
            rw e ((first, after_later _ _ others first o.0), o)
        | inr e ↦
            let later =
              leb→lt (environment_order target.environment) (environment_order other.environment)
                e in
            rw e (
              placed_after (environment_order other.environment) target others
                  (omega (arith, later)) o.0,
              place-IsOrdered target others o.1,
            )
      ]

sort-IsOrdered : (targets : List TargetConfig) → IsOrdered (environments (sort_targets targets))
unfolding sort_targets
sort-IsOrdered [] = tt
sort-IsOrdered (target ∷ targets) =
    place-IsOrdered target (sort_targets targets) (sort-IsOrdered targets)

module _ (e : Environment) where
  abbrev is_of : TargetConfig → Bool
  is_of target = target.environment == e

  count-place :
      (target : TargetConfig) (targets : List TargetConfig)
      → count_if is_of (place target targets) ≡ one_if (is_of target) + count_if is_of targets
  unfolding place
  count-place target [] = refl
  count-place target (other ∷ others) =
      elim (Bool-cases
        (leb (environment_order target.environment) (environment_order other.environment))) [
          | inl h ↦ rw h refl
          | inr h ↦ rw h (omega (arith, count-place target others))
        ]

  count-sort :
      (targets : List TargetConfig) → count_if is_of (sort_targets targets) ≡ count_if is_of targets
  unfolding sort_targets
  count-sort [] = refl
  count-sort (target ∷ targets) =
      count-place target (sort_targets targets)
      ∙ ap (λ n. one_if (is_of target) + n) (count-sort targets)

  count-keep :
      (test : TargetConfig → Bool) (targets : List TargetConfig)
      → count_if is_of (keep_if test targets)
        ≡ count_if (λ target. test target && is_of target) targets
  count-keep test [] = refl
  count-keep test (target ∷ targets) = elim (Bool-cases (test target)) [
    | inl h ↦ rw h (ap (λ n. one_if (is_of target) + n) (count-keep test targets))
    | inr h ↦ rw h (omega (arith, count-keep test targets))
  ]

  count-environments :
      (targets : List TargetConfig)
      → count_if (λ environment. environment == e) (environments targets) ≡ count_if is_of targets
  count-environments [] = refl
  count-environments (target ∷ targets) =
      ap (λ n. one_if (is_of target) + n) (count-environments targets)

describe_each-environments :
    (registry : TargetRegistry) (targets : List TargetConfig) (descriptors : List TargetDescriptor)
    → describe_each registry targets ≡ ok descriptors
    → map (λ d. d.environment) descriptors ≡ environments targets
unfolding describe_each describe_target
describe_each-environments registry [] [] h = refl
describe_each-environments registry [] (d ∷ ds) h = absurd (cc h)
describe_each-environments registry (target ∷ targets) ds h =
    elim (Option-cases (lookup target.policy_ref registry.policies)) [
      | inl e ↦ absurd (ground (arith, h, e))
      | inr (policy, e) ↦ elim (Result-cases (describe_each registry targets)) [
        | inl (x, f) ↦ absurd (ground (arith, h, e, f))
        | inr (others, f) ↦
            let same : describe_target target policy (availability_for registry target) ∷ others
                ≡ ds =
              ground (arith, h, e, f) in
            subst (λ all. map (λ d. d.environment) all ≡ environments (target ∷ targets)) same
              (ap (λ es. target.environment ∷ es)
                (describe_each-environments registry targets others f))
      ]
    ]

-- Whenever `list_descriptors` returns, the descriptors stand in the order dev, qa,
-- prod, and for each environment there are as many as the registry has targets of it, counting
-- those that are available only, unless the disabled are asked for too.
pub list_descriptors-IsOrdered :
    (registry : TargetRegistry) (include_disabled : Bool) (descriptors : List TargetDescriptor)
    (e : Environment)
    → list_descriptors registry include_disabled ≡ ok descriptors
    → IsOrdered (map (λ d. d.environment) descriptors)
      × (count_if (λ environment. environment == e) (map (λ d. d.environment) descriptors)
          ≡ count_if
              (λ (target : TargetConfig).
                is_listed_target registry include_disabled target && target.environment == e)
              (registered registry))
unfolding list_descriptors
list_descriptors-IsOrdered registry include_disabled descriptors e h =
    let listed = keep_if (is_listed_target registry include_disabled) (registered registry) in
    let same = describe_each-environments registry (sort_targets listed) descriptors h in
    (
      rw same (sort-IsOrdered listed),
      ap (count_if (λ environment. environment == e)) same
          ∙ count-environments e (sort_targets listed)
          ∙ count-sort e listed
          ∙ count-keep e (is_listed_target registry include_disabled) (registered registry),
    )
