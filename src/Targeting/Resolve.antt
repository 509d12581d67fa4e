-- ===== src/Targeting/Resolve.antt =====
-- What `TargetResolver.resolve` has checked when it returns a target.
use helix_mcp_gateway.Prelude.{
  ◌≡◌, subst, inl, inr, Bool, true, false, not, ◌&&◌, Option, none, some, String, Bool-cases,
  Option-cases, arith,
}
use helix_mcp_gateway.Prelude.Dict.{lookup}
use helix_mcp_gateway.Prelude.Equality.{◌==◌, string_eq}
use helix_mcp_gateway.Prelude.Action.{ok, Result-cases}
use helix_mcp_gateway.Text.{is_blank}
use helix_mcp_gateway.Config.{
  TargetKey, target_key_eq, Environment, dev, qa, prod, BackendKind, arapi,
}
use helix_mcp_gateway.Targeting.{
  TargetRegistry, TargetConfig, ResolvedTarget, EnvironmentArgument, missing, text, member,
  has_credential, parse_environment, availability_for, is_available, parse_target_key,
  parse_backend, select, resolve,
}

-- The name of an environment.
abbrev pub name_of : Environment → String
name_of dev = "dev"
name_of qa = "qa"
name_of prod = "prod"

-- The argument names the environment.
abbrev pub Names : EnvironmentArgument → Environment → Type 0
Names missing environment = ⊥
Names (text s) environment = (s ≡ name_of environment) × (is_blank s ≡ false)
Names (member e) environment = e ≡ environment

-- The backend that was named, if one was, is the one there is.
abbrev pub NamesBackend : Option String → Option BackendKind → Type 0
NamesBackend none selected = selected ≡ none
NamesBackend (some s) selected = (s ≡ "arapi") × (selected ≡ some arapi)

pub record IsResolved (registry : TargetRegistry) (environment : EnvironmentArgument)
    (backend : Option String) (require_enabled : Bool) (target : ResolvedTarget) : Type 0 where
  pub key : TargetKey
  pub named : Names environment key.environment
  pub registered : lookup key registry.targets ≡ some target.config
  pub enabled : require_enabled ≡ true → target.config.enabled ≡ true
  pub credential :
      require_enabled ≡ true
      → has_credential registry.credential_environments target.config.environment ≡ true
  pub backend_named : NamesBackend backend target.backend
  pub policy_found : lookup target.config.policy_ref registry.policies ≡ some target.policy

parse_environment-ok :
    (s : String) (key : TargetKey) → parse_environment s ≡ ok key → s ≡ name_of key.environment
unfolding parse_environment
parse_environment-ok s key h = elim (Bool-cases (s == "dev")) [
  | inl e ↦
      let same : record { environment = dev } ≡ key = ground (arith, h, e) in
      subst (λ k. s ≡ name_of k.environment) same ((string_eq.reflects s "dev").0 e)
  | inr e ↦ elim (Bool-cases (s == "qa")) [
    | inl f ↦
        let same : record { environment = qa } ≡ key = ground (arith, h, e, f) in
        subst (λ k. s ≡ name_of k.environment) same ((string_eq.reflects s "qa").0 f)
    | inr f ↦ elim (Bool-cases (s == "prod")) [
      | inl g ↦
          let same : record { environment = prod } ≡ key = ground (arith, h, e, f, g) in
          subst (λ k. s ≡ name_of k.environment) same ((string_eq.reflects s "prod").0 g)
      | inr g ↦ absurd (ground (arith, h, e, f, g))
    ]
  ]
]

parse_target_key-Names :
    (environment : EnvironmentArgument) (key : TargetKey)
    → parse_target_key environment ≡ ok key
    → Names environment key.environment
unfolding parse_target_key
parse_target_key-Names missing key h = absurd (cc h)
parse_target_key-Names (text s) key h = elim (Bool-cases (is_blank s)) [
  | inl e ↦ absurd (ground (arith, h, e))
  | inr e ↦ (parse_environment-ok s key (ground (arith, h, e)), e)
]
parse_target_key-Names (member e) key h = ground (arith, h)

parse_backend-NamesBackend :
    (backend : Option String) (selected : Option BackendKind)
    → parse_backend backend ≡ ok selected
    → NamesBackend backend selected
unfolding parse_backend
parse_backend-NamesBackend none selected h = ground (arith, h)
parse_backend-NamesBackend (some s) selected h = elim (Bool-cases (s == "arapi")) [
  | inl e ↦ ((string_eq.reflects s "arapi").0 e, ground (arith, h, e))
  | inr e ↦ absurd (ground (arith, h, e))
]

module _ (registry : TargetRegistry) (config : TargetConfig) (require_enabled : Bool)
    (usable : (require_enabled && not (is_available (availability_for registry config))) ≡ false)
    (required : require_enabled ≡ true) where
  usable-enabled : config.enabled ≡ true
  unfolding availability_for
  usable-enabled = ground (arith, usable, required)

  usable-has_credential : has_credential registry.credential_environments config.environment ≡ true
  unfolding availability_for
  usable-has_credential = ground (arith, usable, required)

module _ (registry : TargetRegistry) (environment : EnvironmentArgument) (backend : Option String)
    (require_enabled : Bool) where
  select-IsResolved :
      (key : TargetKey) (config : TargetConfig) (target : ResolvedTarget)
      → parse_target_key environment ≡ ok key
      → lookup key registry.targets ≡ some config
      → select registry config backend require_enabled ≡ ok target
      → IsResolved registry environment backend require_enabled target
  unfolding select
  select-IsResolved key config target p r h =
      elim (Bool-cases (require_enabled && not (is_available (availability_for registry config)))) [
        | inl u ↦ absurd (ground (arith, h, u))
        | inr u ↦ elim (Result-cases (parse_backend backend)) [
          | inl (x, b) ↦ absurd (ground (arith, h, u, b))
          | inr (selected, b) ↦ elim (Option-cases (lookup config.policy_ref registry.policies)) [
            | inl f ↦ absurd (ground (arith, h, u, b, f))
            | inr (policy, f) ↦
                let found : ResolvedTarget = record {
                  config = config;
                  policy = policy;
                  backend = selected;
                } in
                let same : found ≡ target = ground (arith, h, u, b, f) in
                subst (IsResolved registry environment backend require_enabled) same (record {
                  key = key;
                  named = parse_target_key-Names environment key p;
                  registered = r;
                  enabled = usable-enabled registry config require_enabled u;
                  credential = usable-has_credential registry config require_enabled u;
                  backend_named = parse_backend-NamesBackend backend selected b;
                  policy_found = f;
                })
          ]
        ]
      ]

  -- A target that `resolve` returns is the registry's target for the environment that was named, by its
  -- own name or as a member, with the policy that it refers to; its backend is the one that was named,
  -- which is `arapi`, or none; and if that is required it is enabled and its environment has a credential.
  pub resolve-IsResolved :
      (target : ResolvedTarget)
      → resolve registry environment backend require_enabled ≡ ok target
      → IsResolved registry environment backend require_enabled target
  unfolding resolve
  resolve-IsResolved target h = elim (Result-cases (parse_target_key environment)) [
    | inl (x, p) ↦ absurd (ground (arith, h, p))
    | inr (key, p) ↦ elim (Option-cases (lookup key registry.targets)) [
      | inl r ↦ absurd (ground (arith, h, p, r))
      | inr (config, r) ↦ select-IsResolved key config target p r (ground (arith, h, p, r))
    ]
  ]
