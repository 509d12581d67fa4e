-- ===== src/Database/Metadata/Service/Guarded.antt =====
-- What `describe_object` and `list_columns` of src/helix_mcp/services/database/metadata.py have checked when
-- they ask the database.
use helix_mcp_gateway.Prelude.{
  ℕ, ◌≡◌, refl, ap, subst, ◌∙◌, ◌⊎◌, inl, inr, ◌≤◌, true, String, ltb, Bool-cases, arith,
}
use helix_mcp_gateway.Prelude.Action.{ok, Result-cases, raise_if, lift, ◌>>=◌, ◌>>◌}
use helix_mcp_gateway.Errors.{from_database, database_query_limit}
use helix_mcp_gateway.Targeting.{TargetRegistry, ResolvedTarget, EnvironmentArgument, key_of}
use helix_mcp_gateway.Database.Service.{check_rate, resolve_target}
use helix_mcp_gateway.Database.Metadata.{is_object_permitted}
use helix_mcp_gateway.Database.Metadata.Service.{
  MetadataClient, State, MetadataAction, DatabaseColumnCatalogQuery, DatabaseObjectReference,
  resolve_readable, check_limit, ensure_permitted, list_columns, describe_object,
}

resolve_readable-ok :
    (registry : TargetRegistry) (environment : EnvironmentArgument) (target : ResolvedTarget)
    → resolve_readable registry environment ≡ ok target
    → (resolve_target registry environment ≡ ok target) × (target.policy.allow_sql ≡ true)
unfolding resolve_readable
resolve_readable-ok registry environment target h =
    elim (Result-cases (resolve_target registry environment)) [
      | inl (x, e) ↦ absurd (ground (arith, e, h))
      | inr (found, e) ↦ elim (Bool-cases found.policy.allow_sql) [
        | inl f ↦
            let same : found ≡ target = ground (arith, e, f, h) in
            (e ∙ ap ok same, subst (λ t. t.policy.allow_sql ≡ true) same f)
        | inr f ↦ absurd (ground (arith, e, f, h))
      ]
    ]

module _ (casefold : String → String) (C : MetadataClient) (registry : TargetRegistry) where
  abbrev S : Type 0
  S = State casefold C registry

  -- A read of an object that the policy of its target permits, with SQL enabled, within the rate limit.
  pub record IsPermittedRead (environment : EnvironmentArgument) (schema object_name : String)
      (now : ℕ) (s : S) : Type 0 where
    pub target : ResolvedTarget
    pub resolved : resolve_target registry environment ≡ ok target
    pub enabled : target.policy.allow_sql ≡ true
    pub permitted : is_object_permitted casefold target.policy schema object_name ≡ true
    pub in_rate :
        (check_rate (key_of target.config) target.policy.rate_limit_per_minute now s.counter).0
        ≡ ok tt

  module _ {A : Type 0} (target : ResolvedTarget) (schema object_name : String) (now : ℕ) (s : S)
      (rest : MetadataAction casefold C registry A) where
    abbrev checked : MetadataAction casefold C registry A
    checked =
        ensure_permitted casefold C registry target schema object_name
        >> (check_limit casefold C registry target now >> rest)

    checks_passed :
        ((checked s).1.world ≡ s.world)
        ⊎ ((is_object_permitted casefold target.policy schema object_name ≡ true)
            × ((check_rate
                  (key_of target.config)
                  target.policy.rate_limit_per_minute
                  now
                  s.counter).0
                ≡ ok tt))
    unfolding ◌>>=◌
    checks_passed =
        elim (Bool-cases (is_object_permitted casefold target.policy schema object_name)) [
          | inr e ↦ inl (rw e refl)
          | inl e ↦
              elim (Result-cases
                (check_rate (key_of target.config) target.policy.rate_limit_per_minute now
                  s.counter).0) [ inl (x, f) ↦ inl (rw (e, f) refl) | inr (done, f) ↦ inr (e, f) ]
        ]

  -- What follows the choice of the target, where it was chosen.
  after_target :
      {A : Type 0} (f : ResolvedTarget → MetadataAction casefold C registry A)
      (environment : EnvironmentArgument) (s : S)
      → (((lift (resolve_readable registry environment) >>= f) s).1.world ≡ s.world)
        ⊎ ((target : ResolvedTarget) × (resolve_readable registry environment ≡ ok target)
            × ((lift (resolve_readable registry environment) >>= f) s ≡ f target s))
  unfolding ◌>>=◌
  after_target f environment s = elim (Result-cases (resolve_readable registry environment)) [
    | inl (x, e) ↦ inl (rw e refl)
    | inr (target, e) ↦ inr (target, e, rw e refl)
  ]

  -- `describe_object` leaves the world behind the bridge alone, or the object is one that the policy of the
  -- target permits, SQL is enabled, and the rate limit let the call pass.
  pub describe_object-IsPermittedRead :
      (environment : EnvironmentArgument) (reference : DatabaseObjectReference) (now : ℕ) (s : S)
      → ((describe_object casefold C registry environment reference now s).1.world ≡ s.world)
        ⊎ IsPermittedRead environment reference.schema_name reference.object_name now s
  unfolding describe_object
  describe_object-IsPermittedRead environment reference now s =
      elim (after_target _ environment s) [
        | inl unchanged ↦ inl unchanged
        | inr (target, e, steps) ↦
            elim (checks_passed target reference.schema_name reference.object_name now s _) [
              | inl unchanged ↦ inl (ap (λ r. r.1.world) steps ∙ unchanged)
              | inr (permitted, in_rate) ↦
                  let (resolved, enabled) = resolve_readable-ok registry environment target e in
                  inr (record {
                    target = target;
                    resolved = resolved;
                    enabled = enabled;
                    permitted = permitted;
                    in_rate = in_rate;
                  })
            ]
      ]

  limit_passed :
      {A : Type 0} (target : ResolvedTarget) (limit : ℕ) (m : MetadataAction casefold C registry A)
      (s : S)
      → ((raise_if (ltb target.policy.max_rows limit) (from_database database_query_limit) >> m)
            s).1.world
          ≡ s.world
        ⊎ ((limit ≤ target.policy.max_rows)
            × ((raise_if (ltb target.policy.max_rows limit) (from_database database_query_limit)
                    >> m)
                  s
                ≡ m s))
  unfolding ◌>>=◌
  limit_passed target limit m s = elim (Bool-cases (ltb target.policy.max_rows limit)) [
    | inl e ↦ inl (rw e refl)
    | inr e ↦ inr (ground (arith, e), rw e refl)
  ]

  -- `list_columns` leaves the world behind the bridge alone, or the object is one that the policy of the
  -- target permits, SQL is enabled, the rate limit let the call pass, and the limit is within the policy's.
  pub list_columns-IsPermittedRead :
      (environment : EnvironmentArgument) (query : DatabaseColumnCatalogQuery) (now : ℕ) (s : S)
      → ((list_columns casefold C registry environment query now s).1.world ≡ s.world)
        ⊎ ((read : IsPermittedRead environment query.schema_name query.object_name now s)
            × (query.limit ≤ read.target.policy.max_rows))
  unfolding list_columns
  list_columns-IsPermittedRead environment query now s = elim (after_target _ environment s) [
    | inl unchanged ↦ inl unchanged
    | inr (target, e, steps) ↦ elim (limit_passed target query.limit _ s) [
      | inl unchanged ↦ inl (ap (λ r. r.1.world) steps ∙ unchanged)
      | inr (within, more) ↦
          elim (checks_passed target query.schema_name query.object_name now s _) [
            | inl unchanged ↦ inl (ap (λ r. r.1.world) (steps ∙ more) ∙ unchanged)
            | inr (permitted, in_rate) ↦
                let (resolved, enabled) = resolve_readable-ok registry environment target e in
                inr (
                  record {
                    target = target;
                    resolved = resolved;
                    enabled = enabled;
                    permitted = permitted;
                    in_rate = in_rate;
                  },
                  within,
                )
          ]
    ]
  ]
