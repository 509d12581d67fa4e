-- ===== src/Database/Service/Guarded.antt =====
-- What the service of src/helix_mcp/services/database/service.py has checked when it calls the bridge.
use helix_mcp_gateway.Prelude.{
  ℕ, ◌≤◌, ◌≡◌, refl, sym, ap, subst, ◌∙◌, inl, inr, ◌⊎◌, true, List, String, length, ltb, arith,
  Bool-cases, Option-cases,
}
use helix_mcp_gateway.Prelude.Action.{Result, ok, err, or_raise, ◌>>=◌, Result-cases}
use helix_mcp_gateway.Errors.{Exn}
use helix_mcp_gateway.Config.{TargetPolicyConfig}
use helix_mcp_gateway.Targeting.{TargetRegistry, ResolvedTarget, EnvironmentArgument, key_of}
use helix_mcp_gateway.Database.Plans
use helix_mcp_gateway.Database.Plans.{
  DatabaseQuery, SqlQueryPlanStore, QueryContent, StoredSqlQueryPlan, acquire,
}
use helix_mcp_gateway.Database.Plans.Calls.{Call}
use helix_mcp_gateway.Database.Sql.{Parser}
use helix_mcp_gateway.Database.Sql.ReadOnly.{IsReadOnlyQuery, validate_read_query-IsReadOnlyQuery}
use helix_mcp_gateway.Database.Service.{
  SqlClient, check_rate, resolve_target, validate_query, validate, State, call_client, query_result,
  query, settle_execution, execute_acquired, execute_plan, DatabaseQueryResult,
}

module _ (parse : Parser) (casefold : String → String) where
  -- A query that the policy of a target lets through, with its columns.
  pub record IsAllowedQuery (policy : TargetPolicyConfig) (request : DatabaseQuery)
      (columns : List String) : Type 0 where
    pub sql_allowed : policy.allow_sql ≡ true
    pub within_rows : request.limit ≤ policy.max_rows
    pub read_only :
        IsReadOnlyQuery casefold parse request.sql policy.allow_all_sql_objects
          policy.allowed_sql_objects columns

  pub validate_query-IsAllowedQuery :
      (policy : TargetPolicyConfig) (request : DatabaseQuery) (columns : List String)
      → validate_query parse casefold policy request ≡ ok columns
      → IsAllowedQuery policy request columns
  unfolding validate_query
  validate_query-IsAllowedQuery policy request columns h = elim (Bool-cases policy.allow_sql) [
    | inr off ↦ absurd (ground (arith, h, off))
    | inl on ↦ elim (Bool-cases (ltb policy.max_rows request.limit)) [
      | inl many ↦ absurd (ground (arith, h, on, many))
      | inr few ↦ record {
        sql_allowed = on;
        within_rows = ground (arith, few);
        read_only =
            validate_read_query-IsReadOnlyQuery casefold parse request.sql
              policy.allow_all_sql_objects policy.allowed_sql_objects columns
              (ground (arith, h, on, few));
      }
    ]
  ]

  pub validate_passed :
      (registry : TargetRegistry) (environment : EnvironmentArgument) (request : DatabaseQuery)
      (target : ResolvedTarget) (columns : List String)
      → validate parse casefold registry environment request ≡ ok (target, columns)
      → (resolve_target registry environment ≡ ok target)
        × IsAllowedQuery target.policy request columns
  unfolding validate
  validate_passed registry environment request target columns h =
      elim (Result-cases (resolve_target registry environment)) [
        | inl (x, e) ↦ absurd (ground (arith, h, e))
        | inr (target', e) ↦
            elim (Result-cases (validate_query parse casefold target'.policy request)) [
              | inl (x, v) ↦ absurd (ground (arith, h, e, v))
              | inr (columns', v) ↦
                  let same : (target' ≡ target) × (columns' ≡ columns) = ground (arith, h, e, v) in
                  (
                    e ∙ ap (λ t. ok t) same.0,
                    rw (← same.1) (
                        subst (λ t. IsAllowedQuery t.policy request columns') same.0
                          (validate_query-IsAllowedQuery target'.policy request columns' v)),
                  )
            ]
      ]

module _ (parse : Parser) (casefold : String → String) (sha256_json : QueryContent → String)
    (C : SqlClient) (registry : TargetRegistry) (environment : EnvironmentArgument) (now : ℕ)
    (during : List Call) where
  abbrev pub Shared : Type 0
  Shared = State parse casefold sha256_json C registry

  -- How the bridge was called for a query: for a target and columns that the policy lets through, inside
  -- the limit of reads, with the text and limit of the query, the number of its columns and the timeout
  -- of the policy.
  pub record IsGuardedCall (request : DatabaseQuery) (s : Shared) (w : C.World) : Type 0 where
    pub target : ResolvedTarget
    pub columns : List String
    pub resolved : resolve_target registry environment ≡ ok target
    pub allowed : IsAllowedQuery parse casefold target.policy request columns
    pub within_rate :
        (check_rate (key_of target.config) target.policy.rate_limit_per_minute now s.counter).0
        ≡ ok tt
    pub called :
        w
        ≡ (C.query_sql request.sql
            (length columns)
            request.limit
            target.policy.query_timeout_seconds
            s.world).1

  abbrev asked :
      DatabaseQuery
      → Shared
      → Result Exn (DatabaseQueryResult parse casefold sha256_json C registry) × Shared
  asked request s = query parse casefold sha256_json C registry environment request now during s

  refused-world :
      (request : DatabaseQuery) (s : Shared) (x : Exn)
      → validate parse casefold registry environment request ≡ err x
      → (asked request s).1.world ≡ s.world
  unfolding query ◌>>=◌
  refused-world request s x e = rw (e, query) refl

  limited-world :
      (request : DatabaseQuery) (s : Shared) (target : ResolvedTarget) (columns : List String)
      (x : Exn)
      → validate parse casefold registry environment request ≡ ok (target, columns)
      → (check_rate (key_of target.config) target.policy.rate_limit_per_minute now s.counter).0
        ≡ err x
      → (asked request s).1.world ≡ s.world
  unfolding query ◌>>=◌
  limited-world request s target columns x e f = rw (e, f, query) refl

  called-world :
      (request : DatabaseQuery) (s : Shared) (target : ResolvedTarget) (columns : List String)
      → validate parse casefold registry environment request ≡ ok (target, columns)
      → (check_rate (key_of target.config) target.policy.rate_limit_per_minute now s.counter).0
        ≡ ok tt
      → (asked request s).1.world
        ≡ (C.query_sql request.sql
            (length columns)
            request.limit
            target.policy.query_timeout_seconds
            s.world).1
  unfolding query call_client or_raise ◌>>=◌
  called-world request s target columns e f =
      elim (Result-cases
        (C.query_sql request.sql (length columns) request.limit target.policy.query_timeout_seconds
          s.world).0) [
            | inl (x, g) ↦ rw (e, f, g, query) refl
            | inr (answer, g) ↦
                elim (Option-cases (
                  query_result parse casefold sha256_json C registry target columns request
                    answer)) [
                      | inl o ↦ rw (e, f, g, o, query) refl
                      | inr (result, o) ↦ rw (e, f, g, o, query) refl
                    ]
          ]

  asked-IsGuardedCall :
      (request : DatabaseQuery) (s : Shared)
      → ((asked request s).1.world ≡ s.world) ⊎ IsGuardedCall request s (asked request s).1.world
  asked-IsGuardedCall request s =
      elim (Result-cases (validate parse casefold registry environment request)) [
        | inl (x, e) ↦ inl (refused-world request s x e)
        | inr ((target, columns), e) ↦
            elim (Result-cases
              (check_rate (key_of target.config) target.policy.rate_limit_per_minute now
                s.counter).0) [
                  | inl (x, f) ↦ inl (limited-world request s target columns x e f)
                  | inr (_, f) ↦
                      let (resolved, allowed) =
                        validate_passed parse casefold registry environment request target columns
                          e in
                      inr (record {
                        target = target;
                        columns = columns;
                        resolved = resolved;
                        allowed = allowed;
                        within_rate = f;
                        called = called-world request s target columns e f;
                      })
                ]
      ]

  -- A call of `query` leaves the world behind the bridge alone, or SQL is allowed, the query is within
  -- the limits of rows and of reads of the target's policy, it is a reading query with the columns of
  -- the call, and the bridge was called once, with its text, the number of its columns, its limit and
  -- the timeout of the policy.
  pub query-IsGuardedCall :
      (request : DatabaseQuery) (s : Shared)
      → ((query parse casefold sha256_json C registry environment request now during s).1.world
          ≡ s.world)
        ⊎ IsGuardedCall request s
            (query parse casefold sha256_json C registry environment request now during s).1.world
  query-IsGuardedCall request s = asked-IsGuardedCall request s

  settle-world :
      (plan_id digest : String)
      (r : Result Exn (DatabaseQueryResult parse casefold sha256_json C registry)) (s : Shared)
      → (settle_execution parse casefold sha256_json C registry plan_id digest r s).1.world
        ≡ s.world
  unfolding settle_execution ◌>>=◌
  settle-world plan_id digest (err x) s = elim (Result-cases (Plans.fail plan_id s.plans).0) [
    | inl (x, e) ↦ rw (e, settle_execution) refl
    | inr (done, e) ↦ rw (e, settle_execution) refl
  ]
  settle-world plan_id digest (ok result) s =
      elim (Result-cases (Plans.complete plan_id s.plans).0) [
        | inl (x, e) ↦ rw (e, settle_execution) refl
        | inr (done, e) ↦ rw (e, settle_execution) refl
      ]

  -- The bridge was called for the query of a plan that was handed out by its identifier and digest.
  pub record IsPlannedCall (plan_id digest : String) (acquired_at : ℕ) (s : Shared) (w : C.World)
      : Type 0 where
    pub target : ResolvedTarget
    pub acquired : StoredSqlQueryPlan
    pub plans : SqlQueryPlanStore
    pub handed_out :
        acquire plan_id digest (key_of target.config) acquired_at s.plans ≡ (ok acquired, plans)
    pub guarded : IsGuardedCall acquired.query (record s { plans = plans }) w

  execute_acquired-world :
      (plan_id digest : String) (acquired : StoredSqlQueryPlan) (s : Shared)
      → (execute_acquired parse casefold sha256_json C registry environment plan_id digest now
          during acquired s).1.world
        ≡ (asked acquired.query s).1.world
  unfolding execute_acquired
  execute_acquired-world plan_id digest acquired s =
      settle-world plan_id digest (asked acquired.query s).0 (asked acquired.query s).1

  -- The world that `execute_plan` leaves.
  abbrev pub executed_world : String → String → ℕ → Shared → C.World
  executed_world plan_id digest acquired_at s =
      (execute_plan parse casefold sha256_json C registry environment plan_id digest acquired_at now
        during s).1.world

  unresolved-world :
      (plan_id digest : String) (acquired_at : ℕ) (s : Shared) (x : Exn)
      → resolve_target registry environment ≡ err x
      → executed_world plan_id digest acquired_at s ≡ s.world
  unfolding execute_plan ◌>>=◌
  unresolved-world plan_id digest acquired_at s x e = rw (e, executed_world, execute_plan) refl

  not_acquired-world :
      (plan_id digest : String) (acquired_at : ℕ) (s : Shared) (target : ResolvedTarget) (x : Exn)
      → resolve_target registry environment ≡ ok target
      → (acquire plan_id digest (key_of target.config) acquired_at s.plans).0 ≡ err x
      → executed_world plan_id digest acquired_at s ≡ s.world
  unfolding execute_plan ◌>>=◌
  not_acquired-world plan_id digest acquired_at s target x e f =
      rw (e, f, executed_world, execute_plan) refl

  acquired-world :
      (plan_id digest : String) (acquired_at : ℕ) (s : Shared) (target : ResolvedTarget)
      (q : StoredSqlQueryPlan)
      → resolve_target registry environment ≡ ok target
      → (acquire plan_id digest (key_of target.config) acquired_at s.plans).0 ≡ ok q
      → executed_world plan_id digest acquired_at s
        ≡ (asked q.query (record s {
          plans = (acquire plan_id digest (key_of target.config) acquired_at s.plans).1;
        })).1.world
  unfolding execute_plan ◌>>=◌
  acquired-world plan_id digest acquired_at s target q e f =
      rw (e, f, executed_world, execute_plan)
        (execute_acquired-world plan_id digest q (record s {
          plans = (acquire plan_id digest (key_of target.config) acquired_at s.plans).1;
        }))

  -- A call of `execute_plan` leaves the world behind the bridge alone, or the plan was handed out by its
  -- identifier, digest and target, and the bridge was called once, with the query that was reviewed, after
  -- all checks of a query had let it through again.
  pub execute_plan-IsPlannedCall :
      (plan_id digest : String) (acquired_at : ℕ) (s : Shared)
      → (executed_world plan_id digest acquired_at s ≡ s.world)
        ⊎ IsPlannedCall plan_id digest acquired_at s (executed_world plan_id digest acquired_at s)
  execute_plan-IsPlannedCall plan_id digest acquired_at s =
      elim (Result-cases (resolve_target registry environment)) [
        | inl (x, e) ↦ inl (unresolved-world plan_id digest acquired_at s x e)
        | inr (target, e) ↦
            let call = acquire plan_id digest (key_of target.config) acquired_at s.plans in
            elim (Result-cases call.0) [
              | inl (x, f) ↦ inl (not_acquired-world plan_id digest acquired_at s target x e f)
              | inr (q, f) ↦
                  let same = acquired-world plan_id digest acquired_at s target q e f in
                  elim (asked-IsGuardedCall q.query (record s { plans = call.1 })) [
                    | inl alone ↦ inl (same ∙ alone)
                    | inr guarded ↦ inr (record {
                      target = target;
                      acquired = q;
                      plans = call.1;
                      handed_out = ap (λ r. (r, call.1)) f;
                      guarded =
                          subst (IsGuardedCall q.query (record s { plans = call.1 })) (sym same)
                            guarded;
                    })
                  ]
            ]
      ]
