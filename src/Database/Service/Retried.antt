-- ===== src/Database/Service/Retried.antt =====
-- A failed execution of a plan in src/helix_mcp/services/database/service.py may be tried again.
use helix_mcp_gateway.Prelude.{ℕ, ◌≡◌, refl, sym, ap, ◌∙◌, true, false, some, List, String, leb}
use helix_mcp_gateway.Prelude.Equality.{◌==◌, string_eq}
use helix_mcp_gateway.Prelude.Dict.{lookup}
use helix_mcp_gateway.Prelude.Action.{Result, ok, err, ◌>>=◌}
use helix_mcp_gateway.Errors.{Exn}
use helix_mcp_gateway.Config.{TargetKey, target_key_eq}
use helix_mcp_gateway.Targeting.{TargetRegistry, ResolvedTarget, EnvironmentArgument, key_of}
use helix_mcp_gateway.Database.Plans
use helix_mcp_gateway.Database.Plans.{
  DatabaseQuery, QueryContent, StoredSqlQueryPlan, SqlQueryPlanStore, pending, executing, acquire,
  required, required_unexpired, save,
}
use helix_mcp_gateway.Database.Plans.Calls.{Call}
use helix_mcp_gateway.Database.Plans.Retry.{
  acquire-AcquiredQuery, set_status_executing, fail-set_status, lookup-saved,
}
use helix_mcp_gateway.Database.Sql.{Parser}
use helix_mcp_gateway.Database.Service.{
  SqlClient, SqlQueryExecutionResult, resolve_target, State, query, settle_execution,
  execute_acquired, execute_plan,
}

acquire_pending :
    (id d : String) (t : TargetKey) (now : ℕ) (s : SqlQueryPlanStore) (p : StoredSqlQueryPlan)
    → lookup id s.plans ≡ some p
    → leb p.expires_at now ≡ false
    → (p.target == t) ≡ true
    → (p.plan_digest == d) ≡ true
    → p.status ≡ pending
    → (acquire id d t now s).0 ≡ ok (record p { status = executing })
unfolding acquire required_unexpired required save ◌>>=◌
acquire_pending id d t now s p found fresh target digest waiting =
    rw (found, fresh, target, digest, waiting) refl

module _ (parse : Parser) (casefold : String → String) (sha256_json : QueryContent → String)
    (C : SqlClient) (registry : TargetRegistry) (environment : EnvironmentArgument)
    (plan_id digest : String) (acquired_at now : ℕ) (during : List Call)
    (s : State parse casefold sha256_json C registry) where
  abbrev Shared : Type 0
  Shared = State parse casefold sha256_json C registry

  abbrev pub executed_state :
      Result Exn (SqlQueryExecutionResult parse casefold sha256_json C registry) × Shared
  executed_state =
      execute_plan parse casefold sha256_json C registry environment plan_id digest acquired_at now
        during s

  -- `execute_plan` once the plan is handed out and its query has raised.
  raised_in_query :
      (target : ResolvedTarget) (q : StoredSqlQueryPlan) (plans : SqlQueryPlanStore) (x : Exn)
      (s' : Shared)
      → resolve_target registry environment ≡ ok target
      → acquire plan_id digest (key_of target.config) acquired_at s.plans ≡ (ok q, plans)
      → query parse casefold sha256_json C registry environment q.query now during
          (record s { plans = plans })
        ≡ (err x, s')
      → executed_state
        ≡ settle_execution parse casefold sha256_json C registry plan_id digest (err x) s'
  unfolding execute_plan execute_acquired ◌>>=◌
  raised_in_query target q plans x s' resolved handed raised =
      rw (resolved, handed, raised, executed_state, execute_plan) refl

  failure_recorded :
      (x : Exn) (s' : Shared) (plans : SqlQueryPlanStore)
      → Plans.fail plan_id s'.plans ≡ (ok tt, plans)
      → settle_execution parse casefold sha256_json C registry plan_id digest (err x) s'
        ≡ (err x, record s' { plans = plans })
  unfolding settle_execution ◌>>=◌
  failure_recorded x s' plans e = rw (e, settle_execution) refl

  -- Where the query of a plan that `execute_plan` has acquired raises, and the plan is still stored as
  -- executing when it has raised, the caller gets what was raised, and the plan can be acquired again by
  -- its identifier, digest and target, at any time before it expires.
  pub failed_execution-retried :
      (target : ResolvedTarget) (q : StoredSqlQueryPlan) (plans : SqlQueryPlanStore) (x : Exn)
      (s' : Shared) (later : ℕ)
      → resolve_target registry environment ≡ ok target
      → acquire plan_id digest (key_of target.config) acquired_at s.plans ≡ (ok q, plans)
      → query parse casefold sha256_json C registry environment q.query now during
          (record s { plans = plans })
        ≡ (err x, s')
      → lookup plan_id s'.plans.plans ≡ some q
      → leb q.expires_at later ≡ false
      → (executed_state.0 ≡ err x)
        × ((acquire plan_id digest (key_of target.config) later executed_state.1.plans).0 ≡ ok q)
  failed_execution-retried target q plans x s' later resolved handed raised held fresh =
      let a =
        acquire-AcquiredQuery plan_id digest (key_of target.config) acquired_at s.plans handed in
      let given : q.status ≡ executing = ap (λ p. p.status) a.given in
      let waiting = record q { status = pending } in
      let failed =
        fail-set_status plan_id s'.plans
        ∙ set_status_executing plan_id pending q s'.plans held given in
      let end =
        raised_in_query target q plans x s' resolved handed raised
        ∙ failure_recorded x s' _ failed in
      let of_target : (q.target == key_of target.config) ≡ true =
        (target_key_eq.reflects q.target (key_of target.config)).1
          (ap (λ p. p.target) a.given ∙ a.of_target) in
      let of_digest : (q.plan_digest == digest) ≡ true =
        (string_eq.reflects q.plan_digest digest).1
          (ap (λ p. p.plan_digest) a.given ∙ a.of_digest) in
      (
        rw end refl,
        rw end (
            acquire_pending plan_id digest (key_of target.config) later _ waiting
              (lookup-saved plan_id waiting s'.plans _ refl) fresh of_target of_digest refl
            ∙ ap (λ st. ok (record q { status = st })) (sym given)),
      )
