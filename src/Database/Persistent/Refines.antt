-- ===== src/Database/Persistent/Refines.antt =====
-- The methods of src/helix_mcp/services/database/persistent_plans.py against those of the store in
-- memory.
use helix_mcp_gateway.Prelude.{ℕ, ◌≡◌, refl, inl, inr, Bool, true, false, not, String}
use helix_mcp_gateway.Prelude.Equality.{◌==◌, string_eq}
use helix_mcp_gateway.Prelude.Action.{Result, err, pure}
use helix_mcp_gateway.Prelude.Simulation.{refused, raised, lapsed, returned, Refines, raise_if-Sim}
use helix_mcp_gateway.Errors.{Exn, from_database, sql_query_plan_expired}
use helix_mcp_gateway.Config.{TargetKey, target_key_eq}
use helix_mcp_gateway.Database.Plans
use helix_mcp_gateway.Database.Plans.{
  StoredSqlQueryPlan, SqlQueryPlanStatus, pending, executing, executed, cancelled, failed,
  SqlQueryPlanStore, DatabaseQuery, QueryContent, SqlQueryPlanResult, digest, public, is_pending,
  is_executing, mismatched,
}
use helix_mcp_gateway.Database.Plans.Retry.{fail-set_status}
use helix_mcp_gateway.Database.Rows.{QueryCipher}
use helix_mcp_gateway.Database.Rows.RoundTrip.{IsQueryCipher}
use helix_mcp_gateway.Database.Persistent.{
  QueryTable, TableAction, settle, execute, acquire, transition, complete, fail, get, cancel,
}
use helix_mcp_gateway.Database.Persistent.Steps.{
  refusal, expiry, HoldsPlans, Agrees, required-Agrees, required_unexpired-Agrees, save-Agrees,
  save_last-Agrees,
}

settle_raised :
    (C : QueryCipher) {A : Type 0} (t : QueryTable C) (x : Exn)
    → settle C {A = A} t (err x, t) ≡ (err x, t)
settle_raised C t (from_database sql_query_plan_expired) = refl
settle_raised C t _ = refl

module _ (C : QueryCipher) (law : IsQueryCipher C) (t : QueryTable C) (s : SqlQueryPlanStore)
    (rep : HoldsPlans C t s) where
  execute-Refines :
      {A : Type 0} (fails : Bool) (m : TableAction C A) (r' : Result Exn A × SqlQueryPlanStore)
      → Agrees C law t s rep (m t) r'
      → Refines refusal expiry (HoldsPlans C) t (execute C fails m t) r'
  unfolding execute
  execute-Refines true m r' h = inl refl
  execute-Refines false m r' h = settled (m t) r' h
    where
      settled :
          {A : Type 0} (r : Result Exn A × QueryTable C) (r' : Result Exn A × SqlQueryPlanStore)
          → Agrees C law t s rep r r'
          → Refines refusal expiry (HoldsPlans C) t (settle C t r) r'
      settled _ _ (refused t' r') = inl refl
      settled _ _ (raised x) = inr (rw (settle_raised C t x) (refl, rep))
      settled _ _ (lapsed t' s' r) = inr (refl, r)
      settled _ _ (returned a t' s' r) = inr (refl, r)

  acquired-Refines :
      (fails : Bool) (id d : String) (target : TargetKey) (now : ℕ) (nonce : String)
      → Refines refusal expiry
          (HoldsPlans C)
          t
          (acquire C fails id d target now nonce t)
          (Plans.acquire id d target now s)
  unfolding acquire Plans.acquire
  acquired-Refines fails id d target now nonce = execute-Refines fails _ _ (
      required_unexpired-Agrees C law t s rep id now _ _ (λ p row e h.
        raise_if-Sim refusal expiry (HoldsPlans C) t s (mismatched p target d) _ _ _ (λ matches.
          raise_if-Sim refusal expiry (HoldsPlans C) t s (not (is_pending p.status)) _ _ _
            (λ waiting.
              save-Agrees C law t s rep id nonce row p executing (record p { status = executing }) e
                h))))

  transition-Refines :
      (fails : Bool) (id : String) (st : SqlQueryPlanStatus) (nonce : String)
      → Refines refusal expiry
          (HoldsPlans C)
          t
          (transition C fails id st nonce t)
          (Plans.set_status id st s)
  unfolding transition Plans.set_status
  transition-Refines fails id st nonce = execute-Refines fails _ _ (
      required-Agrees C law t s rep id _ _ (λ p row e h.
        raise_if-Sim refusal expiry (HoldsPlans C) t s (not (is_executing p.status)) _ _ _
          (λ is. save_last-Agrees C law t s rep id nonce row p st e h)))

  shown-Refines :
      (fails : Bool) (id : String) (target : TargetKey) (checked_at shown_at : ℕ)
      → Refines refusal expiry
          (HoldsPlans C)
          t
          (get C fails id target checked_at shown_at t)
          (Plans.get id target checked_at shown_at s)
  unfolding get Plans.get pure
  shown-Refines fails id target checked_at shown_at = execute-Refines fails _ _ (
      required_unexpired-Agrees C law t s rep id checked_at _ _ (λ p row e h.
        raise_if-Sim refusal expiry (HoldsPlans C) t s (not (p.target == target)) _ _ _
          (λ matches. returned (public p shown_at) t s rep)))

  cancelled-Refines :
      (fails : Bool) (id : String) (target : TargetKey) (checked_at shown_at : ℕ) (nonce : String)
      → Refines refusal expiry
          (HoldsPlans C)
          t
          (cancel C fails id target checked_at shown_at nonce t)
          (Plans.cancel id target checked_at shown_at s)
  unfolding cancel Plans.cancel
  cancelled-Refines fails id target checked_at shown_at nonce = execute-Refines fails _ _ (
      required_unexpired-Agrees C law t s rep id checked_at _ _ (λ p row e h.
        raise_if-Sim refusal expiry (HoldsPlans C) t s (not (p.target == target)) _ _ _ (λ matches.
          raise_if-Sim refusal expiry (HoldsPlans C) t s (not (is_pending p.status)) _ _ _
            (λ waiting.
              save-Agrees C law t s rep id nonce row p cancelled
                (public (record p { status = cancelled }) shown_at) e h))))

  -- The methods of the persistent store of SQL plans refine those of the store in memory: from a table
  -- that holds the plans of the store in memory, each of `acquire`, `complete`, `fail`, `get` and `cancel`
  -- is refused as a failure of persistence and changes nothing, or it gives the answer or the error that
  -- the store in memory gives, and leaves what that leaves.
  pub methods-Refines :
      (fails : Bool) (id d : String) (target : TargetKey) (now shown_at : ℕ) (nonce : String)
      → Refines refusal expiry
          (HoldsPlans C)
          t
          (acquire C fails id d target now nonce t)
          (Plans.acquire id d target now s)
        × Refines refusal expiry
            (HoldsPlans C)
            t
            (complete C fails id nonce t)
            (Plans.complete id s)
        × Refines refusal expiry (HoldsPlans C) t (fail C fails id nonce t) (Plans.fail id s)
        × Refines refusal expiry
            (HoldsPlans C)
            t
            (get C fails id target now shown_at t)
            (Plans.get id target now shown_at s)
        × Refines refusal expiry
            (HoldsPlans C)
            t
            (cancel C fails id target now shown_at nonce t)
            (Plans.cancel id target now shown_at s)
  unfolding complete fail Plans.complete
  methods-Refines fails id d target now shown_at nonce = (
    acquired-Refines fails id d target now nonce,
    transition-Refines fails id executed nonce,
    rw (fail-set_status id s) (transition-Refines fails id pending nonce),
    shown-Refines fails id target now shown_at,
    cancelled-Refines fails id target now shown_at nonce,
  )
