-- ===== src/Database/Plans/Calls.antt =====
-- Histories of calls of the store of SQL plans, from src/helix_mcp/services/database/plans.py: the
-- lock of the store makes each call one step.
use helix_mcp_gateway.Prelude.{ℕ, List, [], ◌∷◌, String}
use helix_mcp_gateway.Config.{TargetKey}
use helix_mcp_gateway.Database.Plans.{
  DatabaseQuery, QueryContent, SqlQueryPlanStore, create, acquire, complete, fail, get, cancel,
}

-- A call with its readings of the clock; `creates` draws an identifier.
pub data Call : Type 0 where
  creates : TargetKey → DatabaseQuery → String → ℕ → ℕ → ℕ → Call
  acquires : String → String → TargetKey → ℕ → Call
  completes fails : String → Call
  gets cancels : String → TargetKey → ℕ → ℕ → Call

module _ (sha256_json : QueryContent → String) where
  unfoldable pub after_call : Call → SqlQueryPlanStore → SqlQueryPlanStore
  after_call (creates target query plan_id purged_at created_at shown_at) s =
      (create sha256_json target query plan_id purged_at created_at shown_at s).1
  after_call (acquires plan_id digest target now) s = (acquire plan_id digest target now s).1
  after_call (completes plan_id) s = (complete plan_id s).1
  after_call (fails plan_id) s = (fail plan_id s).1
  after_call (gets plan_id target checked_at shown_at) s =
      (get plan_id target checked_at shown_at s).1
  after_call (cancels plan_id target checked_at shown_at) s =
      (cancel plan_id target checked_at shown_at s).1

  unfoldable pub run : List Call → SqlQueryPlanStore → SqlQueryPlanStore
  run [] s = s
  run (call ∷ calls) s = run calls (after_call call s)
