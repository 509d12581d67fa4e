-- ===== src/Database/Plans.antt =====
-- src/helix_mcp/services/database/plans.py: `SqlQueryPlanStore`. Each method is one step under the
-- lock of the store. The readings of the clock, `secrets.token_hex` and SHA-256 over canonical JSON
-- are arguments.
pub mod Spent
pub mod Retry
pub mod Calls
use helix_mcp_gateway.Prelude.{
  ℕ, ◌+◌, ◌-◌, ◌/◌, Bool, true, false, not, ◌||◌, Option, none, some, String, leb, if◌then◌else◌,
}
use helix_mcp_gateway.Prelude.Equality.{◌==◌, string_eq}
use helix_mcp_gateway.Prelude.Dict.{
  Dict, lookup, insert, erase, erase_all, keys_where, count_values,
}
use helix_mcp_gateway.Prelude.Action.{
  Result, ok, err, Action, pure, raise_if, or_raise, modify, gets, ◌>>=◌, ◌>>◌,
}
use helix_mcp_gateway.Errors.{
  Exn, from_database, sql_query_plan_capacity, sql_query_plan_not_found, sql_query_plan_expired,
  sql_query_plan_mismatch, sql_query_plan_state,
}
use helix_mcp_gateway.Config.{Environment, TargetKey, target_key_eq}

pub data SqlQueryPlanStatus : Type 0 where
  pending executing executed cancelled failed : SqlQueryPlanStatus

pub record DatabaseQuery : Type 0 where
  pub sql : String
  pub limit : ℕ

pub record StoredSqlQueryPlan : Type 0 where
  pub plan_id : String
  pub plan_digest : String
  pub target : TargetKey
  pub query : DatabaseQuery
  pub expires_at : ℕ
  pub status : SqlQueryPlanStatus

pub record SqlQueryPlanStore : Type 0 where
  pub ttl : ℕ
  pub max_pending : ℕ
  pub plans : Dict String StoredSqlQueryPlan

-- A plan as it is shown for approval; times are readings of the clock.
pub record SqlQueryPlanResult : Type 0 where
  pub plan_id : String
  pub plan_digest : String
  pub environment : Environment
  pub sql : String
  pub limit : ℕ
  pub status : SqlQueryPlanStatus
  pub server_time : ℕ
  pub expires_at : ℕ
  pub remaining_seconds : ℕ

-- The object that `_digest` hands to `json.dumps`.
pub record QueryContent : Type 0 where
  pub environment : Environment
  pub sql : String
  pub limit : ℕ

abbrev pub StoreAction : Type 0 → Type 0
StoreAction = Action Exn SqlQueryPlanStore

-- `_digest`
unfoldable pub digest : (QueryContent → String) → TargetKey → DatabaseQuery → String
digest sha256_json target query =
    sha256_json (record { environment = target.environment; sql = query.sql; limit = query.limit })

-- The clock counts microseconds.
abbrev second : ℕ
second = 1000000

-- `_public`
unfoldable pub public : StoredSqlQueryPlan → ℕ → SqlQueryPlanResult
public plan now = record {
  plan_id = plan.plan_id;
  plan_digest = plan.plan_digest;
  environment = plan.target.environment;
  sql = plan.query.sql;
  limit = plan.query.limit;
  status = plan.status;
  server_time = now;
  expires_at = plan.expires_at;
  remaining_seconds = (plan.expires_at - now + (second - 1)) / second;
}

abbrev pub counts_as_pending : StoredSqlQueryPlan → Bool
counts_as_pending plan = elim plan.status [ pending ↦ true | executing ↦ true | _ ↦ false ]

abbrev pub is_pending : SqlQueryPlanStatus → Bool
is_pending pending = true
is_pending _ = false

abbrev pub is_executing : SqlQueryPlanStatus → Bool
is_executing executing = true
is_executing _ = false

-- `_required` with `check_expiry=False`
unfoldable pub required : String → StoreAction StoredSqlQueryPlan
required plan_id = do
  found ← gets (λ s. lookup plan_id s.plans)
  or_raise found (from_database sql_query_plan_not_found)

abbrev pub drop_if_expired : String → ℕ → StoredSqlQueryPlan → StoreAction StoredSqlQueryPlan
drop_if_expired plan_id now plan s =
    if leb plan.expires_at now
    then (err (from_database sql_query_plan_expired), record s { plans = erase plan_id s.plans })
    else (ok plan, s)

-- `_required`
unfoldable pub required_unexpired : String → ℕ → StoreAction StoredSqlQueryPlan
required_unexpired plan_id now = required plan_id >>= drop_if_expired plan_id now

-- `_purge_expired`
unfoldable pub purge_expired : ℕ → SqlQueryPlanStore → SqlQueryPlanStore
purge_expired now s =
    let expired = keys_where (λ (plan : StoredSqlQueryPlan). leb plan.expires_at now) s.plans in
    record s { plans = erase_all expired s.plans }

-- The store after the plan object under `plan_id` was changed.
unfoldable pub save : String → StoredSqlQueryPlan → StoreAction (Unit {0})
save plan_id plan = modify (λ s. record s { plans = insert plan_id plan s.plans })

-- The clock is read three times: by the purge, for `expires_at`, and for the result.
unfoldable pub create :
    (QueryContent → String)
    → TargetKey
    → DatabaseQuery
    → String
    → ℕ
    → ℕ
    → ℕ
    → StoreAction SqlQueryPlanResult
unfolding digest
create sha256_json target query plan_id purged_at created_at shown_at = do
  modify (purge_expired purged_at)
  waiting ← gets (λ s. count_values counts_as_pending s.plans)
  max_pending ← gets (λ s. s.max_pending)
  raise_if (leb max_pending waiting) (from_database sql_query_plan_capacity)
  ttl ← gets (λ s. s.ttl)
  let plan : StoredSqlQueryPlan = record {
    plan_id = plan_id;
    plan_digest = digest sha256_json target query;
    target = target;
    query = query;
    expires_at = created_at + ttl;
    status = pending;
  }
  save plan_id plan
  pure (public plan shown_at)

abbrev pub mismatched : StoredSqlQueryPlan → TargetKey → String → Bool
mismatched plan target plan_digest =
    not (plan.target == target) || not (plan.plan_digest == plan_digest)

unfoldable pub acquire : String → String → TargetKey → ℕ → StoreAction StoredSqlQueryPlan
acquire plan_id plan_digest target now = do
  plan ← required_unexpired plan_id now
  raise_if (mismatched plan target plan_digest) (from_database sql_query_plan_mismatch)
  raise_if (not (is_pending plan.status)) (from_database sql_query_plan_state)
  save plan_id (record plan { status = executing })
  pure (record plan { status = executing })

-- `_set_status`; `fail` has the same body, with `pending`.
unfoldable pub set_status : String → SqlQueryPlanStatus → StoreAction (Unit {0})
set_status plan_id status = do
  plan ← required plan_id
  raise_if (not (is_executing plan.status)) (from_database sql_query_plan_state)
  save plan_id (record plan { status = status })

unfoldable pub complete : String → StoreAction (Unit {0})
complete plan_id = set_status plan_id executed

unfoldable pub fail : String → StoreAction (Unit {0})
fail plan_id = do
  plan ← required plan_id
  raise_if (not (is_executing plan.status)) (from_database sql_query_plan_state)
  save plan_id (record plan { status = pending })

unfoldable pub get : String → TargetKey → ℕ → ℕ → StoreAction SqlQueryPlanResult
get plan_id target checked_at shown_at = do
  plan ← required_unexpired plan_id checked_at
  raise_if (not (plan.target == target)) (from_database sql_query_plan_mismatch)
  pure (public plan shown_at)

unfoldable pub cancel : String → TargetKey → ℕ → ℕ → StoreAction SqlQueryPlanResult
cancel plan_id target checked_at shown_at = do
  plan ← required_unexpired plan_id checked_at
  raise_if (not (plan.target == target)) (from_database sql_query_plan_mismatch)
  raise_if (not (is_pending plan.status)) (from_database sql_query_plan_state)
  let plan' = record plan { status = cancelled }
  save plan_id plan'
  pure (public plan' shown_at)
