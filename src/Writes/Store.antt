-- ===== src/Writes/Store.antt =====
-- src/helix_mcp/services/writes/store.py: `WritePlanStore`, the plans in the memory of a process.
-- Each method is an action on the store; it runs under the store's lock, so it is one step. The
-- readings of the clock, `secrets.token_hex` and SHA-256 over canonical JSON are arguments.
pub mod Moves
pub mod Inversion
pub mod Calls
pub mod Lifecycle
pub mod Once
pub mod Binding
use helix_mcp_gateway.Prelude.{
  ℕ, ◌+◌, Bool, true, false, not, ◌||◌, Option, none, some, List, [], String, ◌∷◌, Option-cases,
  leb, if◌then◌else◌,
}
use helix_mcp_gateway.Prelude.Equality.{◌==◌, string_eq}
use helix_mcp_gateway.Prelude.Dict.{
  Dict, lookup, insert, erase, erase_all, keys_where, count_values,
}
use helix_mcp_gateway.Prelude.Action.{
  Result, ok, err, Action, pure, raise, raise_if, or_raise, modify, gets, ◌>>=◌, ◌>>◌,
}
use helix_mcp_gateway.Errors.{
  Exn, from_write, assertion_failed, write_plan_capacity, write_plan_not_found, write_plan_expired,
  write_plan_mismatch, write_plan_state, write_outcome_unknown,
}
use helix_mcp_gateway.Config.{Environment, TargetKey, target_key_eq}
use helix_mcp_gateway.Text.{stripped}
use helix_mcp_gateway.Writes.Models.{
  Values, JsonScalar, str, WriteOperation, operation_eq, WritePlanStatus, pending, applying,
  applied, cancelled, failed, outcome_unknown, WritePlanResult, ApplyWriteResult,
}

pub record StoredWritePlan : Type 0 where
  pub plan_id : String
  pub plan_digest : String
  pub operation : WriteOperation
  pub target : TargetKey
  pub form : String
  pub entry_id : Option String
  pub current_values : Option Values
  pub proposed_values : Values
  pub reason : String
  pub precondition : Option String
  pub expires_at : ℕ
  pub status : WritePlanStatus
  pub result : Option ApplyWriteResult

pub data AcquiredWritePlan : Type 0 where
  acquired_plan : StoredWritePlan → AcquiredWritePlan
  reused : ApplyWriteResult → AcquiredWritePlan

pub record WritePlanStore : Type 0 where
  pub ttl : ℕ
  pub max_pending : ℕ
  pub plans : Dict String StoredWritePlan

abbrev pub StoreAction : Type 0 → Type 0
StoreAction = Action Exn WritePlanStore

-- The object that `_digest` hands to `json.dumps`.
pub record PlanContent : Type 0 where
  pub operation : WriteOperation
  pub environment : Environment
  pub form : String
  pub entry_id : Option String
  pub current_values : Option Values
  pub proposed_values : Values
  pub reason : String
  pub precondition : Option String

-- The arguments of `create`.
pub record PlanRequest : Type 0 where
  pub operation : WriteOperation
  pub target : TargetKey
  pub form : String
  pub entry_id : Option String
  pub current_values : Option Values
  pub proposed_values : Values
  pub reason : String
  pub precondition : Option String

abbrev pub request_content : PlanRequest → PlanContent
request_content r = record {
  operation = r.operation;
  environment = r.target.environment;
  form = r.form;
  entry_id = r.entry_id;
  current_values = r.current_values;
  proposed_values = r.proposed_values;
  reason = r.reason;
  precondition = r.precondition;
}

unfoldable pub digest : (PlanContent → String) → PlanRequest → String
digest sha256_json r = sha256_json (request_content r)

-- What a `FrozenModel` makes of a value and of the values by field: it takes white space off both ends of
-- each text.
unfoldable pub shown_scalar : JsonScalar → JsonScalar
shown_scalar (str s) = str (stripped s)
shown_scalar value = value

unfoldable pub shown_values : Values → Values → Values
unfolding shown_scalar
shown_values [] shown = shown
shown_values ((field, value) ∷ values) shown =
    shown_values values (insert (stripped field) (shown_scalar value) shown)

abbrev shown_entry : Option String → Option String
shown_entry none = none
shown_entry (some entry_id) = some (stripped entry_id)

abbrev shown_current : Option Values → Option Values
shown_current none = none
shown_current (some values) = some (shown_values values [])

unfoldable pub public : StoredWritePlan → WritePlanResult
unfolding shown_values
public plan = record {
  plan_id = plan.plan_id;
  plan_digest = plan.plan_digest;
  operation = plan.operation;
  environment = plan.target.environment;
  form = stripped plan.form;
  entry_id = shown_entry plan.entry_id;
  current_values = shown_current plan.current_values;
  proposed_values = shown_values plan.proposed_values [];
  reason = stripped plan.reason;
  expires_at = plan.expires_at;
  status = plan.status;
}

abbrev pub cleared : Option Values → Option Values
cleared none = none
cleared (some values) = some []

unfoldable pub clear_payload : StoredWritePlan → StoredWritePlan
clear_payload plan = record plan {
  current_values = cleared plan.current_values;
  proposed_values = [];
  reason = "";
  precondition = none;
}

-- Plans that count against the capacity.
abbrev pub is_open : WritePlanStatus → Bool
is_open pending = true
is_open applying = true
is_open _ = false

abbrev pub plan_is_open : StoredWritePlan → Bool
plan_is_open plan = is_open plan.status

-- `_required`
unfoldable pub required : String → StoreAction StoredWritePlan
required plan_id = do
  found ← gets (λ s. lookup plan_id s.plans)
  or_raise found (from_write write_plan_not_found)

-- `_ensure_not_expired`
unfoldable pub ensure_not_expired : StoredWritePlan → ℕ → StoreAction (Unit {0})
ensure_not_expired plan now s =
    if leb plan.expires_at now
    then (err (from_write write_plan_expired), record s { plans = erase plan.plan_id s.plans })
    else (ok tt, s)

-- `_purge_expired`
unfoldable pub purge_expired : ℕ → WritePlanStore → WritePlanStore
purge_expired now s =
    let expired = keys_where (λ (plan : StoredWritePlan). leb plan.expires_at now) s.plans in
    record s { plans = erase_all expired s.plans }

-- The store after a plan object found under `plan_id` was changed.
unfoldable pub save : String → StoredWritePlan → StoreAction (Unit {0})
save plan_id plan = modify (λ s. record s { plans = insert plan_id plan s.plans })

-- The plan that `create` stores under a fresh identifier.
unfoldable pub new_plan : (PlanContent → String) → PlanRequest → String → ℕ → StoredWritePlan
unfolding digest
new_plan sha256_json r plan_id expires_at = record {
  plan_id = plan_id;
  plan_digest = digest sha256_json r;
  operation = r.operation;
  target = r.target;
  form = r.form;
  entry_id = r.entry_id;
  current_values = r.current_values;
  proposed_values = r.proposed_values;
  reason = r.reason;
  precondition = r.precondition;
  expires_at = expires_at;
  status = pending;
  result = none;
}

-- The clock is read twice: by the purge, and for `expires_at`.
unfoldable pub create :
    (PlanContent → String) → PlanRequest → String → ℕ → ℕ → StoreAction WritePlanResult
create sha256_json r plan_id purged_at created_at = do
  modify (purge_expired purged_at)
  open_plans ← gets (λ s. count_values plan_is_open s.plans)
  max_pending ← gets (λ s. s.max_pending)
  raise_if (leb max_pending open_plans) (from_write write_plan_capacity)
  ttl ← gets (λ s. s.ttl)
  let plan = new_plan sha256_json r plan_id (created_at + ttl)
  save plan_id plan
  pure (public plan)

-- `plan.result.model_copy(update={"reused_result": True})`, after `assert plan.result is not None`
unfoldable pub reuse : Option ApplyWriteResult → StoreAction AcquiredWritePlan
reuse none = raise assertion_failed
reuse (some result) = pure (reused (record result { reused_result = true }))

-- The tests on `plan.status` in `acquire`.
unfoldable pub acquire_by_status :
    String → StoredWritePlan → WritePlanStatus → StoreAction AcquiredWritePlan
acquire_by_status plan_id plan applied = reuse plan.result
acquire_by_status plan_id plan outcome_unknown = raise (from_write write_outcome_unknown)
acquire_by_status plan_id plan pending = do
  save plan_id (record plan { status = applying })
  pure (acquired_plan (record plan { status = applying }))
acquire_by_status plan_id plan _ = raise (from_write write_plan_state)

abbrev pub mismatched : StoredWritePlan → WriteOperation → TargetKey → String → Bool
mismatched plan operation target plan_digest =
    not (plan.operation == operation)
    || not (plan.target == target)
    || not (plan.plan_digest == plan_digest)

unfoldable pub acquire :
    String → String → WriteOperation → TargetKey → ℕ → StoreAction AcquiredWritePlan
acquire plan_id plan_digest operation target now = do
  plan ← required plan_id
  ensure_not_expired plan now
  raise_if (mismatched plan operation target plan_digest) (from_write write_plan_mismatch)
  acquire_by_status plan_id plan plan.status

abbrev pub is_applying : WritePlanStatus → Bool
is_applying applying = true
is_applying _ = false

abbrev pub is_pending : WritePlanStatus → Bool
is_pending pending = true
is_pending _ = false

unfoldable pub complete : String → ApplyWriteResult → StoreAction ApplyWriteResult
complete plan_id result = do
  plan ← required plan_id
  raise_if (not (is_applying plan.status)) (from_write write_plan_state)
  save plan_id (clear_payload (record plan { status = applied; result = some result }))
  pure result

unfoldable pub fail : String → Bool → StoreAction (Unit {0})
fail plan_id unknown = do
  plan ← required plan_id
  save plan_id
      (clear_payload (record plan { status = if unknown then outcome_unknown else failed }))

unfoldable pub get : String → TargetKey → ℕ → StoreAction WritePlanResult
get plan_id target now = do
  plan ← required plan_id
  ensure_not_expired plan now
  raise_if (not (plan.target == target)) (from_write write_plan_mismatch)
  pure (public plan)

unfoldable pub cancel : String → TargetKey → ℕ → StoreAction WritePlanResult
cancel plan_id target now = do
  plan ← required plan_id
  ensure_not_expired plan now
  raise_if (not (plan.target == target)) (from_write write_plan_mismatch)
  raise_if (not (is_pending plan.status)) (from_write write_plan_state)
  let plan' = clear_payload (record plan { status = cancelled })
  save plan_id plan'
  pure (public plan')
