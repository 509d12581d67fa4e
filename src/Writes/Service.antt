-- ===== src/Writes/Service.antt =====
-- src/helix_mcp/services/writes/service.py: `FormWriteService`. The Java bridge is an argument: a
-- type of outside worlds and the three calls that the service makes. While a call awaits, other
-- tasks may call the store of plans; what they call is an argument too. Their use of the counter of
-- writes is not followed: it stands in the state as the check finds it.
pub mod Applied
pub mod Outcome
use helix_mcp_gateway.Prelude.{
  ℕ, Bool, true, false, not, ◌||◌, Option, none, some, List, [], ◌∷◌, String, map, is_some,
  if◌then◌else◌,
}
use helix_mcp_gateway.Prelude.Equality.{◌==◌, string_eq}
use helix_mcp_gateway.Prelude.Dict.{Dict, lookup, insert}
use helix_mcp_gateway.Prelude.Action.{Result, ok, err}
use helix_mcp_gateway.Errors.{
  Exn, from_write, from_bridge, assertion_failed, BridgeError, arapi_bridge_conflict,
  arapi_bridge_transport, arapi_bridge_protocol, form_write_conflict, write_outcome_unknown,
  form_write_rate_limit,
}
use helix_mcp_gateway.Config.{TargetPolicyConfig, TargetKey}
use helix_mcp_gateway.RateLimit.{SlidingWindowCounter}
use helix_mcp_gateway.RateLimit
use helix_mcp_gateway.Targeting.{ResolvedTarget, key_of}
use helix_mcp_gateway.Writes.Models.{
  Values, JsonScalar, WriteOperation, create, update, WritePlanResult, ApplyWriteResult, applied,
}
use helix_mcp_gateway.Writes.Policy.{enforce_write}
use helix_mcp_gateway.Writes.Store.{
  StoredWritePlan, WritePlanStore, PlanContent, PlanRequest, acquired_plan, reused, clear_payload,
}
use helix_mcp_gateway.Writes.Store
use helix_mcp_gateway.Writes.Store.Calls.{Call, run}
use helix_mcp_gateway.Writes.Bridge.{
  RawValue, PreparedUpdate, Bridge, arapi_outcome_unknown, Handled, handle, index_values,
  pick_values, parse_current_values,
}

-- `_WriteRateLimiter.check` without a database
unfoldable pub check_rate :
    TargetKey → ℕ → ℕ → SlidingWindowCounter → Result Exn (Unit {0}) × SlidingWindowCounter
check_rate target limit now counter =
    let (allowed, counter') = RateLimit.acquire target limit now counter in
    (if allowed then ok tt else err (from_write form_write_rate_limit), counter')

module _ (sha256_json : PlanContent → String) (casefold : String → String) (B : Bridge) where
  open B use {World, prepare_update, create_entry, update_entry}

  -- The shared state: the plans, the counter of writes, and the world behind the bridge.
  pub record State : Type 0 where
    pub plans : WritePlanStore
    pub counter : SlidingWindowCounter
    pub world : World

  -- The readings of the clock in one call, and what other tasks call on the store of plans: before
  -- the bridge is called, while it is, and before a failure is recorded.
  pub record Context : Type 0 where
    pub acquired_at : ℕ
    pub checked_at : ℕ
    pub before_call : List Call
    pub during_call : List Call
    pub before_fail : List Call

  abbrev pub others : List Call → WritePlanStore → WritePlanStore
  others = run sha256_json

  -- The plan object that `acquire` gave out, read later: the store clears an object that it drops.
  unfoldable pub read_plan : StoredWritePlan → String → WritePlanStore → StoredWritePlan
  read_plan plan plan_id store = elim (lookup plan_id store.plans) [
    | none ↦ clear_payload plan
    | some current ↦ current
  ]

  -- The call of the bridge in `_apply`: the entry identifier of the result, or what was raised.
  unfoldable pub call_bridge :
      WriteOperation
      → String
      → Option String
      → Option String
      → Values
      → World
      → Result Exn (Option String) × World
  call_bridge create form entry_id precondition values w = create_entry form values w
  call_bridge update form (some entry) (some precondition) values w =
      let (r, w') = update_entry form entry values precondition w in
      (elim r [ ok _ ↦ ok (some entry) | err x ↦ err x ], w')
  call_bridge update form _ _ values w = (err assertion_failed, w)

  -- The exception handlers: record the failure, then raise. What recording it raises goes first.
  unfoldable pub fail_with :
      Context → String → Bool → Exn → State → Result Exn ApplyWriteResult × State
  fail_with context plan_id write_succeeded error s =
      let handled = handle write_succeeded error in
      let (r, plans) =
        Store.fail plan_id handled.outcome_unknown (others context.before_fail s.plans) in
      (elim r [ ok _ ↦ err handled.raised | err x ↦ err x ], record s { plans = plans })

  -- After the bridge has written: build the result and complete the plan.
  unfoldable pub finish :
      Context
      → WriteOperation
      → TargetKey
      → StoredWritePlan
      → String
      → Option String
      → State
      → Result Exn ApplyWriteResult × State
  unfolding fail_with
  finish context operation target plan plan_id entry_id s =
      let result : ApplyWriteResult = record {
        plan_id = plan.plan_id;
        operation = operation;
        environment = target.environment;
        form = plan.form;
        status = applied;
        entry_id = entry_id;
        reused_result = false;
      } in
      let (r, plans) = Store.complete plan_id result s.plans in
      elim r [
        | ok done ↦ (ok done, record s { plans = plans })
        | err x ↦ fail_with context plan_id true x (record s { plans = plans })
      ]

  -- The call of the bridge with values that the policy lets through, inside the limit.
  unfoldable pub perform :
      Context
      → WriteOperation
      → TargetKey
      → StoredWritePlan
      → String
      → Values
      → State
      → Result Exn ApplyWriteResult × State
  perform context operation target plan plan_id values s =
      let before = others context.before_call s.plans in
      let current = read_plan plan plan_id before in
      let (r, world) =
        call_bridge operation plan.form plan.entry_id current.precondition values s.world in
      let after = record s { plans = others context.during_call before; world = world } in
      elim r [
        | ok entry_id ↦ finish context operation target plan plan_id entry_id after
        | err x ↦ fail_with context plan_id false x after
      ]

  -- The body of the `try` in `_apply`.
  unfoldable pub apply_plan :
      Context
      → WriteOperation
      → ResolvedTarget
      → StoredWritePlan
      → String
      → State
      → Result Exn ApplyWriteResult × State
  apply_plan context operation target plan plan_id s =
      elim (enforce_write casefold target.policy operation plan.form plan.proposed_values
        plan.reason) [
          | err x ↦ fail_with context plan_id false x s
          | ok values ↦
              let key = key_of target.config in
              let (r, counter) =
                check_rate key target.policy.write_rate_limit_per_minute context.checked_at
                  s.counter in
              let counted = record s { counter = counter } in
              elim r [
                | err x ↦ fail_with context plan_id false x counted
                | ok _ ↦ perform context operation key plan plan_id values counted
              ]
        ]

  -- `_apply`, for a target that was resolved
  unfoldable pub apply :
      Context
      → WriteOperation
      → ResolvedTarget
      → String
      → String
      → State
      → Result Exn ApplyWriteResult × State
  apply context operation target plan_id plan_digest s =
      let (r, plans) =
        Store.acquire plan_id plan_digest operation (key_of target.config) context.acquired_at
          s.plans in
      let acquired = record s { plans = plans } in
      elim r [
        | err x ↦ (err x, acquired)
        | ok got ↦ elim got [
          | reused result ↦ (ok result, acquired)
          | acquired_plan plan ↦ apply_plan context operation target plan plan_id acquired
        ]
      ]

  -- `plan_create_for_form`
  unfoldable pub plan_create :
      ResolvedTarget
      → String
      → Values
      → String
      → String
      → ℕ
      → ℕ
      → State
      → Result Exn WritePlanResult × State
  plan_create target form values reason plan_id purged_at created_at s =
      elim (enforce_write casefold target.policy create form values reason) [
        | err x ↦ (err x, s)
        | ok written ↦
            let request : PlanRequest = record {
              operation = create;
              target = key_of target.config;
              form = form;
              entry_id = none;
              current_values = none;
              proposed_values = written;
              reason = reason;
              precondition = none;
            } in
            let (r, plans) =
              Store.create sha256_json request plan_id purged_at created_at s.plans in
            (r, record s { plans = plans })
      ]

  -- `plan_update`; other tasks may call the store while the bridge prepares the update.
  unfoldable pub plan_update :
      ResolvedTarget
      → String
      → String
      → Values
      → String
      → String
      → ℕ
      → ℕ
      → List Call
      → State
      → Result Exn WritePlanResult × State
  plan_update target form entry values reason plan_id purged_at created_at during s =
      elim (enforce_write casefold target.policy update form values reason) [
        | err x ↦ (err x, s)
        | ok written ↦
            let (prepared, world) = prepare_update form entry (map (λ e. e.0) written) s.world in
            let after = record s { plans = others during s.plans; world = world } in
            elim prepared [
              | err x ↦ (err x, after)
              | ok p ↦
                  let request : PlanRequest = record {
                    operation = update;
                    target = key_of target.config;
                    form = form;
                    entry_id = some entry;
                    current_values = some (parse_current_values casefold p.values written);
                    proposed_values = written;
                    reason = reason;
                    precondition = some p.precondition;
                  } in
                  let (r, plans) =
                    Store.create sha256_json request plan_id purged_at created_at after.plans in
                  (r, record after { plans = plans })
            ]
      ]
