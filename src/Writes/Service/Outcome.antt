-- ===== src/Writes/Service/Outcome.antt =====
-- What is recorded of a write, and what is raised for it.
use helix_mcp_gateway.Prelude.{◌≡◌, refl, ◌∙◌, Bool, true, false, Option, none, some, String}
use helix_mcp_gateway.Prelude.Equality.{string_eq}
use helix_mcp_gateway.Prelude.Dict.{Dict, lookup, insert, lookup-insert}
use helix_mcp_gateway.Prelude.Action.{Result, ok, err, modify, bind_ok, bind_err, ◌>>=◌}
use helix_mcp_gateway.Errors.{Exn, from_write, write_plan_not_found}
use helix_mcp_gateway.Config.{TargetKey}
use helix_mcp_gateway.Writes.Models.{
  Values, WriteOperation, WritePlanStatus, applying, applied, failed, outcome_unknown,
  ApplyWriteResult,
}
use helix_mcp_gateway.Writes.Store.{
  StoredWritePlan, WritePlanStore, PlanContent, clear_payload, fail, complete, save, required,
}
use helix_mcp_gateway.Writes.Store.Inversion.{required_found, required_missing}
use helix_mcp_gateway.Writes.Store.Calls.{run}
use helix_mcp_gateway.Writes.Bridge.{Bridge, handle}
use helix_mcp_gateway.Writes.Service.{
  State, Context, fail_with, finish, perform, read_plan, call_bridge,
}

abbrev failure_status : Bool → WritePlanStatus
failure_status true = outcome_unknown
failure_status false = failed

fail_found :
    (id : String) (unknown : Bool) (p : StoredWritePlan) (s : WritePlanStore)
    → lookup id s.plans ≡ some p
    → fail id unknown s ≡ (
      ok tt,
      record s {
        plans = insert id (clear_payload (record p { status = failure_status unknown })) s.plans;
      },
    )
unfolding fail save modify
fail_found id true p s e = bind_ok (required id) _ s _ _ (required_found id p s e)
fail_found id false p s e = bind_ok (required id) _ s _ _ (required_found id p s e)

fail_missing :
    (id : String) (unknown : Bool) (s : WritePlanStore)
    → lookup id s.plans ≡ none
    → fail id unknown s ≡ (err (from_write write_plan_not_found), s)
unfolding fail
fail_missing id unknown s e = bind_err (required id) _ s _ _ (required_missing id s e)

complete_missing :
    (id : String) (r : ApplyWriteResult) (s : WritePlanStore)
    → lookup id s.plans ≡ none
    → complete id r s ≡ (err (from_write write_plan_not_found), s)
unfolding complete
complete_missing id r s e = bind_err (required id) _ s _ _ (required_missing id s e)

complete_applying :
    (id : String) (r : ApplyWriteResult) (p : StoredWritePlan) (s : WritePlanStore)
    → lookup id s.plans ≡ some p
    → p.status ≡ applying
    → complete id r s ≡ (
      ok r,
      record s {
        plans = insert id (clear_payload (record p { status = applied; result = some r })) s.plans;
      },
    )
unfolding complete save modify ◌>>=◌
complete_applying id r p s e a = bind_ok (required id) _ s _ _ (required_found id p s e) ∙ rw a

lookup-insert_self :
    (id : String) (p : StoredWritePlan) (d : Dict String StoredWritePlan)
    → lookup id (insert id p d) ≡ some p
lookup-insert_self id p d = lookup-insert id id p d ∙ rw ((string_eq.reflects id id).1 refl)

-- The store as `fail` finds it, and what `fail_with` gives.
module _ (sha256_json : PlanContent → String) (casefold : String → String) (B : Bridge)
    (context : Context sha256_json casefold B) (id : String)
    (s : State sha256_json casefold B) where
  abbrev pub at_fail : WritePlanStore
  at_fail = run sha256_json context.before_fail s.plans

  pub fail_with_missing :
      (wrote : Bool) (x : Exn)
      → lookup id at_fail.plans ≡ none
      → (fail_with sha256_json casefold B context id wrote x s).0
        ≡ err (from_write write_plan_not_found)
  unfolding fail_with
  fail_with_missing wrote x e =
      rw (fail_missing id (handle wrote x).outcome_unknown at_fail e, fail_with)

  pub fail_with_found :
      (wrote : Bool) (x : Exn) (p : StoredWritePlan)
      → lookup id at_fail.plans ≡ some p
      → ((fail_with sha256_json casefold B context id wrote x s).0 ≡ err (handle wrote x).raised)
        × (lookup id (fail_with sha256_json casefold B context id wrote x s).1.plans.plans
            ≡ some (
                clear_payload
                  (record p { status = failure_status (handle wrote x).outcome_unknown })))
  unfolding fail_with
  fail_with_found wrote x p e =
      let eq = fail_found id (handle wrote x).outcome_unknown p at_fail e in
      let marked =
        clear_payload (record p { status = failure_status (handle wrote x).outcome_unknown }) in
      (rw (eq, fail_with), rw (eq, fail_with) (lookup-insert_self id marked at_fail.plans))

module _ (sha256_json : PlanContent → String) (casefold : String → String) (B : Bridge)
    (context : Context sha256_json casefold B) (operation : WriteOperation) (target : TargetKey)
    (plan : StoredWritePlan) (id : String) (values : Values)
    (s : State sha256_json casefold B) where
  abbrev pub at_call : WritePlanStore
  at_call = run sha256_json context.before_call s.plans

  abbrev pub at_return : WritePlanStore
  at_return = run sha256_json context.during_call at_call

  abbrev pub bridge_call : Result Exn (Option String) × B.World
  bridge_call =
      call_bridge sha256_json casefold B operation plan.form plan.entry_id
        (read_plan sha256_json casefold B plan id at_call).precondition values s.world

  abbrev pub performed : Result Exn ApplyWriteResult × State sha256_json casefold B
  performed = perform sha256_json casefold B context operation target plan id values s

  abbrev pub after_call : State sha256_json casefold B
  after_call = record s { plans = at_return; world = bridge_call.1 }

  -- When the bridge's call raises, and the plan is stored when the failure is recorded, the caller
  -- gets what the handlers raise for it, and the plan is stored without its payload, as
  -- `outcome_unknown` if the handlers say that the write may have happened, else as `failed`.
  pub bridge_failure_recorded :
      (x : Exn) (p : StoredWritePlan)
      → bridge_call.0 ≡ err x
      → lookup id (run sha256_json context.before_fail at_return).plans ≡ some p
      → (performed.0 ≡ err (handle false x).raised)
        × (lookup id performed.1.plans.plans
            ≡ some (
                clear_payload
                  (record p { status = failure_status (handle false x).outcome_unknown })))
  unfolding perform
  bridge_failure_recorded x p b e =
      rw (b, perform) (fail_with_found sha256_json casefold B context id after_call false x p e)

  -- When the bridge's call has written, and the plan is still `applying`, the caller gets the
  -- applied result with the bridge's entry, and the plan is stored as `applied` with that result
  -- and without its payload.
  pub bridge_success_recorded :
      (entry : Option String) (p : StoredWritePlan)
      → bridge_call.0 ≡ ok entry
      → lookup id at_return.plans ≡ some p
      → p.status ≡ applying
      → (result : ApplyWriteResult) × (performed.0 ≡ ok result)
        × (result.status ≡ applied)
        × (result.entry_id ≡ entry)
        × (result.reused_result ≡ false)
        × (lookup id performed.1.plans.plans
            ≡ some (clear_payload (record p { status = applied; result = some result })))
  unfolding perform finish
  bridge_success_recorded entry p b e a =
      let result : ApplyWriteResult = record {
        plan_id = plan.plan_id;
        operation = operation;
        environment = target.environment;
        form = plan.form;
        status = applied;
        entry_id = entry;
        reused_result = false;
      } in
      let eq = complete_applying id result p at_return e a in
      let done = clear_payload (record p { status = applied; result = some result }) in
      (
        result,
        rw (b, perform) (rw (eq, finish) refl),
        refl,
        refl,
        refl,
        rw (b, perform) (rw (eq, finish) (rw eq (lookup-insert_self id done at_return.plans))),
      )

  -- When the bridge's call has written, but the plan is not stored when it is to be completed, nor
  -- when the failure is to be recorded, the caller gets `WritePlanNotFoundError`.
  pub vanished_plan_hides_write :
      (entry : Option String)
      → bridge_call.0 ≡ ok entry
      → lookup id at_return.plans ≡ none
      → lookup id (run sha256_json context.before_fail at_return).plans ≡ none
      → performed.0 ≡ err (from_write write_plan_not_found)
  unfolding perform finish
  vanished_plan_hides_write entry b e e' =
      let result : ApplyWriteResult = record {
        plan_id = plan.plan_id;
        operation = operation;
        environment = target.environment;
        form = plan.form;
        status = applied;
        entry_id = entry;
        reused_result = false;
      } in
      let eq = complete_missing id result at_return e in
      rw (b, perform)
        (rw (eq, finish)
          (rw eq (
            fail_with_missing sha256_json casefold B context id after_call true
              (from_write write_plan_not_found) e')))
