-- ===== src/Writes/Service/Applied.antt =====
-- What `_apply` does to the world behind the bridge.
use helix_mcp_gateway.Prelude.{◌≡◌, refl, false, inl, inr, ◌⊎◌, Option, String}
use helix_mcp_gateway.Prelude.Action.{ok, Result-cases}
use helix_mcp_gateway.Config.{TargetKey}
use helix_mcp_gateway.Writes.Store.Calls.{run}
use helix_mcp_gateway.Writes.Service.Outcome.{bridge_call, after_call}
use helix_mcp_gateway.Targeting.{ResolvedTarget, key_of}
use helix_mcp_gateway.Writes.Models.{Values, WriteOperation, ApplyWriteResult, applied}
use helix_mcp_gateway.Writes.Policy.{enforce_write}
use helix_mcp_gateway.Writes.Store.{
  StoredWritePlan, PlanContent, acquired_plan, reused, acquire, complete,
}
use helix_mcp_gateway.Writes.Bridge.{Bridge}
use helix_mcp_gateway.Writes.Service.{
  State, Context, fail_with, finish, perform, read_plan, call_bridge, check_rate, apply_plan, apply,
}

module _ (sha256_json : PlanContent → String) (casefold : String → String) (B : Bridge)
    (context : Context sha256_json casefold B) where
  -- The world that one run of the body leaves, given what the bridge's call left.
  finish-world :
      (operation : WriteOperation) (target : TargetKey) (plan : StoredWritePlan) (id : String)
      (entry : Option String) (s : State sha256_json casefold B)
      → (finish sha256_json casefold B context operation target plan id entry s).1.world ≡ s.world
  unfolding finish fail_with
  finish-world operation target plan id entry s =
      let result : ApplyWriteResult = record {
        plan_id = plan.plan_id;
        operation = operation;
        environment = target.environment;
        form = plan.form;
        status = applied;
        entry_id = entry;
        reused_result = false;
      } in
      elim (Result-cases (complete id result s.plans).0) [
        | inl (x, e) ↦ rw (e, finish) refl
        | inr (done, e) ↦ rw (e, finish) refl
      ]

  perform-world :
      (operation : WriteOperation) (target : TargetKey) (plan : StoredWritePlan) (id : String)
      (values : Values) (s : State sha256_json casefold B)
      → (perform sha256_json casefold B context operation target plan id values s).1.world
        ≡ (bridge_call sha256_json casefold B context operation target plan id values s).1
  unfolding perform fail_with call_bridge
  perform-world operation target plan id values s =
      let after = after_call sha256_json casefold B context operation target plan id values s in
      elim (Result-cases
        (bridge_call sha256_json casefold B context operation target plan id values s).0) [
          | inl (x, e) ↦ rw (e, perform) refl
          | inr (entry, e) ↦ rw (e, perform) (finish-world operation target plan id entry after)
        ]

  -- How the bridge was called for a plan, with the values that the policy let through.
  pub record CalledForPlan (operation : WriteOperation) (target : ResolvedTarget)
      (id digest : String) (s : State sha256_json casefold B) (w : B.World) : Type 0 where
    plan : StoredWritePlan
    values : Values
    plan_is_acquired :
        (acquire id digest operation (key_of target.config) context.acquired_at s.plans).0
        ≡ ok (acquired_plan plan)
    policy_allows :
        enforce_write casefold target.policy operation plan.form plan.proposed_values plan.reason
        ≡ ok values
    rate_allows :
        (check_rate
          (key_of target.config)
          target.policy.write_rate_limit_per_minute
          context.checked_at
          s.counter).0
        ≡ ok tt
    bridge_called :
        w
        ≡ (call_bridge sha256_json casefold B operation plan.form plan.entry_id
            (read_plan sha256_json casefold B plan id (
              run sha256_json context.before_call
                (acquire id digest operation
                  (key_of target.config)
                  context.acquired_at
                  s.plans).1)).precondition
            values
            s.world).1

  apply_plan-world :
      (operation : WriteOperation) (target : ResolvedTarget) (id digest : String)
      (plan : StoredWritePlan) (s : State sha256_json casefold B)
      → (acquire id digest operation (key_of target.config) context.acquired_at s.plans).0
        ≡ ok (acquired_plan plan)
      → let acquired : State sha256_json casefold B = record s {
        plans = (acquire id digest operation (key_of target.config) context.acquired_at s.plans).1;
      } in
        let w =
          (apply_plan sha256_json casefold B context operation target plan id acquired).1.world in
        (w ≡ s.world) ⊎ CalledForPlan operation target id digest s w
  unfolding apply_plan fail_with
  apply_plan-world operation target id digest plan s a =
      elim (Result-cases (
        enforce_write casefold target.policy operation plan.form plan.proposed_values
          plan.reason)) [
            | inl (x, e) ↦ inl (rw (e, apply_plan) refl)
            | inr (values, e) ↦
                elim (Result-cases
                  (check_rate (key_of target.config) target.policy.write_rate_limit_per_minute
                    context.checked_at s.counter).0) [
                      | inl (x, r) ↦ inl (rw (e, apply_plan) (rw r refl))
                      | inr (tt, r) ↦
                          let counted : State sha256_json casefold B = record s {
                            plans =
                                (acquire id digest operation (key_of target.config)
                                  context.acquired_at s.plans).1;
                            counter =
                                (check_rate (key_of target.config)
                                  target.policy.write_rate_limit_per_minute context.checked_at
                                  s.counter).1;
                          } in
                          inr (record {
                            plan = plan;
                            values = values;
                            plan_is_acquired = a;
                            policy_allows = e;
                            rate_allows = r;
                            bridge_called =
                                rw (e, apply_plan)
                                  (rw r (
                                    perform-world operation (key_of target.config) plan id values
                                      counted));
                          })
                    ]
          ]

  -- A call of `_apply` leaves the world behind the bridge as it was, or it has acquired a plan by
  -- the digest that it was given, the policy of the target has let the plan's own values through,
  -- the limit of writes has let the call pass, and the world is what one call of the bridge with
  -- the plan's form and entry and these values leaves.
  pub apply-CalledForPlan :
      (operation : WriteOperation) (target : ResolvedTarget) (id digest : String)
      (s : State sha256_json casefold B)
      → let w = (apply sha256_json casefold B context operation target id digest s).1.world in
        (w ≡ s.world) ⊎ CalledForPlan operation target id digest s w
  unfolding apply
  apply-CalledForPlan operation target id digest s =
      elim (Result-cases
        (acquire id digest operation (key_of target.config) context.acquired_at s.plans).0) [
          | inl (x, e) ↦ inl (rw (e, apply) refl)
          | inr (reused result, e) ↦ inl (rw (e, apply) refl)
          | inr (acquired_plan plan, e) ↦
              rw (e, apply) (apply_plan-world operation target id digest plan s e)
        ]
