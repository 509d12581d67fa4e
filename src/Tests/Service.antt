-- ===== src/Tests/Service.antt =====
-- The service of writes on concrete inputs.
use helix_mcp_gateway.Prelude.{ℕ, ◌≡◌, refl, ◌⊎◌, true, none, some, List, [], ◌∷◌}
use helix_mcp_gateway.Prelude.Equality.{string_eq}
use helix_mcp_gateway.Prelude.Dict.{lookup, insert, erase, erase_all, keys_where}
use helix_mcp_gateway.Prelude.Action.{Result, ok, err, ◌>>=◌}
use helix_mcp_gateway.Errors.{
  Exn, from_bridge, from_write, arapi_bridge_transport, write_outcome_unknown, write_plan_not_found,
}
use helix_mcp_gateway.Config.{dev}
use helix_mcp_gateway.Targeting.{ResolvedTarget}
use helix_mcp_gateway.Writes.Models.{update, pending, applying, outcome_unknown}
use helix_mcp_gateway.Writes.Store.{WritePlanStore, clear_payload, create, purge_expired, save}
use helix_mcp_gateway.Writes.Store.Calls.{Call, creates, run, after_call}
use helix_mcp_gateway.Writes.Bridge.{Bridge, handle}
use helix_mcp_gateway.Writes.Service.{State, Context, call_bridge, apply, read_plan}
use helix_mcp_gateway.Writes.Service.Outcome.{
  bridge_failure_recorded, vanished_plan_hides_write, performed,
}
use helix_mcp_gateway.Writes.Service.Applied.{apply-CalledForPlan, CalledForPlan}
use helix_mcp_gateway.Tests.Writes.{
  reason_of, same_text, on_dev, closing, close_request, close_plan, holding, closing_policy,
}

-- A bridge whose world counts the calls; each call ends as `outcome` says.
abbrev counting : Result Exn (Unit {0}) → Bridge
counting outcome = record {
  World = ℕ;
  prepare_update = λ form entry fields w. (ok (record { values = []; precondition = "v1" }), w);
  create_entry = λ form values w. (elim outcome [ ok _ ↦ ok none | err x ↦ err x ], ℕ.suc w);
  update_entry = λ form entry values precondition w. (outcome, ℕ.suc w);
}

abbrev working : Bridge
working = counting (ok tt)

abbrev broken : Bridge
broken = counting (err (from_bridge arapi_bridge_transport))

abbrev meanwhile : (B : Bridge) → List Call → Context reason_of same_text B
meanwhile B calls = record {
  acquired_at = 10;
  checked_at = 11;
  before_call = [];
  during_call = calls;
  before_fail = [];
}

abbrev starting : (B : Bridge) → B.World → WritePlanStore → State reason_of same_text B
starting B w store = record { plans = store; counter = record { events = [] }; world = w }

abbrev dev_target : ResolvedTarget
dev_target = record {
  config = record {
    environment = dev;
    display_name = "Dev";
    policy_ref = "writers";
    enabled = true;
  };
  policy = closing_policy;
  backend = none;
}

apply-CalledForPlan_example :
    ((apply reason_of same_text working
        (meanwhile working [])
        update
        dev_target
        "p1"
        "solved"
        (starting working 0 (holding pending))).1.world
      ≡ 0)
    ⊎ CalledForPlan reason_of same_text working
        (meanwhile working [])
        update
        dev_target
        "p1"
        "solved"
        (starting working 0 (holding pending))
        (apply reason_of same_text working
          (meanwhile working [])
          update
          dev_target
          "p1"
          "solved"
          (starting working 0 (holding pending))).1.world
apply-CalledForPlan_example =
    apply-CalledForPlan reason_of same_text working (meanwhile working []) update dev_target "p1"
      "solved" (starting working 0 (holding pending))

bridge_failure_recorded_example :
    ((performed reason_of same_text broken
        (meanwhile broken [])
        update
        on_dev
        (close_plan applying)
        "p1"
        closing
        (starting broken 0 (holding applying))).0
      ≡ err (from_write write_outcome_unknown))
    × (lookup "p1"
          (performed reason_of same_text broken
            (meanwhile broken [])
            update
            on_dev
            (close_plan applying)
            "p1"
            closing
            (starting broken 0 (holding applying))).1.plans.plans
        ≡ some (clear_payload (close_plan outcome_unknown)))
unfolding lookup run call_bridge read_plan handle
bridge_failure_recorded_example =
    bridge_failure_recorded reason_of same_text broken (meanwhile broken []) update on_dev
      (close_plan applying) "p1" closing (starting broken 0 (holding applying))
      (from_bridge arapi_bridge_transport) (close_plan applying) refl refl

-- While the bridge writes, the plan expires, and another task plans a write.
abbrev plans_another : List Call
plans_another = creates close_request "p2" 2000 2000 ∷ []

vanished_plan_hides_write_example :
    (performed reason_of same_text working
      (meanwhile working plans_another)
      update
      on_dev
      (close_plan applying)
      "p1"
      closing
      (starting working 0 (holding applying))).0
    ≡ err (from_write write_plan_not_found)
unfolding lookup run call_bridge read_plan after_call create purge_expired save ◌>>=◌ insert erase
    erase_all keys_where
vanished_plan_hides_write_example =
    vanished_plan_hides_write reason_of same_text working (meanwhile working plans_another) update
      on_dev (close_plan applying) "p1" closing (starting working 0 (holding applying))
      (some "INC1") refl refl refl
