-- ===== src/Tests/Writes.antt =====
-- The store of plans and the policy of writes on concrete inputs.
use helix_mcp_gateway.Prelude.{
  ◌≤◌, ◌≡◌, refl, arith, true, false, none, some, List, [], ◌∷◌, String,
}
use helix_mcp_gateway.Prelude.Equality.{string_eq}
use helix_mcp_gateway.Prelude.Dict.{lookup, insert, erase, erase_all, keys_where}
use helix_mcp_gateway.Prelude.Action.{ok, ◌>>=◌}
use helix_mcp_gateway.Config.{
  dev, environment_beq, TargetKey, target_key_beq, read_write, TargetPolicyConfig,
}
use helix_mcp_gateway.Text.{is_blank, is_space, contains}
use helix_mcp_gateway.Writes.Models.{
  Values, str, update, operation_beq, WritePlanStatus, pending, applying,
}
use helix_mcp_gateway.Writes.Policy.{
  enforce_write, restrict_fields, index_fields, rename_fields, folded_is_sensitive,
}
use helix_mcp_gateway.Writes.Policy.Sound.{enforce_write-IsAllowedWrite, IsAllowedWrite}
use helix_mcp_gateway.Writes.Store.{
  StoredWritePlan, WritePlanStore, PlanContent, PlanRequest, request_content, digest, new_plan,
  public, acquired_plan, create, acquire, acquire_by_status, required, ensure_not_expired,
  purge_expired, save, fail, clear_payload,
}
use helix_mcp_gateway.Writes.Store.Calls.{
  Call, creates, acquires, fails, run, after_call, times_handed, times_drawn, handed,
}
use helix_mcp_gateway.Writes.Store.Once.{times_handed-le-times_drawn}
use helix_mcp_gateway.Writes.Store.Lifecycle.{StoreInv, plan_content, run-StoreInv}
use helix_mcp_gateway.Writes.Store.Binding.{applied_as_reviewed}

-- A stand-in for SHA-256, which shows the reason of a plan.
abbrev pub reason_of : PlanContent → String
reason_of content = content.reason

abbrev pub on_dev : TargetKey
on_dev = record { environment = dev }

abbrev pub closing : Values
closing = ("Status", str "Closed") ∷ []

abbrev pub close_request : PlanRequest
close_request = record {
  operation = update;
  target = on_dev;
  form = "HPD:Help Desk";
  entry_id = some "INC1";
  current_values = some (("Status", str "Open") ∷ []);
  proposed_values = closing;
  reason = "solved";
  precondition = some "v1";
}

abbrev pub empty_store : WritePlanStore
empty_store = record { ttl = 900; max_pending = 2; plans = [] }

abbrev pub close_plan : WritePlanStatus → StoredWritePlan
close_plan status = record {
  plan_id = "p1";
  plan_digest = "solved";
  operation = update;
  target = on_dev;
  form = "HPD:Help Desk";
  entry_id = some "INC1";
  current_values = some (("Status", str "Open") ∷ []);
  proposed_values = closing;
  reason = "solved";
  precondition = some "v1";
  expires_at = 905;
  status = status;
  result = none;
}

abbrev pub holding : WritePlanStatus → WritePlanStore
holding status = record empty_store { plans = ("p1", close_plan status) ∷ [] }

abbrev history : List Call
history =
    creates close_request "p1" 5 5
    ∷ acquires "p1" "solved" update on_dev 10
    ∷ fails "p1" true
    ∷ acquires "p1" "solved" update on_dev 20
    ∷ []

empty_store-StoreInv : StoreInv reason_of empty_store
empty_store-StoreInv = record { plans_are_valid = tt; within_capacity = omega arith }

holding-StoreInv : StoreInv reason_of (holding pending)
holding-StoreInv = record {
  plans_are_valid = (
    record {
      own_id = refl;
      closed_is_empty = λ h. absurd (cc h);
      applied_has_result = λ h. absurd (cc h);
      open_is_bound = λ _. refl;
    },
    tt,
  );
  within_capacity = omega arith;
}

times_handed-le-times_drawn_example :
    times_handed reason_of "p1" history empty_store ≤ times_drawn "p1" history
unfolding lookup
times_handed-le-times_drawn_example =
    times_handed-le-times_drawn reason_of "p1" history empty_store refl

-- The plan is given out, once, in this history.
history-hands_out : times_handed reason_of "p1" history empty_store ≡ 1
unfolding times_handed handed after_call create acquire acquire_by_status required
    ensure_not_expired purge_expired save ◌>>=◌ lookup insert erase erase_all keys_where
    operation_beq target_key_beq environment_beq new_plan digest public fail clear_payload
history-hands_out = refl

run-StoreInv_example : StoreInv reason_of (run reason_of history empty_store)
run-StoreInv_example = run-StoreInv reason_of history empty_store empty_store-StoreInv

closing_is_acquired :
    acquire "p1" "solved" update on_dev 10 (holding pending)
    ≡ (ok (acquired_plan (close_plan applying)), holding applying)
unfolding acquire acquire_by_status required ensure_not_expired save ◌>>=◌ lookup insert
    operation_beq target_key_beq environment_beq
closing_is_acquired = refl

closing_is_created :
    create reason_of close_request "p1" 5 5 empty_store
    ≡ (ok (public (close_plan pending)), holding pending)
unfolding create purge_expired save ◌>>=◌ insert erase_all keys_where new_plan digest
closing_is_created = refl

applied_as_reviewed_example :
    reason_of (plan_content (close_plan applying)) ≡ reason_of (request_content close_request)
unfolding run public
applied_as_reviewed_example =
    applied_as_reviewed reason_of close_request "p1" 5 5 empty_store (public (close_plan pending))
      (holding pending) [] "p1" update on_dev 10 empty_store-StoreInv closing_is_created
      closing_is_acquired

abbrev pub closing_policy : TargetPolicyConfig
closing_policy = record {
  allow_all_forms = false;
  allow_all_fields = false;
  allowed_forms = "HPD:Help Desk" ∷ [];
  allowed_fields_by_form = ("HPD:Help Desk", "Status" ∷ []) ∷ [];
  allow_all_writable_forms = false;
  writable_forms = "HPD:Help Desk" ∷ [];
  allow_all_creatable_fields = false;
  allow_all_creatable_fields_for_forms = [];
  creatable_fields_by_form = ("HPD:Help Desk", "Summary" ∷ []) ∷ [];
  allow_all_updatable_fields = false;
  allow_all_updatable_fields_for_forms = [];
  updatable_fields_by_form = ("HPD:Help Desk", "Status" ∷ "Summary" ∷ []) ∷ [];
  allow_all_sql_objects = false;
  allowed_sql_objects = [];
  allow_form_reads = true;
  allow_sql = false;
  access_mode = read_write;
  require_human_approval = true;
  require_write_reason = true;
  max_rows = 1000;
  query_timeout_seconds = 30;
  rate_limit_per_minute = 60;
  write_rate_limit_per_minute = 10;
  sensitive_fields = "Password" ∷ [];
  sensitive_field_markers = "secret" ∷ [];
}

abbrev pub same_text : String → String
same_text s = s

enforce_write-IsAllowedWrite_example :
    IsAllowedWrite same_text closing_policy update "HPD:Help Desk" "solved" closing
unfolding enforce_write restrict_fields index_fields rename_fields folded_is_sensitive lookup insert
    is_blank is_space contains
enforce_write-IsAllowedWrite_example =
    enforce_write-IsAllowedWrite same_text closing_policy update "HPD:Help Desk" closing closing
      "solved" refl
