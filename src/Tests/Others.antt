-- ===== src/Tests/Others.antt =====
-- The validation of policies, the rate limit, the plans of queries and the scanner on concrete
-- inputs.
use helix_mcp_gateway.Prelude.{
  ℕ, String, some, ◌≤◌, ◌≡◌, refl, inr, ◌⊎◌, ◌++◌, arith, All, count_if, true, false, none, List,
  [], ◌∷◌,
}
use helix_mcp_gateway.Prelude.Equality.{string_eq}
use helix_mcp_gateway.Prelude.Dict.{lookup, insert}
use helix_mcp_gateway.Prelude.Action.{ok, ◌>>=◌}
use helix_mcp_gateway.Config.{TargetKey, target_key_beq, environment_beq}
use helix_mcp_gateway.Config.Allowlists.{
  validate_allowlists, first_failing, scope_checks, write_mapping_checks, form_checks,
  mapping_checks, any_sensitive, is_subset, keys_of,
}
use helix_mcp_gateway.Config.Allowlists.Sound.{
  validate_allowlists-Insensitive, validate_allowlists-Governed, IsInsensitive,
}
use helix_mcp_gateway.Text.{contains}
use helix_mcp_gateway.RateLimit.{Event}
use helix_mcp_gateway.RateLimit.Window.{accepted-le-limit, in_window, accepted}
use helix_mcp_gateway.RateLimit.Rows.{times_for}
use helix_mcp_gateway.RateLimit.Shared.{
  answers_shared-eq-in_memory, answers_shared, answers_in_memory,
}
use helix_mcp_gateway.Database.Plans.{
  SqlQueryPlanStatus, QueryContent, pending, executing, executed, StoredSqlQueryPlan,
  SqlQueryPlanStore, required, required_unexpired, acquire, complete, save,
}
use helix_mcp_gateway.Database.Plans.Retry.{executed-IsSpent}
use helix_mcp_gateway.Database.Plans.Calls.{Call, acquires, fails, run}
use helix_mcp_gateway.Database.Plans.Spent.{any_draws, draws}
use helix_mcp_gateway.Forms.Qualification.{referenced_fields}
use helix_mcp_gateway.Forms.Qualification.Quoting.{
  Piece, reference, literal, other, write, referenced_fields-write, referenced_fields-ran_out,
  ran_out,
}
use helix_mcp_gateway.Tests.Writes.{same_text, on_dev, closing_policy}

closing_policy_is_valid : validate_allowlists same_text closing_policy ≡ none
unfolding validate_allowlists first_failing scope_checks write_mapping_checks form_checks
    mapping_checks any_sensitive contains
closing_policy_is_valid = refl

validate_allowlists-Insensitive_example :
    All (IsInsensitive same_text closing_policy) ("Status" ∷ "Summary" ∷ [])
unfolding lookup
validate_allowlists-Insensitive_example =
    validate_allowlists-Insensitive same_text closing_policy closing_policy_is_valid "HPD:Help Desk"
      (inr (inr refl))

validate_allowlists-Governed_example :
    (true ≡ true)
    × (true ≡ true)
    × ((false ≡ true)
        ⊎ (is_subset closing_policy.writable_forms (
              keys_of closing_policy.creatable_fields_by_form
              ++ closing_policy.allow_all_creatable_fields_for_forms)
            ≡ true))
validate_allowlists-Governed_example =
    validate_allowlists-Governed same_text closing_policy closing_policy_is_valid refl

abbrev three_times : List ℕ
three_times = 1 ∷ 2 ∷ 70000000 ∷ []

accepted-le-limit_example : count_if (in_window 1) (accepted 1 [] three_times []) ≤ 1
accepted-le-limit_example =
    accepted-le-limit 1 three_times 1 (omega arith, (omega arith, (omega arith, tt)))

abbrev three_calls : List (TargetKey × ℕ × ℕ)
three_calls = (on_dev, 1, 1) ∷ (on_dev, 1, 2) ∷ (on_dev, 1, 70000000) ∷ []

abbrev form_rows : List Event
form_rows = record { scope = "forms"; target = "helix.dev"; occurred_at = 1 } ∷ []

answers_shared-eq-in_memory_example :
    answers_shared "writes" form_rows three_calls
    ≡ answers_in_memory (record { events = [] }) three_calls
unfolding times_for
answers_shared-eq-in_memory_example =
    answers_shared-eq-in_memory "writes" form_rows three_calls (λ k. refl)
      (omega arith, (omega arith, (omega arith, tt)))

abbrev pub query_plan : SqlQueryPlanStatus → StoredSqlQueryPlan
query_plan status = record {
  plan_id = "q1";
  plan_digest = "d1";
  target = on_dev;
  query = record { sql = "SELECT 1 AS one"; limit = 5 };
  expires_at = 900;
  status = status;
}

abbrev pub queries : SqlQueryPlanStatus → SqlQueryPlanStore
queries status = record { ttl = 900; max_pending = 2; plans = ("q1", query_plan status) ∷ [] }

pub query_is_acquired :
    acquire "q1" "d1" on_dev 10 (queries pending) ≡ (ok (query_plan executing), queries executing)
unfolding acquire required_unexpired required save ◌>>=◌ lookup insert target_key_beq
    environment_beq
query_is_acquired = refl

abbrev content_sql : QueryContent → String
content_sql content = content.sql

-- A call that fails, since the plan is executed, and one that refuses to give it out again.
abbrev later_calls : List Call
later_calls = fails "q1" ∷ acquires "q1" "d1" on_dev 15 ∷ []

none_draws : any_draws "q1" later_calls ≡ false
unfolding any_draws draws
none_draws = refl

executed-IsSpent_example :
    ((complete "q1" (queries executing)).0 ≡ ok tt)
    × (lookup "q1" (complete "q1" (queries executing)).1.plans ≡ some (query_plan executed))
    × ¬ (
        acquire "q1" "d1" on_dev 20
          (run content_sql later_calls (complete "q1" (queries executing)).1)
        ≡ (ok (query_plan executing), queries executing))
executed-IsSpent_example =
    executed-IsSpent content_sql "q1" "d1" on_dev 10 (queries pending) later_calls "d1" on_dev 20
      (query_plan executing) (queries executing) query_is_acquired none_draws

-- The qualification `'a''b' ="it's" `.
abbrev pieces : List Piece
pieces = reference (97 ∷ 39 ∷ 98 ∷ []) ∷ other 61 ∷ literal (105 ∷ 39 ∷ 115 ∷ []) ∷ []

referenced_fields-write_example : referenced_fields (write pieces) ≡ ok ((97 ∷ 39 ∷ 98 ∷ []) ∷ [])
referenced_fields-write_example = referenced_fields-write pieces (refl, (refl, (tt, tt)))

referenced_fields-ran_out_example : ran_out (referenced_fields (39 ∷ 97 ∷ [])) ≡ false
referenced_fields-ran_out_example = referenced_fields-ran_out (39 ∷ 97 ∷ [])
