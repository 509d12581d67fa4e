-- ===== src/Tests/Stored.antt =====
-- The persistent store of SQL plans on concrete inputs.
use helix_mcp_gateway.Prelude.{◌≡◌, refl, Bool, true, false, Option, none, some, [], ◌∷◌, String}
use helix_mcp_gateway.Prelude.Equality.{◌==◌, string_eq}
use helix_mcp_gateway.Prelude.Mirror.{nil, cons}
use helix_mcp_gateway.Prelude.Simulation.{Refines}
use helix_mcp_gateway.Text.{strip, is_space, text_of}
use helix_mcp_gateway.Database.Plans
use helix_mcp_gateway.Database.Plans.{SqlQueryPlanStatus, pending, executing}
use helix_mcp_gateway.Database.Rows.{
  QueryCipher, QueryPayload, query_row_of, query_fits, make_query, normalize_sql,
}
use helix_mcp_gateway.Database.Rows.RoundTrip.{IsQueryCipher, IsNormalized}
use helix_mcp_gateway.Database.Persistent
use helix_mcp_gateway.Database.Persistent.{QueryTable}
use helix_mcp_gateway.Database.Persistent.Steps.{refusal, expiry, HoldsPlans}
use helix_mcp_gateway.Database.Persistent.Refines.{methods-Refines}
use helix_mcp_gateway.Database.Persistent.Recovery.{Restarted, initialize-Restarted}
use helix_mcp_gateway.Tests.Writes.{on_dev}
use helix_mcp_gateway.Tests.Others.{queries, query_plan}

-- A stand-in for the cipher: an envelope that opens for the nonce it was closed with.
abbrev opened : Bool → QueryPayload → Option QueryPayload
opened true payload = some payload
opened false payload = none

abbrev envelope : QueryCipher
envelope = record {
  Ciphertext = String × QueryPayload;
  size = λ payload. 100;
  encrypt = λ nonce payload metadata. (nonce, payload);
  decrypt = λ nonce sealed metadata. opened (nonce == sealed.0) sealed.1;
}

envelope-IsQueryCipher : IsQueryCipher envelope
envelope-IsQueryCipher = record {
  opens = λ nonce payload metadata. rw ((string_eq.reflects nonce nonce).1 refl) refl;
}

query_plan-IsNormalized : (status : SqlQueryPlanStatus) → IsNormalized (query_plan status)
unfolding make_query normalize_sql strip is_space text_of
query_plan-IsNormalized status = refl

query_plan-fits : (status : SqlQueryPlanStatus) → query_fits envelope (query_plan status) ≡ true
unfolding query_fits
query_plan-fits status = refl

abbrev table_with : SqlQueryPlanStatus → QueryTable envelope
table_with status = ("q1", query_row_of envelope "n1" (query_plan status)) ∷ []

table-HoldsPlans :
    (status : SqlQueryPlanStatus) → HoldsPlans envelope (table_with status) (queries status)
table-HoldsPlans status =
    cons "q1" (query_row_of envelope "n1" (query_plan status)) (query_plan status)
      (record {
        nonce = "n1";
        is_row = refl;
        normalized = query_plan-IsNormalized status;
        fitting = query_plan-fits status;
        own_id = refl;
      })
      nil

methods-Refines_example :
    Refines refusal expiry
      (HoldsPlans envelope)
      (table_with pending)
      (Persistent.acquire envelope false "q1" "d1" on_dev 10 "n2" (table_with pending))
      (Plans.acquire "q1" "d1" on_dev 10 (queries pending))
    × Refines refusal expiry
        (HoldsPlans envelope)
        (table_with pending)
        (Persistent.complete envelope false "q1" "n2" (table_with pending))
        (Plans.complete "q1" (queries pending))
    × Refines refusal expiry
        (HoldsPlans envelope)
        (table_with pending)
        (Persistent.fail envelope false "q1" "n2" (table_with pending))
        (Plans.fail "q1" (queries pending))
    × Refines refusal expiry
        (HoldsPlans envelope)
        (table_with pending)
        (Persistent.get envelope false "q1" on_dev 10 11 (table_with pending))
        (Plans.get "q1" on_dev 10 11 (queries pending))
    × Refines refusal expiry
        (HoldsPlans envelope)
        (table_with pending)
        (Persistent.cancel envelope false "q1" on_dev 10 11 "n2" (table_with pending))
        (Plans.cancel "q1" on_dev 10 11 (queries pending))
methods-Refines_example =
    methods-Refines envelope envelope-IsQueryCipher (table_with pending) (queries pending)
      (table-HoldsPlans pending) false "q1" "d1" on_dev 10 11 "n2"

nonce_for : String → String
nonce_for plan_id = "n2"

initialize-Restarted_example :
    Restarted envelope envelope-IsQueryCipher nonce_for
      (table_with executing)
      (queries executing)
      10
      false
      (Persistent.initialize envelope false true 10 nonce_for (table_with executing))
initialize-Restarted_example =
    initialize-Restarted envelope envelope-IsQueryCipher nonce_for (table_with executing)
      (queries executing) 10 false (tt, tt) (table-HoldsPlans executing)
