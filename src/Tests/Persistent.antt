-- ===== src/Tests/Persistent.antt =====
-- The persistent store of plans on concrete inputs.
use helix_mcp_gateway.Prelude.{
  ◌≡◌, refl, ap, subst, Bool, true, false, Option, none, some, [], ◌∷◌, String,
}
use helix_mcp_gateway.Prelude.Equality.{◌==◌, string_eq}
use helix_mcp_gateway.Prelude.Dict.{lookup}
use helix_mcp_gateway.Prelude.Action.{ok}
use helix_mcp_gateway.Writes.Models.{
  WritePlanStatus, pending, applying, applied, update, ApplyWriteResult,
}
use helix_mcp_gateway.Writes.Store
use helix_mcp_gateway.Writes.Store.{StoredWritePlan, new_plan, digest}
use helix_mcp_gateway.Writes.Rows.{Cipher, Payload, row_of, fits, decode}
use helix_mcp_gateway.Writes.Rows.RoundTrip.{
  IsCipher, IsStorable, HasOwnResult, in_key_order, decode-row_of,
}
use helix_mcp_gateway.Writes.Persistent
use helix_mcp_gateway.Writes.Persistent.{Table, purge_expired}
use helix_mcp_gateway.Prelude.Mirror.{nil, cons}
use helix_mcp_gateway.Writes.Persistent.Table.{Represents}
use helix_mcp_gateway.Writes.Persistent.Refines.{
  RefinesStore, acquire-Refines, other_methods-Refines,
}
use helix_mcp_gateway.Writes.Persistent.Creates.{CreateRefines, create-Refines}
use helix_mcp_gateway.Writes.Persistent.Recovery.{initialize-Recovers, LostFit, Recovered}
use helix_mcp_gateway.Tests.Writes.{
  on_dev, close_request, close_plan, holding, empty_store, reason_of,
}

-- A stand-in for the cipher: an envelope that opens for the nonce it was closed with.
abbrev opened : Bool → Payload → Option Payload
opened true payload = some payload
opened false payload = none

abbrev envelope : Cipher
envelope = record {
  Ciphertext = String × Payload;
  size = λ payload. 100;
  encrypt = λ nonce payload metadata. (nonce, payload);
  decrypt = λ nonce sealed metadata. opened (nonce == sealed.0) sealed.1;
}

envelope-IsCipher : IsCipher envelope
envelope-IsCipher = record {
  decrypts =
      λ nonce payload metadata keys objects. rw ((string_eq.reflects nonce nonce).1 refl) refl;
}

close_plan-IsStorable : (status : WritePlanStatus) → IsStorable (close_plan status)
unfolding in_key_order
close_plan-IsStorable status = record {
  has_form = refl;
  has_entry = refl;
  has_current = ((refl, tt), refl);
  has_proposed = ((refl, tt), refl);
  has_precondition = refl;
  has_result = tt;
}

abbrev table_with : WritePlanStatus → Table envelope
table_with status = ("p1", row_of envelope "n1" (close_plan status)) ∷ []

close_plan-fits : (status : WritePlanStatus) → fits envelope (close_plan status) ≡ true
unfolding fits
close_plan-fits status = refl

table-Represents :
    (status : WritePlanStatus) → Represents envelope (table_with status) (holding status).plans
table-Represents status =
    cons "p1" (row_of envelope "n1" (close_plan status)) (close_plan status)
      (record {
        nonce = "n1";
        is_row = refl;
        storable = close_plan-IsStorable status;
        fitting = close_plan-fits status;
        own_id = refl;
      })
      nil

decode-row_of_example :
    decode envelope (row_of envelope "n1" (close_plan pending)) ≡ ok (close_plan pending)
decode-row_of_example =
    decode-row_of envelope envelope-IsCipher "n1" (close_plan pending)
      (close_plan-IsStorable pending) (close_plan-fits pending)

acquire-Refines_example :
    RefinesStore envelope
      (table_with pending)
      (Persistent.acquire envelope false "p1" "solved" update on_dev 10 "n2" (table_with pending))
      (Store.acquire "p1" "solved" update on_dev 10 (holding pending))
acquire-Refines_example =
    acquire-Refines envelope envelope-IsCipher (table_with pending) (holding pending)
      (table-Represents pending) false "p1" "solved" update on_dev 10 "n2"

abbrev closed_result : ApplyWriteResult
closed_result = record {
  plan_id = "p1";
  operation = update;
  environment = on_dev.environment;
  form = "HPD:Help Desk";
  status = applied;
  entry_id = some "INC1";
  reused_result = false;
}

own_result :
    (p : StoredWritePlan)
    → lookup "p1" (holding applying).plans ≡ some p
    → HasOwnResult p.plan_id p.operation p.target.environment p.form (some closed_result)
unfolding lookup
own_result p e =
    subst (λ q. HasOwnResult q.plan_id q.operation q.target.environment q.form (some closed_result))
      (ap (λ o. elim o [ none ↦ close_plan applying | some q ↦ q ]) e) (refl, refl)

other_methods-Refines_example :
    RefinesStore envelope
      (table_with applying)
      (Persistent.complete envelope false "p1" closed_result "n2" (table_with applying))
      (Store.complete "p1" closed_result (holding applying))
    × RefinesStore envelope
        (table_with applying)
        (Persistent.fail envelope false "p1" true "n2" (table_with applying))
        (Store.fail "p1" true (holding applying))
    × RefinesStore envelope
        (table_with applying)
        (Persistent.get envelope false "p1" on_dev 10 (table_with applying))
        (Store.get "p1" on_dev 10 (holding applying))
    × RefinesStore envelope
        (table_with applying)
        (Persistent.cancel envelope false "p1" on_dev 10 "n2" (table_with applying))
        (Store.cancel "p1" on_dev 10 (holding applying))
other_methods-Refines_example =
    other_methods-Refines envelope envelope-IsCipher (table_with applying) (holding applying)
      (table-Represents applying) false "p1" closed_result true on_dev 10 "n2" own_result

new_close_plan-IsStorable : IsStorable (new_plan reason_of close_request "p1" 905)
unfolding new_plan digest
new_close_plan-IsStorable = close_plan-IsStorable pending

create-Refines_example :
    CreateRefines envelope [] empty_store reason_of close_request "p1" "n1" 5 5
      (Persistent.create envelope false reason_of close_request 900 2 "p1" "n1" 5 5 [])
create-Refines_example =
    create-Refines envelope [] empty_store false reason_of close_request "p1" "n1" 5 5 nil
      new_close_plan-IsStorable

nonce_for : String → String
nonce_for plan_id = "n2"

lost_plan_fits : LostFit envelope (holding applying).plans
unfolding fits
lost_plan_fits = (λ due. refl, tt)

initialize-Recovers_example :
    Recovered envelope envelope-IsCipher nonce_for
      (table_with applying)
      (holding applying)
      10
      false
      (Persistent.initialize envelope false true 10 nonce_for (table_with applying))
initialize-Recovers_example =
    initialize-Recovers envelope envelope-IsCipher nonce_for (table_with applying)
      (holding applying) 10 false (tt, tt) (table-Represents applying) lost_plan_fits
