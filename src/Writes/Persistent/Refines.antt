-- ===== src/Writes/Persistent/Refines.antt =====
-- The methods of the persistent store against those of the store in memory.
use helix_mcp_gateway.Prelude.{
  ℕ, ◌≡◌, refl, inl, inr, Bool, true, false, not, Option, none, some, String, if◌then◌else◌,
}
use helix_mcp_gateway.Prelude.Equality.{◌==◌, string_eq}
use helix_mcp_gateway.Prelude.Dict.{lookup}
use helix_mcp_gateway.Prelude.Action.{Result, err, pure, raise}
use helix_mcp_gateway.Errors.{
  Exn, from_write, write_plan_expired, write_plan_state, write_outcome_unknown,
}
use helix_mcp_gateway.Config.{TargetKey, target_key_eq}
use helix_mcp_gateway.Writes.Models.{
  WriteOperation, WritePlanStatus, pending, applying, applied, cancelled, failed, outcome_unknown,
  ApplyWriteResult,
}
use helix_mcp_gateway.Writes.Store
use helix_mcp_gateway.Writes.Store.{
  StoredWritePlan, WritePlanStore, AcquiredWritePlan, acquired_plan, reused, StoreAction,
  clear_payload, mismatched, is_pending, is_applying, public, cleared,
}
use helix_mcp_gateway.Writes.Rows.{Cipher, Row}
use helix_mcp_gateway.Writes.Rows.RoundTrip.{
  IsCipher, IsStorable, HasOwnResult, HasOptionalFields, in_key_order,
}
use helix_mcp_gateway.Writes.Persistent.{
  Table, TableAction, settle, execute, reuse, acquire_by_status, acquire, complete, fail, get,
  cancel,
}
use helix_mcp_gateway.Writes.Persistent.Table.{Holds, Represents}
use helix_mcp_gateway.Prelude.Simulation.{refused, raised, lapsed, returned, Refines, raise_if-Sim}
use helix_mcp_gateway.Writes.Persistent.Sim.{
  Alike, refusal, expiry, HoldsStore, SameColumns, required-Alike, required_unexpired-Alike,
  save-Alike, save_last-Alike,
}

has_cleared_fields : (o : Option _) → HasOptionalFields (cleared o)
unfolding in_key_order
has_cleared_fields none = tt
has_cleared_fields (some values) = (tt, refl)

pub same_columns :
    (p : StoredWritePlan) (st : WritePlanStatus) (r : Option ApplyWriteResult)
    → SameColumns p (clear_payload (record p { status = st; result = r }))
unfolding clear_payload
same_columns p st r = record {
  same_id = refl;
  same_digest = refl;
  same_operation = refl;
  same_target = refl;
  same_expiry = refl;
}

-- A plan without its payload may be stored, with a result of its own.
pub cleared-IsStorable :
    (p : StoredWritePlan) (st : WritePlanStatus) (r : Option ApplyWriteResult)
    → IsStorable p
    → HasOwnResult p.plan_id p.operation p.target.environment p.form r
    → IsStorable (clear_payload (record p { status = st; result = r }))
unfolding clear_payload in_key_order
cleared-IsStorable p st r s own = record {
  has_form = s.has_form;
  has_entry = s.has_entry;
  has_current = has_cleared_fields p.current_values;
  has_proposed = (tt, refl);
  has_precondition = tt;
  has_result = own;
}

applying-IsStorable :
    (p : StoredWritePlan) → IsStorable p → IsStorable (record p { status = applying })
applying-IsStorable p s = record {
  has_form = s.has_form;
  has_entry = s.has_entry;
  has_current = s.has_current;
  has_proposed = s.has_proposed;
  has_precondition = s.has_precondition;
  has_result = s.has_result;
}

settle_raised :
    (C : Cipher) {A : Type 0} (t : Table C) (x : Exn) → settle C {A = A} t (err x, t) ≡ (err x, t)
settle_raised C t (from_write write_plan_expired) = refl
settle_raised C t _ = refl

-- The transaction was refused and changed nothing, or it answered, or raised, as the store in memory
-- does, and the table holds what that store then holds.
abbrev pub RefinesStore :
    (C : Cipher) {A : Type 0}
    → Table C
    → Result Exn A × Table C
    → Result Exn A × WritePlanStore
    → Type 0
RefinesStore C = Refines refusal expiry (HoldsStore C)

module _ (C : Cipher) (law : IsCipher C) (t : Table C) (s : WritePlanStore)
    (rep : Represents C t s.plans) where
  settle-Refines :
      {A : Type 0} (r : Result Exn A × Table C) (r' : Result Exn A × WritePlanStore)
      → Alike C law t s rep r r'
      → RefinesStore C t (settle C t r) r'
  settle-Refines _ _ (refused t' r') = inl refl
  settle-Refines _ _ (raised x) = inr (rw (settle_raised C t x) (refl, rep))
  settle-Refines _ _ (lapsed t' s' r) = inr (refl, r)
  settle-Refines _ _ (returned a t' s' r) = inr (refl, r)

  execute-Refines :
      {A : Type 0} (fails : Bool) (m : TableAction C A) (r' : Result Exn A × WritePlanStore)
      → Alike C law t s rep (m t) r'
      → RefinesStore C t (execute C fails m t) r'
  unfolding execute
  execute-Refines true m r' h = inl refl
  execute-Refines false m r' h = settle-Refines (m t) r' h

  reuse-Alike : (r : Option ApplyWriteResult) → Alike C law t s rep (reuse C r t) (Store.reuse r s)
  unfolding reuse Store.reuse raise pure
  reuse-Alike none = refused t _
  reuse-Alike (some r) = returned (reused (record r { reused_result = true })) t s rep

  by_status-Alike :
      (id nonce : String) (p : StoredWritePlan) (row : Row C) (st : WritePlanStatus)
      → lookup id t ≡ some row
      → Holds C id row p
      → Alike C law t s rep (acquire_by_status C nonce p st t) (Store.acquire_by_status id p st s)
  unfolding acquire_by_status Store.acquire_by_status raise
  by_status-Alike id nonce p row applied e h = reuse-Alike p.result
  by_status-Alike id nonce p row outcome_unknown e h = raised (from_write write_outcome_unknown)
  by_status-Alike id nonce p row pending e h =
      let started = record p { status = applying } in
      save-Alike C law t s rep id nonce row p started (acquired_plan started) e h
        (record {
          same_id = refl;
          same_digest = refl;
          same_operation = refl;
          same_target = refl;
          same_expiry = refl;
        })
        (applying-IsStorable p h.storable)
  by_status-Alike id nonce p row _ e h = raised (from_write write_plan_state)

  -- `acquire` of the persistent store refines that of the store in memory: from a table that holds the
  -- plans of the store in memory, it is refused as a failure of persistence and changes nothing, or it
  -- gives the answer or the error that the store in memory gives, and leaves what that leaves.
  pub acquire-Refines :
      (fails : Bool) (id d : String) (op : WriteOperation) (target : TargetKey) (now : ℕ)
      (nonce : String)
      → RefinesStore C t
          (acquire C fails id d op target now nonce t)
          (Store.acquire id d op target now s)
  unfolding acquire Store.acquire
  acquire-Refines fails id d op target now nonce = execute-Refines fails _ _ (
      required_unexpired-Alike C law t s rep id now _ _ (λ p row found e h.
        raise_if-Sim refusal expiry (HoldsStore C) t s (mismatched p op target d) _ _ _
          (λ matches. by_status-Alike id nonce p row p.status e h)))

  complete-Refines :
      (fails : Bool) (id : String) (result : ApplyWriteResult) (nonce : String)
      → ((p : StoredWritePlan)
          → lookup id s.plans ≡ some p
          → HasOwnResult p.plan_id p.operation p.target.environment p.form (some result))
      → RefinesStore C t (complete C fails id result nonce t) (Store.complete id result s)
  unfolding complete Store.complete
  complete-Refines fails id result nonce own = execute-Refines fails _ _ (
      required-Alike C law t s rep id _ _ (λ p row found e h.
        raise_if-Sim refusal expiry (HoldsStore C) t s (not (is_applying p.status)) _ _ _ (λ is.
          save-Alike C law t s rep id nonce row p
            (clear_payload (record p { status = applied; result = some result })) result e h
            (same_columns p applied (some result))
            (cleared-IsStorable p applied (some result) h.storable (own p found)))))

  fail-Refines :
      (fails : Bool) (id : String) (unknown : Bool) (nonce : String)
      → RefinesStore C t (fail C fails id unknown nonce t) (Store.fail id unknown s)
  unfolding fail Store.fail
  fail-Refines fails id unknown nonce =
      let st = if unknown then outcome_unknown else failed in
      execute-Refines fails _ _ (
        required-Alike C law t s rep id _ _ (λ p row found e h.
          save_last-Alike C law t s rep id nonce row p (clear_payload (record p { status = st })) e
            h (same_columns p st p.result)
            (cleared-IsStorable p st p.result h.storable h.storable.has_result)))

  get-Refines :
      (fails : Bool) (id : String) (target : TargetKey) (now : ℕ)
      → RefinesStore C t (get C fails id target now t) (Store.get id target now s)
  unfolding get Store.get pure
  get-Refines fails id target now = execute-Refines fails _ _ (
      required_unexpired-Alike C law t s rep id now _ _ (λ p row found e h.
        raise_if-Sim refusal expiry (HoldsStore C) t s (not (p.target == target)) _ _ _
          (λ matches. returned (public p) t s rep)))

  cancel-Refines :
      (fails : Bool) (id : String) (target : TargetKey) (now : ℕ) (nonce : String)
      → RefinesStore C t (cancel C fails id target now nonce t) (Store.cancel id target now s)
  unfolding cancel Store.cancel
  cancel-Refines fails id target now nonce = execute-Refines fails _ _ (
      required_unexpired-Alike C law t s rep id now _ _ (λ p row found e h.
        raise_if-Sim refusal expiry (HoldsStore C) t s (not (p.target == target)) _ _ _ (λ matches.
          raise_if-Sim refusal expiry (HoldsStore C) t s (not (is_pending p.status)) _ _ _
            (λ waiting.
              let p' = clear_payload (record p { status = cancelled }) in
              save-Alike C law t s rep id nonce row p p' (public p') e h
                (same_columns p cancelled p.result)
                (cleared-IsStorable p cancelled p.result h.storable h.storable.has_result)))))

  -- The other methods of the persistent store on a plan refine those of the store in memory: from a table
  -- that holds the plans of the store in memory, each of `complete`, for a result of the plan itself,
  -- `fail`, `get` and `cancel` is refused as a failure of persistence and changes nothing, or it gives
  -- the answer or the error that the store in memory gives, and leaves what that leaves.
  pub other_methods-Refines :
      (fails : Bool) (id : String) (result : ApplyWriteResult) (unknown : Bool) (target : TargetKey)
      (now : ℕ) (nonce : String)
      → ((p : StoredWritePlan)
          → lookup id s.plans ≡ some p
          → HasOwnResult p.plan_id p.operation p.target.environment p.form (some result))
      → RefinesStore C t (complete C fails id result nonce t) (Store.complete id result s)
        × RefinesStore C t (fail C fails id unknown nonce t) (Store.fail id unknown s)
        × RefinesStore C t (get C fails id target now t) (Store.get id target now s)
        × RefinesStore C t (cancel C fails id target now nonce t) (Store.cancel id target now s)
  other_methods-Refines fails id result unknown target now nonce own = (
    complete-Refines fails id result nonce own,
    fail-Refines fails id unknown nonce,
    get-Refines fails id target now,
    cancel-Refines fails id target now nonce,
  )
