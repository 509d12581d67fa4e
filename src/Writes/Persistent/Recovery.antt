-- ===== src/Writes/Persistent/Recovery.antt =====
-- What the persistent store of src/helix_mcp/services/writes/persistent_store.py does at a restart with
-- the writes that were interrupted.
use mathlib.Core.Path.{fun_ext}
use helix_mcp_gateway.Prelude.{
  ℕ, ◌≡◌, refl, sym, ap, ◌∙◌, ◌≢◌, All, Bool, true, false, some, List, [], ◌∷◌, String, leb,
}
use helix_mcp_gateway.Prelude.Equality.{◌==◌, string_eq}
use helix_mcp_gateway.Prelude.Dict.{lookup, insert, keys_where}
use helix_mcp_gateway.Prelude.Action.{Result, ok, err, lift, ◌>>=◌, ◌>>◌, bind_ok, bind_assoc}
use helix_mcp_gateway.Prelude.Keyed.{IsKeyed, IsKeyed-erase_all}
use helix_mcp_gateway.Prelude.Restart.{due_rows, change_due, run_rows, run_rows-all}
use helix_mcp_gateway.Prelude.Mirror.{Mirrors, nil, cons, map-Mirrors, purge-Mirrors}
use helix_mcp_gateway.Errors.{Exn, assertion_failed}
use helix_mcp_gateway.Writes.Models.{
  WritePlanStatus, pending, applying, applied, cancelled, failed, outcome_unknown,
}
use helix_mcp_gateway.Writes.Store
use helix_mcp_gateway.Writes.Store.{StoredWritePlan, WritePlanStore, clear_payload, is_applying}
use helix_mcp_gateway.Writes.Rows.{Cipher, Row, row_of, fits, decode, status_text}
use helix_mcp_gateway.Writes.Rows.RoundTrip.{IsCipher, decode-row_of}
use helix_mcp_gateway.Writes.Persistent.{
  Table, TableAction, save, recover_rows, applying_rows, initialize, execute, settle, purge_expired,
}
use helix_mcp_gateway.Writes.Persistent.Table.{Plans, Holds, Represents}
use helix_mcp_gateway.Writes.Persistent.Sim.{refusal, save_fitting}
use helix_mcp_gateway.Writes.Persistent.Refines.{same_columns, cleared-IsStorable}

status_applying : (st : WritePlanStatus) → (status_text st == "applying") ≡ is_applying st
unfolding status_text
status_applying pending = refl
status_applying applying = refl
status_applying applied = refl
status_applying cancelled = refl
status_applying failed = refl
status_applying outcome_unknown = refl

-- A plan whose outcome is not known, without its payload.
abbrev pub lost : StoredWritePlan → StoredWritePlan
lost p = clear_payload (record p { status = outcome_unknown })

abbrev pub was_applying : StoredWritePlan → Bool
was_applying p = is_applying p.status

lost_not_applying : (p : StoredWritePlan) → was_applying (lost p) ≡ false
unfolding clear_payload
lost_not_applying p = refl

-- The plans after a restart: those that were applying are lost.
abbrev pub all_after_restart : Plans → Plans
all_after_restart = change_due was_applying lost

module _ (C : Cipher) (nonce_for : String → String) where
  abbrev row_is_applying : Row C → Bool
  row_is_applying row = row.status == "applying"

  -- The body of the loop.
  abbrev recover_row : Row C → TableAction C (Unit {0})
  recover_row row = lift (decode C row) >>= λ plan. save C (nonce_for plan.plan_id) (lost plan)

  applying_rows-due : (t : Table C) → applying_rows C t ≡ due_rows row_is_applying t
  applying_rows-due [] = refl
  applying_rows-due ((k, row) ∷ t) = rw (applying_rows-due t) refl

  recover_rows-run :
      (rows : List (Row C)) → recover_rows C rows nonce_for ≡ run_rows recover_row rows
  unfolding recover_rows run_rows
  recover_rows-run [] = refl
  recover_rows-run (row ∷ rows) =
      ap
        (λ rest.
          lift (decode C row) >>= λ plan. (save C (nonce_for plan.plan_id) (lost plan) >> rest))
        (recover_rows-run rows)
      ∙ fun_ext (λ t. sym (
          bind_assoc (λ plan. save C (nonce_for plan.plan_id) (lost plan))
            (λ _. run_rows recover_row rows) (lift (decode C row)) t))

-- The row is that of the plan, and if the plan is lost at a restart, what is left of it fits too.
abbrev HoldsFitting : (C : Cipher) → String → Row C → StoredWritePlan → Type 0
HoldsFitting C k row p = Holds C k row p × (was_applying p ≡ true → fits C (lost p) ≡ true)

-- What is left of the plans that were applying fits into a row.
abbrev pub LostFit : Cipher → Plans → Type 0
LostFit C plans = All (λ entry. was_applying entry.1 ≡ true → fits C (lost entry.1) ≡ true) plans

rows_fitting :
    (C : Cipher) {t : Table C} {d : Plans}
    → Represents C t d
    → LostFit C d
    → Mirrors (HoldsFitting C) t d
rows_fitting C nil fit = nil
rows_fitting C (cons k row p h m) fit = cons k row p (h, fit.0) (rows_fitting C m fit.1)

module _ (C : Cipher) (law : IsCipher C) (nonce_for : String → String) where
  applying_agrees :
      (k : String) (row : Row C) (p : StoredWritePlan)
      → HoldsFitting C k row p
      → row_is_applying C nonce_for row ≡ was_applying p
  unfolding row_of
  applying_agrees k row p h = rw h.0.is_row (status_applying p.status)

  recovered_row :
      (k : String) (row : Row C) (p : StoredWritePlan) (t : Table C)
      → HoldsFitting C k row p
      → was_applying p ≡ true
      → lookup k t ≡ some row
      → (row' : Row C) × HoldsFitting C k row' (lost p)
        × (recover_row C nonce_for row t ≡ (ok tt, insert k row' t))
  unfolding lift
  recovered_row k row p t (h, fit) due found =
      let read : decode C row ≡ ok p =
        rw h.is_row (decode-row_of C law h.nonce p h.storable h.fitting) in
      let step =
        bind_ok (lift (decode C row)) (λ plan. save C (nonce_for plan.plan_id) (lost plan)) t p t
          (ap (λ r. (r, t)) read) in
      let (row', held, saves) =
        save_fitting C t k (nonce_for p.plan_id) row p (lost p) found h
          (same_columns p outcome_unknown p.result)
          (cleared-IsStorable p outcome_unknown p.result h.storable h.storable.has_result)
          (fit due) in
      (row', (held, λ again. absurd (cc (lost_not_applying p, again))), step ∙ saves)

refusal-distinct : refusal ≢ assertion_failed
refusal-distinct h = cc h

module _ (C : Cipher) (law : IsCipher C) (nonce_for : String → String) (t : Table C)
    (s : WritePlanStore) (now : ℕ) where
  abbrev kept : Table C
  kept = purge_expired C now t

  kept-IsKeyed : IsKeyed t → IsKeyed kept
  unfolding purge_expired
  kept-IsKeyed keyed =
      IsKeyed-erase_all (keys_where (λ (row : Row C). leb row.expires_at now) t) t keyed

  kept-Mirrors :
      Mirrors (HoldsFitting C) t s.plans
      → Mirrors (HoldsFitting C) kept (Store.purge_expired now s).plans
  unfolding purge_expired Store.purge_expired row_of
  kept-Mirrors m =
      purge-Mirrors (HoldsFitting C) (λ row. leb row.expires_at now) (λ p. leb p.expires_at now)
        (λ k row p h. rw h.0.is_row refl) m

  -- Where SQLite fails, the start is refused as a failure of persistence, with the table as it was. Where
  -- it does not, the table holds the plans that had not expired, after the restart.
  abbrev pub Recovered : Bool → Result Exn (Unit {0}) × Table C → Type 0
  Recovered true r = r ≡ (err refusal, t)
  Recovered false r =
      (r.0 ≡ ok tt) × Represents C r.1 (all_after_restart (Store.purge_expired now s).plans)

  initialized :
      initialize C false true now nonce_for t
      ≡ settle C t (recover_rows C (applying_rows C kept) nonce_for kept)
  unfolding initialize execute ◌>>=◌
  initialized = refl

  loop-Recovered :
      (r : Result Exn (Unit {0}) × Table C) (t' : Table C)
      → r ≡ (ok tt, t')
      → Mirrors (HoldsFitting C) t' (all_after_restart (Store.purge_expired now s).plans)
      → Recovered false (settle C t r)
  loop-Recovered r t' e m = rw e (refl, map-Mirrors (λ k row p h. h.0) m)

  -- From a table with unique keys that holds the plans of a store, where what is left of an interrupted
  -- plan fits into a row: `_initialize` succeeds unless SQLite fails. Then the plans that have expired are
  -- dropped, and the table holds every other plan as it was, but those that were applying without their
  -- payload and of unknown outcome. Where SQLite fails nothing is changed.
  pub initialize-Recovers :
      (fails : Bool)
      → IsKeyed t
      → Represents C t s.plans
      → LostFit C s.plans
      → Recovered fails (initialize C fails true now nonce_for t)
  unfolding initialize execute
  initialize-Recovers true keyed rep fit = refl
  initialize-Recovers false keyed rep fit =
      let (t', e, m) =
        run_rows-all refusal assertion_failed refusal-distinct (HoldsFitting C)
          (row_is_applying C nonce_for) was_applying (applying_agrees C law nonce_for) lost
          (recover_row C nonce_for) (recovered_row C law nonce_for)
          (kept-Mirrors (rows_fitting C rep fit)) (kept-IsKeyed keyed) in
      rw
        (
          initialized,
          applying_rows-due C nonce_for kept,
          recover_rows-run C nonce_for (due_rows (row_is_applying C nonce_for) kept),
        )
        (loop-Recovered
          (run_rows (recover_row C nonce_for) (due_rows (row_is_applying C nonce_for) kept) kept) t'
          e m)
