-- ===== src/Database/Persistent/Recovery.antt =====
-- What the store of src/helix_mcp/services/database/persistent_plans.py does at a restart with the plans
-- whose execution was interrupted.
use mathlib.Core.Path.{fun_ext}
use helix_mcp_gateway.Prelude.{
  ℕ, ◌≡◌, ◌≢◌, refl, sym, ap, ◌∙◌, Bool, true, false, some, List, [], ◌∷◌, String, leb,
}
use helix_mcp_gateway.Prelude.Equality.{◌==◌, string_eq}
use helix_mcp_gateway.Prelude.Dict.{lookup, insert, keys_where}
use helix_mcp_gateway.Prelude.Action.{Result, ok, err, lift, ◌>>=◌, ◌>>◌, bind_ok, bind_assoc}
use helix_mcp_gateway.Prelude.Keyed.{IsKeyed, IsKeyed-erase_all}
use helix_mcp_gateway.Prelude.Mirror.{Mirrors, purge-Mirrors}
use helix_mcp_gateway.Prelude.Restart.{due_rows, change_due, run_rows, run_rows-all}
use helix_mcp_gateway.Errors.{Exn, assertion_failed}
use helix_mcp_gateway.Database.Plans
use helix_mcp_gateway.Database.Plans.{
  SqlQueryPlanStatus, pending, executing, executed, cancelled, failed, StoredSqlQueryPlan,
  SqlQueryPlanStore, is_executing,
}
use helix_mcp_gateway.Database.Rows.{QueryCipher, QueryRow, query_row_of, decode_query, status_text}
use helix_mcp_gateway.Database.Rows.RoundTrip.{IsQueryCipher, decode_query-query_row_of}
use helix_mcp_gateway.Database.Persistent.{
  QueryTable, TableAction, save, recover_rows, executing_rows, initialize, execute, settle,
  purge_expired,
}
use helix_mcp_gateway.Database.Persistent.Steps.{refusal, HoldsQuery, HoldsPlans, save_status}

status_executing : (st : SqlQueryPlanStatus) → (status_text st == "executing") ≡ is_executing st
unfolding status_text
status_executing pending = refl
status_executing executing = refl
status_executing executed = refl
status_executing cancelled = refl
status_executing failed = refl

-- A plan that may be handed out again.
abbrev pub pending_again : StoredSqlQueryPlan → StoredSqlQueryPlan
pending_again p = record p { status = pending }

abbrev pub was_executing : StoredSqlQueryPlan → Bool
was_executing p = is_executing p.status

module _ (C : QueryCipher) (nonce_for : String → String) where
  abbrev row_is_executing : QueryRow C → Bool
  row_is_executing row = row.status == "executing"

  -- The body of the loop.
  abbrev recover_row : QueryRow C → TableAction C (Unit {0})
  recover_row row =
      lift (decode_query C row) >>= λ plan. save C (nonce_for plan.plan_id) (pending_again plan)

  executing_rows-due : (t : QueryTable C) → executing_rows C t ≡ due_rows row_is_executing t
  executing_rows-due [] = refl
  executing_rows-due ((k, row) ∷ t) = rw (executing_rows-due t) refl

  recover_rows-run :
      (rows : List (QueryRow C)) → recover_rows C rows nonce_for ≡ run_rows recover_row rows
  unfolding recover_rows run_rows
  recover_rows-run [] = refl
  recover_rows-run (row ∷ rows) =
      ap
        (λ rest. lift (decode_query C row) >>= λ plan.
          (save C (nonce_for plan.plan_id) (pending_again plan) >> rest))
        (recover_rows-run rows)
      ∙ fun_ext (λ t. sym (
          bind_assoc (λ plan. save C (nonce_for plan.plan_id) (pending_again plan))
            (λ _. run_rows recover_row rows) (lift (decode_query C row)) t))

module _ (C : QueryCipher) (law : IsQueryCipher C) (nonce_for : String → String) where
  executing_agrees :
      (k : String) (row : QueryRow C) (p : StoredSqlQueryPlan)
      → HoldsQuery C k row p
      → row_is_executing C nonce_for row ≡ was_executing p
  unfolding query_row_of
  executing_agrees k row p h = rw h.is_row (status_executing p.status)

  recovered_row :
      (k : String) (row : QueryRow C) (p : StoredSqlQueryPlan) (t : QueryTable C)
      → HoldsQuery C k row p
      → was_executing p ≡ true
      → lookup k t ≡ some row
      → (row' : QueryRow C) × HoldsQuery C k row' (pending_again p)
        × (recover_row C nonce_for row t ≡ (ok tt, insert k row' t))
  unfolding lift
  recovered_row k row p t h due found =
      let read : decode_query C row ≡ ok p =
        rw h.is_row (decode_query-query_row_of C law h.nonce p h.normalized h.fitting) in
      let step =
        bind_ok (lift (decode_query C row))
          (λ plan. save C (nonce_for plan.plan_id) (pending_again plan)) t p t
          (ap (λ r. (r, t)) read) in
      let (row', held, saves) = save_status C t k (nonce_for p.plan_id) row p pending found h in
      (row', held, step ∙ saves)

refusal-distinct : refusal ≢ assertion_failed
refusal-distinct h = cc h

module _ (C : QueryCipher) (law : IsQueryCipher C) (nonce_for : String → String) (t : QueryTable C)
    (s : SqlQueryPlanStore) (now : ℕ) where
  abbrev kept : QueryTable C
  kept = purge_expired C now t

  kept-Mirrors : HoldsPlans C t s → Mirrors (HoldsQuery C) kept (Plans.purge_expired now s).plans
  unfolding purge_expired Plans.purge_expired query_row_of
  kept-Mirrors rep =
      purge-Mirrors (HoldsQuery C) (λ row. leb row.expires_at now) (λ p. leb p.expires_at now)
        (λ k row p h. rw h.is_row refl) rep

  kept-IsKeyed : IsKeyed t → IsKeyed kept
  unfolding purge_expired
  kept-IsKeyed keyed =
      IsKeyed-erase_all (keys_where (λ (row : QueryRow C). leb row.expires_at now) t) t keyed

  -- Where SQLite fails, the start is refused as a failure of persistence, with the table as it was. Where
  -- it does not, the table holds the plans that had not expired, after the restart.
  abbrev pub Restarted : Bool → Result Exn (Unit {0}) × QueryTable C → Type 0
  Restarted true r = r ≡ (err refusal, t)
  Restarted false r =
      (r.0 ≡ ok tt)
      × Mirrors (HoldsQuery C) r.1
          (change_due was_executing pending_again (Plans.purge_expired now s).plans)

  loop-Restarted :
      (r : Result Exn (Unit {0}) × QueryTable C) (t' : QueryTable C)
      → r ≡ (ok tt, t')
      → Mirrors
          (HoldsQuery C)
          t'
          (change_due was_executing pending_again (Plans.purge_expired now s).plans)
      → Restarted false (settle C t r)
  loop-Restarted r t' e m = rw e (refl, m)

  initialized :
      initialize C false true now nonce_for t
      ≡ settle C t (recover_rows C (executing_rows C kept) nonce_for kept)
  unfolding initialize execute ◌>>=◌
  initialized = refl

  -- From a table with unique keys that holds the plans of a store: `_initialize` of the store of SQL plans
  -- succeeds unless SQLite fails. Then the plans that have expired are dropped, and the table holds every
  -- other plan as it was, but those that were executing are pending again. Where SQLite fails nothing is
  -- changed.
  pub initialize-Restarted :
      (fails : Bool)
      → IsKeyed t
      → HoldsPlans C t s
      → Restarted fails (initialize C fails true now nonce_for t)
  unfolding initialize execute
  initialize-Restarted true keyed rep = refl
  initialize-Restarted false keyed rep =
      let (t', e, m) =
        run_rows-all refusal assertion_failed refusal-distinct (HoldsQuery C)
          (row_is_executing C nonce_for) was_executing (executing_agrees C law nonce_for)
          pending_again (recover_row C nonce_for) (recovered_row C law nonce_for) (kept-Mirrors rep)
          (kept-IsKeyed keyed) in
      rw
        (
          initialized,
          executing_rows-due C nonce_for kept,
          recover_rows-run C nonce_for (due_rows (row_is_executing C nonce_for) kept),
        )
        (loop-Restarted
          (run_rows (recover_row C nonce_for) (due_rows (row_is_executing C nonce_for) kept) kept)
          t' e m)
