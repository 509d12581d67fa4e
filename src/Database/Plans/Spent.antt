-- ===== src/Database/Plans/Spent.antt =====
-- What the calls of the store of src/helix_mcp/services/database/plans.py leave of a query that was
-- executed.
use helix_mcp_gateway.Prelude.{
  ℕ, ◌≡◌, ◌≢◌, refl, ap, inl, inr, ◌||◌, Bool, true, false, none, some, List, [], ◌∷◌, String,
  arith, leb, Bool-cases, Option-cases,
}
use helix_mcp_gateway.Prelude.Equality.{◌==◌, string_eq}
use helix_mcp_gateway.Prelude.Dict.{
  lookup, insert, erase, keys_where, count_values, lookup-insert, lookup-erase, lookup-erase_all,
}
use helix_mcp_gateway.Prelude.Action.{◌>>=◌}
use helix_mcp_gateway.Config.{TargetKey, target_key_eq}
use helix_mcp_gateway.Database.Plans.{
  StoredSqlQueryPlan, SqlQueryPlanStore, SqlQueryPlanStatus, DatabaseQuery, QueryContent, executed,
  required, required_unexpired, acquire, complete, fail, set_status, save, get, cancel, create,
  pending, executing, cancelled, is_pending, is_executing, purge_expired, mismatched,
  counts_as_pending,
}
use helix_mcp_gateway.Database.Plans.Calls.{
  Call, creates, acquires, completes, fails, gets, cancels, after_call, run,
}

abbrev is_executed : SqlQueryPlanStatus → Bool
is_executed executed = true
is_executed _ = false

-- Nothing stands under the identifier but a query that was executed.
abbrev pub spent : String → SqlQueryPlanStore → Bool
spent id s = elim (lookup id s.plans) [ none ↦ true | some p ↦ is_executed p.status ]

-- Whether a call draws the identifier for a new plan.
unfoldable pub draws : String → Call → Bool
draws id (creates target query plan_id purged_at created_at shown_at) = plan_id == id
draws id _ = false

unfoldable pub any_draws : String → List Call → Bool
unfolding draws
any_draws id [] = false
any_draws id (call ∷ calls) = draws id call || any_draws id calls

module _ (id : String) (s : SqlQueryPlanStore) (gone : spent id s ≡ true) where
  insert_other-spent :
      (j : String) (q : StoredSqlQueryPlan)
      → (j == id) ≡ false
      → spent id (record s { plans = insert j q s.plans }) ≡ true
  insert_other-spent j q differs = ground (arith, differs, gone, lookup-insert j id q s.plans)

  insert-spent :
      (j : String) (p q : StoredSqlQueryPlan)
      → lookup j s.plans ≡ some p
      → is_executed p.status ≡ false
      → spent id (record s { plans = insert j q s.plans }) ≡ true
  insert-spent j p q e open_plan = elim (Bool-cases (j == id)) [
    | inl same ↦
        let found : lookup id s.plans ≡ some p = rw (← (string_eq.reflects j id).0 same) e in
        absurd (ground (arith, gone, found, open_plan))
    | inr differs ↦ insert_other-spent j q differs
  ]

  erase-spent : (j : String) → spent id (record s { plans = erase j s.plans }) ≡ true
  erase-spent j = ground (arith, gone, lookup-erase j id s.plans)

  purge-spent : (now : ℕ) → spent id (purge_expired now s) ≡ true
  unfolding purge_expired
  purge-spent now =
      let expired = keys_where (λ (p : StoredSqlQueryPlan). leb p.expires_at now) s.plans in
      ground (arith, gone, lookup-erase_all expired id s.plans)

pending-open : (st : SqlQueryPlanStatus) → is_pending st ≡ true → is_executed st ≡ false
pending-open executed h = absurd (cc h)
pending-open _ h = refl

executing-open : (st : SqlQueryPlanStatus) → is_executing st ≡ true → is_executed st ≡ false
executing-open executed h = absurd (cc h)
executing-open _ h = refl

module _ (id : String) (s : SqlQueryPlanStore) (gone : spent id s ≡ true) where
  set_status-spent : (j : String) (st : SqlQueryPlanStatus) → spent id (set_status j st s).1 ≡ true
  unfolding set_status required save ◌>>=◌
  set_status-spent j st = elim (Option-cases (lookup j s.plans)) [
    | inl e ↦ rw e gone
    | inr (p, e) ↦ elim (Bool-cases (is_executing p.status)) [
      | inl x ↦
          rw (e, x)
            (insert-spent id s gone j p (record p { status = st }) e (executing-open p.status x))
      | inr x ↦ rw (e, x) gone
    ]
  ]

  fail-spent : (j : String) → spent id (fail j s).1 ≡ true
  unfolding fail set_status
  fail-spent j = set_status-spent j pending

  acquire-spent : (j d : String) (t : TargetKey) (now : ℕ) → spent id (acquire j d t now s).1 ≡ true
  unfolding acquire required_unexpired required save ◌>>=◌
  acquire-spent j d t now = elim (Option-cases (lookup j s.plans)) [
    | inl e ↦ rw e gone
    | inr (p, e) ↦ elim (Bool-cases (leb p.expires_at now)) [
      | inl old ↦ rw (e, old) (erase-spent id s gone j)
      | inr fresh ↦ elim (Bool-cases (mismatched p t d)) [
        | inl other ↦ rw (e, fresh, other) gone
        | inr same ↦ elim (Bool-cases (is_pending p.status)) [
          | inl x ↦
              rw (e, fresh, same, x)
                (insert-spent id s gone j p (record p { status = executing }) e
                  (pending-open p.status x))
          | inr x ↦ rw (e, fresh, same, x) gone
        ]
      ]
    ]
  ]

  get-spent :
      (j : String) (t : TargetKey) (checked_at shown_at : ℕ)
      → spent id (get j t checked_at shown_at s).1 ≡ true
  unfolding get required_unexpired required ◌>>=◌
  get-spent j t checked_at shown_at = elim (Option-cases (lookup j s.plans)) [
    | inl e ↦ rw e gone
    | inr (p, e) ↦ elim (Bool-cases (leb p.expires_at checked_at)) [
      | inl old ↦ rw (e, old) (erase-spent id s gone j)
      | inr fresh ↦ elim (Bool-cases (p.target == t)) [
        | inl same ↦ rw (e, fresh, same) gone
        | inr other ↦ rw (e, fresh, other) gone
      ]
    ]
  ]

  cancel-spent :
      (j : String) (t : TargetKey) (checked_at shown_at : ℕ)
      → spent id (cancel j t checked_at shown_at s).1 ≡ true
  unfolding cancel required_unexpired required save ◌>>=◌
  cancel-spent j t checked_at shown_at = elim (Option-cases (lookup j s.plans)) [
    | inl e ↦ rw e gone
    | inr (p, e) ↦ elim (Bool-cases (leb p.expires_at checked_at)) [
      | inl old ↦ rw (e, old) (erase-spent id s gone j)
      | inr fresh ↦ elim (Bool-cases (p.target == t)) [
        | inr other ↦ rw (e, fresh, other) gone
        | inl same ↦ elim (Bool-cases (is_pending p.status)) [
          | inl x ↦
              rw (e, fresh, same, x)
                (insert-spent id s gone j p (record p { status = cancelled }) e
                  (pending-open p.status x))
          | inr x ↦ rw (e, fresh, same, x) gone
        ]
      ]
    ]
  ]

  create-spent :
      (sha256_json : QueryContent → String) (t : TargetKey) (q : DatabaseQuery) (j : String)
      (purged_at created_at shown_at : ℕ)
      → (j == id) ≡ false
      → spent id (create sha256_json t q j purged_at created_at shown_at s).1 ≡ true
  unfolding create save ◌>>=◌
  create-spent sha256_json t q j purged_at created_at shown_at differs =
      let s' = purge_expired purged_at s in
      let still = purge-spent id s gone purged_at in
      elim (Bool-cases (leb s'.max_pending (count_values counts_as_pending s'.plans))) [
        | inl full ↦ rw full still
        | inr room ↦ rw room (insert_other-spent id s' still j _ differs)
      ]

module _ (sha256_json : QueryContent → String) (id : String) where
  after_call-spent :
      (call : Call) (s : SqlQueryPlanStore)
      → spent id s ≡ true
      → draws id call ≡ false
      → spent id (after_call sha256_json call s) ≡ true
  unfolding draws after_call complete
  after_call-spent (creates t q j purged_at created_at shown_at) s gone other =
      create-spent id s gone sha256_json t q j purged_at created_at shown_at other
  after_call-spent (acquires j d t now) s gone other = acquire-spent id s gone j d t now
  after_call-spent (completes j) s gone other = set_status-spent id s gone j executed
  after_call-spent (fails j) s gone other = fail-spent id s gone j
  after_call-spent (gets j t checked_at shown_at) s gone other =
      get-spent id s gone j t checked_at shown_at
  after_call-spent (cancels j t checked_at shown_at) s gone other =
      cancel-spent id s gone j t checked_at shown_at

  pub run-spent :
      (calls : List Call) (s : SqlQueryPlanStore)
      → spent id s ≡ true
      → any_draws id calls ≡ false
      → spent id (run sha256_json calls s) ≡ true
  unfolding any_draws run
  run-spent [] s gone others = gone
  run-spent (call ∷ calls) s gone others =
      run-spent calls (after_call sha256_json call s)
        (after_call-spent call s gone (ground (arith, others))) (ground (arith, others))

-- What is spent is not pending.
pub spent-not_pending :
    (id : String) (s : SqlQueryPlanStore) (p : StoredSqlQueryPlan)
    → spent id s ≡ true
    → lookup id s.plans ≡ some p
    → p.status ≢ pending
spent-not_pending id s p gone found was =
    ground (arith, gone, found, pending-open p.status (ap is_pending was))

pub executed-spent :
    (id : String) (s : SqlQueryPlanStore) (p : StoredSqlQueryPlan)
    → lookup id s.plans ≡ some p
    → p.status ≡ executed
    → spent id s ≡ true
executed-spent id s p found was = ground (arith, found, was)
