-- ===== src/Database/Plans/Retry.antt =====
-- A query is given out for execution by its digest, again only where its execution failed.
use helix_mcp_gateway.Prelude.{
  ℕ, ◌≡◌, refl, sym, ap, ◌∙◌, inl, inr, false, not, none, some, List, String, arith, leb,
  Bool-cases, Option-cases,
}
use helix_mcp_gateway.Prelude.Equality.{◌==◌, string_eq}
use helix_mcp_gateway.Prelude.Dict.{Dict, lookup, insert, lookup-insert}
use helix_mcp_gateway.Prelude.Action.{ok, err, pure, ◌>>=◌, ◌>>◌, bind_ok, raise_if_passed}
use helix_mcp_gateway.Errors.{from_database, sql_query_plan_not_found}
use helix_mcp_gateway.Config.{TargetKey, target_key_eq}
use helix_mcp_gateway.Database.Plans.Calls.{Call, run}
use helix_mcp_gateway.Database.Plans.Spent.{any_draws, run-spent, executed-spent, spent-not_pending}
use helix_mcp_gateway.Database.Plans.{
  QueryContent, StoredSqlQueryPlan, SqlQueryPlanStore, StoreAction, SqlQueryPlanStatus, pending,
  executing, executed, required, required_unexpired, acquire, complete, fail, set_status, save,
  is_pending,
}

pub required_found :
    (id : String) (p : StoredSqlQueryPlan) (s : SqlQueryPlanStore)
    → lookup id s.plans ≡ some p
    → required id s ≡ (ok p, s)
unfolding required ◌>>=◌
required_found id p s e = ground arith

pub required_missing :
    (id : String) (s : SqlQueryPlanStore)
    → lookup id s.plans ≡ none
    → required id s ≡ (err (from_database sql_query_plan_not_found), s)
unfolding required ◌>>=◌
required_missing id s e = ground arith

-- What `_required` tells when it returned.
required_unexpired_passed :
    {B : Type 0} (id : String) (now : ℕ) (m : StoredSqlQueryPlan → StoreAction B)
    (s : SqlQueryPlanStore) {b : B} {t : SqlQueryPlanStore}
    → (required_unexpired id now >>= m) s ≡ (ok b, t)
    → (p : StoredSqlQueryPlan) × (lookup id s.plans ≡ some p)
      × (leb p.expires_at now ≡ false)
      × (m p s ≡ (ok b, t))
unfolding required_unexpired required ◌>>=◌
required_unexpired_passed id now m s h = elim (Option-cases (lookup id s.plans)) [
  | inl e ↦ absurd (ground (arith, e))
  | inr (p, e) ↦ elim (Bool-cases (leb p.expires_at now)) [
    | inl x ↦ absurd (ground (arith, e, x))
    | inr x ↦ (p, e, x, ground (arith, e, x))
  ]
]

-- What `acquire` found and checked when it gave out `q`.
pub record AcquiredQuery (id d : String) (t : TargetKey) (now : ℕ) (s s' : SqlQueryPlanStore)
    (q : StoredSqlQueryPlan) : Type 0 where
  pub plan : StoredSqlQueryPlan
  pub found : lookup id s.plans ≡ some plan
  pub unexpired : leb plan.expires_at now ≡ false
  pub of_target : plan.target ≡ t
  pub of_digest : plan.plan_digest ≡ d
  pub was_pending : plan.status ≡ pending
  pub given : q ≡ record plan { status = executing }
  pub saved : s' ≡ record s { plans = insert id q s.plans }

is_pending→ : (st : SqlQueryPlanStatus) → not (is_pending st) ≡ false → st ≡ pending
is_pending→ pending h = refl
is_pending→ _ h = absurd (cc h)

saved_and_given :
    (id : String) (p : StoredSqlQueryPlan) (s : SqlQueryPlanStore) {q : StoredSqlQueryPlan}
    {t : SqlQueryPlanStore}
    → (save id p >> pure p) s ≡ (ok q, t)
    → (q ≡ p) × (t ≡ record s { plans = insert id q s.plans })
unfolding save ◌>>=◌
saved_and_given id p s {q} {t} h = ground arith

-- What `acquire` has checked and done whenever it gives out a query: a plan stands under the
-- identifier, pending, not expired, of the target and the digest that the call names; it is given
-- out, and stored, as executing.
pub acquire-AcquiredQuery :
    (id d : String) (t : TargetKey) (now : ℕ) (s : SqlQueryPlanStore) {q : StoredSqlQueryPlan}
    {s' : SqlQueryPlanStore}
    → acquire id d t now s ≡ (ok q, s')
    → AcquiredQuery id d t now s s' q
unfolding acquire
acquire-AcquiredQuery id d t now s {q} {s'} h =
    let (p, found, fresh, h₁) = required_unexpired_passed id now _ s h in
    let (matches, h₂) = raise_if_passed _ _ _ s h₁ in
    let (was, h₃) = raise_if_passed _ _ _ s h₂ in
    let (given, saved) = saved_and_given id (record p { status = executing }) s h₃ in
    record {
      plan = p;
      found = found;
      unexpired = fresh;
      of_target = ground (arith, target_key_eq.reflects p.target t);
      of_digest = ground (arith, string_eq.reflects p.plan_digest d);
      was_pending = is_pending→ p.status was;
      given = given;
      saved = saved;
    }

pub set_status_executing :
    (id : String) (st : SqlQueryPlanStatus) (p : StoredSqlQueryPlan) (s : SqlQueryPlanStore)
    → lookup id s.plans ≡ some p
    → p.status ≡ executing
    → set_status id st s
      ≡ (ok tt, record s { plans = insert id (record p { status = st }) s.plans })
unfolding set_status save ◌>>=◌
set_status_executing id st p s e x = bind_ok (required id) _ s _ _ (required_found id p s e) ∙ rw x

pub fail-set_status : (id : String) (s : SqlQueryPlanStore) → fail id s ≡ set_status id pending s
unfolding fail set_status
fail-set_status id s = refl

pub lookup-saved :
    (id : String) (q : StoredSqlQueryPlan) (s s' : SqlQueryPlanStore)
    → s' ≡ record s { plans = insert id q s.plans }
    → lookup id s'.plans ≡ some q
lookup-saved id q s s' e =
    rw e (lookup-insert id id q s.plans ∙ rw ((string_eq.reflects id id).1 refl))

restored :
    (id j : String) (p q : StoredSqlQueryPlan) (d : Dict String StoredSqlQueryPlan)
    → lookup id d ≡ some p
    → lookup j (insert id p (insert id q d)) ≡ lookup j d
restored id j p q d e = elim (Bool-cases (id == j)) [
  | inl same ↦
      lookup-insert id j p (insert id q d)
      ∙ (rw same (sym e ∙ ap (λ k. lookup k d) ((string_eq.reflects id j).0 same)))
  | inr differs ↦
      lookup-insert id j p (insert id q d) ∙ (rw differs (lookup-insert id j q d ∙ rw differs))
]

-- A query that was given out, and whose execution failed, stands in the store as before it was
-- given out, and so does every other: what the store holds under any identifier is the same.
pub acquire-fail :
    (id d : String) (t : TargetKey) (now : ℕ) (j : String) (s : SqlQueryPlanStore)
    {q : StoredSqlQueryPlan} {s₁ : SqlQueryPlanStore}
    → acquire id d t now s ≡ (ok q, s₁)
    → ((fail id s₁).0 ≡ ok tt) × (lookup j (fail id s₁).1.plans ≡ lookup j s.plans)
acquire-fail id d t now j s {q} {s₁} h =
    let a = acquire-AcquiredQuery id d t now s h in
    let held = lookup-saved id q s s₁ a.saved in
    let eq =
      fail-set_status id s₁
      ∙ set_status_executing id pending q s₁ held (ap (λ p. p.status) a.given) in
    (
      rw eq refl,
      rw eq (rw (a.saved, a.given, sym a.was_pending) (restored id j a.plan _ s.plans a.found)),
    )

-- When a query that was given out is completed at once, it is stored as executed and otherwise unchanged,
-- and after any further calls of the store of which none creates a plan under the same identifier,
-- `acquire` does not give it out, whatever its digest, target and time.
pub executed-IsSpent :
    (sha256_json : QueryContent → String) (id d : String) (t : TargetKey) (now : ℕ)
    (s : SqlQueryPlanStore) {q : StoredSqlQueryPlan} {s₁ : SqlQueryPlanStore} (calls : List Call)
    (d' : String) (t' : TargetKey) (now' : ℕ) (q' : StoredSqlQueryPlan) (s₂ : SqlQueryPlanStore)
    → acquire id d t now s ≡ (ok q, s₁)
    → any_draws id calls ≡ false
    → ((complete id s₁).0 ≡ ok tt)
      × (lookup id (complete id s₁).1.plans ≡ some (record q { status = executed }))
      × ¬ (acquire id d' t' now' (run sha256_json calls (complete id s₁).1) ≡ (ok q', s₂))
unfolding complete
executed-IsSpent sha256_json id d t now s {q} {s₁} calls d' t' now' q' s₂ h others =
    let a = acquire-AcquiredQuery id d t now s h in
    let held = lookup-saved id q s s₁ a.saved in
    let eq = set_status_executing id executed q s₁ held (ap (λ p. p.status) a.given) in
    let done =
      lookup-saved id (record q { status = executed }) s₁ (complete id s₁).1 (ap (λ r. r.1) eq) in
    let gone =
      run-spent sha256_json id calls (complete id s₁).1
        (executed-spent id (complete id s₁).1 (record q { status = executed }) done refl) others in
    (
      rw eq refl,
      done,
      λ g.
          let b = acquire-AcquiredQuery id d' t' now' _ g in
          spent-not_pending id (run sha256_json calls (complete id s₁).1) b.plan gone b.found
            b.was_pending,
    )
