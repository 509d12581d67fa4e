-- ===== src/Writes/Store/Once.antt =====
-- Each plan is given out for application at most once: what `acquire` does when it gives one out,
-- and the count over any history.
use helix_mcp_gateway.Prelude.{
  ℕ, ◌+◌, ◌≤◌, ◌≡◌, refl, ap, inl, inr, true, false, Option, none, some, List, [], ◌∷◌, String,
  arith, leb, one_if, one_if-le, Bool-cases, if◌then◌else◌,
}
use helix_mcp_gateway.Prelude.Equality.{◌==◌, string_eq}
use helix_mcp_gateway.Prelude.Dict.{
  lookup, insert, erase, keys_where, lookup-insert, lookup-erase, lookup-erase_all,
}
use helix_mcp_gateway.Prelude.Action.{Result, ok, err, ◌>>=◌, raise_if_passed}
use helix_mcp_gateway.Errors.{Exn}
use helix_mcp_gateway.Config.{TargetKey}
use helix_mcp_gateway.Writes.Models.{WriteOperation, WritePlanStatus, pending, applying, applied}
use helix_mcp_gateway.Writes.Store.Inversion.{required_passed, unexpired_passed}
use helix_mcp_gateway.Writes.Store.{
  StoredWritePlan, WritePlanStore, PlanContent, AcquiredWritePlan, acquired_plan, reused,
  clear_payload, is_pending, mismatched, acquire_by_status, reuse, save, purge_expired, new_plan,
  acquire,
}
use helix_mcp_gateway.Writes.Store.Moves.{
  Move, start, finish, give_up, lose_track, withdraw, Transition, unchanged, dropped, moved, purged,
  created,
}
use helix_mcp_gateway.Writes.Store.Calls.{
  Call, acquires, draws, drawn_by, times_drawn, hands_out, handed, after_call,
  after_call-Transition, times_handed,
}

-- The plan that `acquire` found when it gave out `q`, and what it checked.
pub record Acquired (id d : String) (op : WriteOperation) (t : TargetKey) (now : ℕ)
    (s s' : WritePlanStore) (q : StoredWritePlan) : Type 0 where
  pub plan : StoredWritePlan
  pub found : lookup id s.plans ≡ some plan
  pub was_pending : plan.status ≡ pending
  pub unexpired : leb plan.expires_at now ≡ false
  pub matched : mismatched plan op t d ≡ false
  pub given : q ≡ record plan { status = applying }
  pub saved : s' ≡ record s { plans = insert id q s.plans }

by_status_given :
    (id : String) (p : StoredWritePlan) (st : WritePlanStatus) (s : WritePlanStore)
    {q : StoredWritePlan} {t : WritePlanStore}
    → acquire_by_status id p st s ≡ (ok (acquired_plan q), t)
    → (st ≡ pending)
      × (q ≡ record p { status = applying })
      × (t ≡ record s { plans = insert id q s.plans })
unfolding acquire_by_status reuse save ◌>>=◌
by_status_given id p pending s {q} {t} h = ground arith
by_status_given id p applied s {q} {t} h = absurd (ground arith)
by_status_given id p _ s h = absurd (cc (ap (λ r. r.0) h))

-- What `acquire` has checked and done whenever it gives out a plan: there is a plan under the
-- identifier, pending, not expired, of the operation, target and digest that the call names; it is
-- given out, and stored, as applying.
pub acquire-Acquired :
    (id d : String) (op : WriteOperation) (t : TargetKey) (now : ℕ) (s : WritePlanStore)
    {q : StoredWritePlan} {s' : WritePlanStore}
    → acquire id d op t now s ≡ (ok (acquired_plan q), s')
    → Acquired id d op t now s s' q
unfolding acquire
acquire-Acquired id d op t now s {q} {s'} h =
    let (p, found, h₁) = required_passed s id _ h in
    let (fresh, h₂) = unexpired_passed s p now _ h₁ in
    let (matches, h₃) = raise_if_passed _ _ _ s h₂ in
    let (was, given, saved) = by_status_given id p p.status s h₃ in
    record {
      plan = p;
      found = found;
      was_pending = was;
      unexpired = fresh;
      matched = matches;
      given = given;
      saved = saved;
    }

-- One if the plan can still be given out.
available : String → WritePlanStore → ℕ
available id s = elim (lookup id s.plans) [ none ↦ 0 | some p ↦ one_if (is_pending p.status) ]

Move-pending : {p q : StoredWritePlan} → Move p q → one_if (is_pending q.status) ≡ 0
unfolding clear_payload
Move-pending (start h) = refl
Move-pending (finish r h) = refl
Move-pending give_up = refl
Move-pending lose_track = refl
Move-pending (withdraw h) = refl

available-purge_expired :
    (id : String) (now : ℕ) (s : WritePlanStore)
    → available id (purge_expired now s) ≤ available id s
unfolding available purge_expired
available-purge_expired id now s =
    let expired = keys_where (λ (p : StoredWritePlan). leb p.expires_at now) s.plans in
    ground (arith, lookup-erase_all expired id s.plans)

available-insert :
    (id j : String) (q : StoredWritePlan) (s : WritePlanStore)
    → available id (record s { plans = insert j q s.plans })
      ≡ (if j == id then one_if (is_pending q.status) else available id s)
unfolding available
available-insert id j q s = ground (arith, lookup-insert j id q s.plans)

available-insert-le :
    (id j : String) (q : StoredWritePlan) (s : WritePlanStore)
    → available id (record s { plans = insert j q s.plans }) ≤ available id s + one_if (j == id)
available-insert-le id j q s = elim (Bool-cases (j == id)) [
  | inl e ↦ rw (available-insert id j q s) (rw e (omega (arith, one_if-le (is_pending q.status))))
  | inr e ↦ rw (available-insert id j q s) (rw e (omega arith))
]

available-erase :
    (id j : String) (s : WritePlanStore)
    → available id (record s { plans = erase j s.plans }) ≤ available id s
unfolding available
available-erase id j s = ground (arith, lookup-erase j id s.plans)

available-Transition :
    (sha256_json : PlanContent → String) (draw : Option String) (id : String) (s t : WritePlanStore)
    → Transition sha256_json draw s t
    → available id t ≤ available id s + draws id draw
unfolding purge_expired available
available-Transition sha256_json draw id s t unchanged = omega arith
available-Transition sha256_json draw id s t (dropped j) = omega (arith, available-erase id j s)
available-Transition sha256_json draw id s t (moved j p q e m) =
    ground (arith, available-insert id j q s, Move-pending m)
available-Transition sha256_json draw id s t (purged now) =
    omega (arith, available-purge_expired id now s)
available-Transition sha256_json draw id s t (created r j now expires_at drawn room) =
    rw drawn (omega (arith, available-created, available-purge_expired id now s))
  where
    available-created :
        available id (record s {
          plans = insert j (new_plan sha256_json r j expires_at) (purge_expired now s).plans;
        })
        ≤ available id (purge_expired now s) + one_if (j == id)
    available-created =
        available-insert-le id j (new_plan sha256_json r j expires_at) (purge_expired now s)

hands_out_plan :
    (r : Result Exn AcquiredWritePlan)
    → hands_out r ≡ true
    → (q : StoredWritePlan) × (r ≡ ok (acquired_plan q))
hands_out_plan (ok (acquired_plan q)) h = (q, refl)
hands_out_plan (ok (reused result)) h = cc
hands_out_plan (err x) h = cc

-- A call that gives out a plan uses up its availability.
available-acquire :
    (id d : String) (op : WriteOperation) (t : TargetKey) (now : ℕ) (s : WritePlanStore)
    → hands_out (acquire id d op t now s).0 ≡ true
    → (available id s ≡ 1) × (available id (acquire id d op t now s).1 ≡ 0)
unfolding available
available-acquire id d op t now s h =
    let (q, e) = hands_out_plan _ h in
    let a =
      acquire-Acquired id d op t now s {q = q} {s' = (acquire id d op t now s).1}
        (ground (arith, e)) in
    (
      ground (arith, a.found, a.was_pending),
      ground
          (arith, a.saved, a.given, available-insert id id q s, (string_eq.reflects id id).1 refl),
    )

module _ (sha256_json : PlanContent → String) where
  handed-available :
      (id : String) (c : Call) (s : WritePlanStore)
      → handed id c s + available id (after_call sha256_json c s)
        ≤ available id s + draws id (drawn_by c)
  unfolding handed after_call
  handed-available id (acquires j d op t now) s = elim (Bool-cases (j == id)) [
    | inl e ↦
        rw (e, handed)
          (elim (Bool-cases (hands_out (acquire j d op t now s).0)) [
            | inl given ↦
                let (before, after) = available-acquire j d op t now s given in
                let same : j ≡ id = (string_eq.reflects j id).0 e in
                rw given (rw (← same) (omega (arith, before, after)))
            | inr kept ↦ rw kept (
                omega (
                  arith,
                  available-Transition sha256_json none id s (acquire j d op t now s).1
                      (after_call-Transition sha256_json (acquires j d op t now) s),
                ))
          ])
    | inr e ↦
        rw (e, handed)
          (omega (
            arith,
            available-Transition sha256_json none id s (acquire j d op t now s).1
                (after_call-Transition sha256_json (acquires j d op t now) s),
          ))
  ]
  handed-available id c s = omega (
    arith,
    available-Transition sha256_json (drawn_by c) id s (after_call sha256_json c s)
        (after_call-Transition sha256_json c s),
  )

  times_handed-available :
      (id : String) (cs : List Call) (s : WritePlanStore)
      → times_handed sha256_json id cs s ≤ available id s + times_drawn id cs
  unfolding times_handed
  times_handed-available id [] s = omega arith
  times_handed-available id (c ∷ cs) s =
      omega
        (arith, handed-available id c s, times_handed-available id cs (after_call sha256_json c s))

  -- From a store with no plan under `id`, and over any sequence of calls by any callers, the plan
  -- `id` is given out for application at most as often as `create` is called with the identifier
  -- `id` drawn.
  pub times_handed-le-times_drawn :
      (id : String) (cs : List Call) (s : WritePlanStore)
      → lookup id s.plans ≡ none
      → times_handed sha256_json id cs s ≤ times_drawn id cs
  unfolding available
  times_handed-le-times_drawn id cs s absent =
      omega (arith, times_handed-available id cs s, available_absent)
    where
      available_absent : available id s ≡ 0
      available_absent = rw (absent, available)
