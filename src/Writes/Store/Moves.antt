-- ===== src/Writes/Store/Moves.antt =====
-- The life of one plan as a step relation, and the steps of the store that it allows. Every
-- method of `WritePlanStore` is one such step, whatever it returns or raises.
use helix_mcp_gateway.Prelude.{
  ℕ, ◌+◌, ◌<◌, ◌≡◌, refl, inl, inr, Bool, true, false, not, Option, some, String, arith, leb,
  leb→lt, Bool-cases, Option-cases, if◌then◌else◌,
}
use helix_mcp_gateway.Prelude.Equality.{string_eq}
use helix_mcp_gateway.Prelude.Dict.{lookup, insert, erase, count_values}
use helix_mcp_gateway.Prelude.Action.{pure, modify, raise_if, bind_ok, bind_err, ◌>>=◌, ◌>>◌}
use helix_mcp_gateway.Errors.{Exn}
use helix_mcp_gateway.Config.{TargetKey}
use helix_mcp_gateway.Writes.Models.{
  WriteOperation, WritePlanStatus, pending, applying, applied, cancelled, failed, outcome_unknown,
  ApplyWriteResult,
}
use helix_mcp_gateway.Writes.Store.Inversion.{
  required_found, required_missing, expired_drops, unexpired_stays,
}
use helix_mcp_gateway.Writes.Store.{
  StoredWritePlan, WritePlanStore, StoreAction, PlanContent, PlanRequest, clear_payload,
  plan_is_open, required, ensure_not_expired, acquire_by_status, save, reuse, is_pending,
  is_applying, purge_expired, new_plan, create, acquire, complete, fail, get, cancel, public,
}

-- The changes that a stored plan may undergo.
pub data Move (p : StoredWritePlan) : StoredWritePlan → Type 0 where
  start : p.status ≡ pending → Move p (record p { status = applying })
  finish :
      (r : ApplyWriteResult)
      → p.status ≡ applying
      → Move p (clear_payload (record p { status = applied; result = some r }))
  give_up : Move p (clear_payload (record p { status = failed }))
  lose_track : Move p (clear_payload (record p { status = outcome_unknown }))
  withdraw : p.status ≡ pending → Move p (clear_payload (record p { status = cancelled }))

-- The changes of a store: none, the drop of an expired plan, the move of one plan, a purge, or a
-- purge followed by the insertion of a new plan while there is room.
pub data Transition (sha256_json : PlanContent → String) (draw : Option String) (s : WritePlanStore)
    : WritePlanStore → Type 0 where
  unchanged : Transition sha256_json draw s s
  dropped : (id : String) → Transition sha256_json draw s (record s { plans = erase id s.plans })
  moved :
      (id : String) (p q : StoredWritePlan)
      → lookup id s.plans ≡ some p
      → Move p q
      → Transition sha256_json draw s (record s { plans = insert id q s.plans })
  purged : (now : ℕ) → Transition sha256_json draw s (purge_expired now s)
  created :
      (r : PlanRequest) (id : String) (now expires_at : ℕ)
      → draw ≡ some id
      → count_values plan_is_open (purge_expired now s).plans < s.max_pending
      → Transition sha256_json draw s (record s {
        plans = insert id (new_plan sha256_json r id expires_at) (purge_expired now s).plans;
      })

module _ (sha256_json : PlanContent → String) (draw : Option String) {A : Type 0}
    (s : WritePlanStore) where
  raise_if-Transition :
      (c : Bool) (x : Exn) (m : StoreAction A)
      → (c ≡ false → Transition sha256_json draw s (m s).1)
      → Transition sha256_json draw s ((raise_if c x >> m) s).1
  unfolding ◌>>=◌
  raise_if-Transition true x m h = unchanged
  raise_if-Transition false x m h = h refl

  required-Transition :
      (id : String) (m : StoredWritePlan → StoreAction A)
      → ((p : StoredWritePlan)
          → lookup id s.plans ≡ some p
          → Transition sha256_json draw s (m p s).1)
      → Transition sha256_json draw s ((required id >>= m) s).1
  required-Transition id m h = elim (Option-cases (lookup id s.plans)) [
    | inl e ↦ rw (bind_err _ m s _ _ (required_missing id s e)) unchanged
    | inr (p, e) ↦ rw (bind_ok _ m s _ _ (required_found id p s e)) (h p e)
  ]

  unexpired-Transition :
      (p : StoredWritePlan) (now : ℕ) (m : StoreAction A)
      → Transition sha256_json draw s (m s).1
      → Transition sha256_json draw s ((ensure_not_expired p now >> m) s).1
  unexpired-Transition p now m h = elim (Bool-cases (leb p.expires_at now)) [
    | inl e ↦ rw (bind_err _ (λ _. m) s _ _ (expired_drops p now s e)) (dropped p.plan_id)
    | inr e ↦ rw (bind_ok _ (λ _. m) s _ _ (unexpired_stays p now s e)) h
  ]

  pure-Transition : (a : A) → Transition sha256_json draw s (pure {E = Exn} a s).1
  unfolding pure
  pure-Transition a = unchanged

  save-Transition :
      (id : String) (p q : StoredWritePlan) (a : A)
      → lookup id s.plans ≡ some p
      → Move p q
      → Transition sha256_json draw s ((save id q >> pure a) s).1
  unfolding save ◌>>=◌
  save-Transition id p q a e m = moved id p q e m

not-true : {b : Bool} → not b ≡ false → b ≡ true
not-true {b} h = ground arith

pending_of : (st : WritePlanStatus) → is_pending st ≡ true → st ≡ pending
pending_of pending h = refl
pending_of _ h = cc

applying_of : (st : WritePlanStatus) → is_applying st ≡ true → st ≡ applying
applying_of applying h = refl
applying_of _ h = cc

Move-fail :
    (p : StoredWritePlan) (unknown : Bool)
    → Move p (clear_payload (record p { status = if unknown then outcome_unknown else failed }))
Move-fail p true = lose_track
Move-fail p false = give_up

module _ (sha256_json : PlanContent → String) (draw : Option String) (s : WritePlanStore) where
  pub create-Transition :
      (r : PlanRequest) (id : String) (purged_at created_at : ℕ)
      → draw ≡ some id
      → Transition sha256_json draw s (create sha256_json r id purged_at created_at s).1
  unfolding create purge_expired save ◌>>=◌
  create-Transition r id purged_at created_at drawn =
      elim (Bool-cases
        (leb s.max_pending (count_values plan_is_open (purge_expired purged_at s).plans))) [
          | inl full ↦ rw (full, create) (purged purged_at)
          | inr room ↦
              rw (room, create)
                (created r id purged_at (created_at + s.ttl) drawn (leb→lt _ _ room))
        ]

  by_status-Transition :
      (id : String) (p : StoredWritePlan) (st : WritePlanStatus)
      → lookup id s.plans ≡ some p
      → p.status ≡ st
      → Transition sha256_json draw s (acquire_by_status id p st s).1
  unfolding acquire_by_status reuse save ◌>>=◌
  by_status-Transition id p pending e q = moved id p _ e (start q)
  by_status-Transition id p applied e q = elim (Option-cases p.result) [
    | inl none_stored ↦ rw none_stored unchanged
    | inr (r, stored) ↦ rw stored unchanged
  ]
  by_status-Transition id p _ e q = unchanged

  pub acquire-Transition :
      (id d : String) (op : WriteOperation) (t : TargetKey) (now : ℕ)
      → Transition sha256_json draw s (acquire id d op t now s).1
  unfolding acquire
  acquire-Transition id d op t now = required-Transition sha256_json draw s id _ λ p e.
      unexpired-Transition sha256_json draw s p now _ (
        raise_if-Transition sha256_json draw s _ _ _ λ _. by_status-Transition id p p.status e refl)

  pub complete-Transition :
      (id : String) (r : ApplyWriteResult) → Transition sha256_json draw s (complete id r s).1
  unfolding complete
  complete-Transition id r = required-Transition sha256_json draw s id _ λ p e.
      raise_if-Transition sha256_json draw s _ _ _ λ c.
        save-Transition sha256_json draw s id p _ r e (finish r (applying_of p.status (not-true c)))

  pub fail-Transition :
      (id : String) (unknown : Bool) → Transition sha256_json draw s (fail id unknown s).1
  unfolding fail save modify
  fail-Transition id unknown =
      required-Transition sha256_json draw s id _ λ p e. moved id p _ e (Move-fail p unknown)

  pub get-Transition :
      (id : String) (t : TargetKey) (now : ℕ) → Transition sha256_json draw s (get id t now s).1
  unfolding get
  get-Transition id t now = required-Transition sha256_json draw s id _ λ p e.
      unexpired-Transition sha256_json draw s p now _ (
        raise_if-Transition sha256_json draw s _ _ _
          λ _. pure-Transition sha256_json draw s (public p))

  pub cancel-Transition :
      (id : String) (t : TargetKey) (now : ℕ) → Transition sha256_json draw s (cancel id t now s).1
  unfolding cancel
  cancel-Transition id t now = required-Transition sha256_json draw s id _ λ p e.
      unexpired-Transition sha256_json draw s p now _ (
        raise_if-Transition sha256_json draw s _ _ _ λ _.
          raise_if-Transition sha256_json draw s _ _ _ λ c.
            save-Transition sha256_json draw s id p _ _ e
              (withdraw (pending_of p.status (not-true c))))
