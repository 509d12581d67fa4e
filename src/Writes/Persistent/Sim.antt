-- ===== src/Writes/Persistent/Sim.antt =====
-- One operation on a table and on the store in memory, side by side: the rules for the steps that the
-- methods are made of.
use helix_mcp_gateway.Prelude.{
  ℕ, ◌≡◌, refl, sym, ◌∙◌, inl, inr, ◌⊎◌, true, none, some, String, arith, leb, Bool-cases,
  Option-cases,
}
use helix_mcp_gateway.Prelude.Equality.{string_eq}
use helix_mcp_gateway.Prelude.Dict.{lookup, insert, erase}
use helix_mcp_gateway.Prelude.Action.{
  Result, ok, err, pure, ◌>>=◌, ◌>>◌, bind_ok, bind_err, bind_assoc,
}
use helix_mcp_gateway.Prelude.Mirror.{
  lookup_unmirrored, lookup_mirrored, insert-Mirrors, erase-Mirrors,
}
use helix_mcp_gateway.Prelude.Simulation.{Sim, refused, raised, lapsed, returned}
use helix_mcp_gateway.Errors.{
  Exn, from_write, write_plan_persistence, write_plan_not_found, write_plan_expired,
}
use helix_mcp_gateway.Writes.Store
use helix_mcp_gateway.Writes.Store.{
  StoredWritePlan, WritePlanStore, StoreAction, ensure_not_expired,
}
use helix_mcp_gateway.Writes.Store.Inversion
use helix_mcp_gateway.Writes.Rows.{Cipher, Row, row_of, fits, decode}
use helix_mcp_gateway.Writes.Rows.RoundTrip.{IsCipher, IsStorable, decode-row_of}
use helix_mcp_gateway.Writes.Persistent.{
  Table, TableAction, required, required_unexpired, drop_if_expired, save, set_columns,
}
use helix_mcp_gateway.Writes.Persistent.Table.{Holds, Represents}

saved_in_memory :
    {A : Type 0} (s : WritePlanStore) (id : String) (p : StoredWritePlan) (a : A)
    → (Store.save id p >> pure a) s ≡ (ok a, record s { plans = insert id p s.plans })
unfolding Store.save ◌>>=◌
saved_in_memory s id p a = refl

-- What an update does not change.
pub record SameColumns (p p' : StoredWritePlan) : Type 0 where
  pub same_id : p.plan_id ≡ p'.plan_id
  pub same_digest : p.plan_digest ≡ p'.plan_digest
  pub same_operation : p.operation ≡ p'.operation
  pub same_target : p.target ≡ p'.target
  pub same_expiry : p.expires_at ≡ p'.expires_at

module _ (C : Cipher) (t : Table C) where
  required_no_row :
      (id : String)
      → lookup id t ≡ none
      → required C id t ≡ (err (from_write write_plan_not_found), t)
  unfolding required ◌>>=◌
  required_no_row id e = ground (arith, e)

module _ (C : Cipher) (law : IsCipher C) (t : Table C) where
  required_row :
      (id : String) (p : StoredWritePlan) (row : Row C)
      → lookup id t ≡ some row
      → Holds C id row p
      → required C id t ≡ (ok p, t)
  unfolding required ◌>>=◌
  required_row id p row e h =
      let read : decode C row ≡ ok p =
        rw h.is_row (decode-row_of C law h.nonce p h.storable h.fitting) in
      ground (arith, e, read)

module _ (C : Cipher) where
  set_columns-row_of :
      (nonce old : String) (p p' : StoredWritePlan)
      → SameColumns p p'
      → set_columns C nonce p' (row_of C old p) ≡ row_of C nonce p'
  unfolding row_of
  set_columns-row_of nonce old p p' e =
      cc (e.same_id, e.same_digest, e.same_operation, e.same_target, e.same_expiry)

  set_columns-Holds :
      (id nonce : String) (row : Row C) (p p' : StoredWritePlan)
      → Holds C id row p
      → SameColumns p p'
      → IsStorable p'
      → fits C p' ≡ true
      → Holds C id (set_columns C nonce p' row) p'
  set_columns-Holds id nonce row p p' h e storable fitting = record {
    nonce = nonce;
    is_row = rw h.is_row (set_columns-row_of nonce h.nonce p p' e);
    storable = storable;
    fitting = fitting;
    own_id = sym e.same_id ∙ h.own_id;
  }

  -- `_update` refuses what does not fit; else the row is that of the plan.
  -- `_update` of a plan that fits: the row is that of the plan.
  pub save_fitting :
      (t : Table C) (id nonce : String) (row : Row C) (p p' : StoredWritePlan)
      → lookup id t ≡ some row
      → Holds C id row p
      → SameColumns p p'
      → IsStorable p'
      → fits C p' ≡ true
      → (row' : Row C) × Holds C id row' p' × (save C nonce p' t ≡ (ok tt, insert id row' t))
  unfolding save ◌>>=◌
  save_fitting t id nonce row p p' found h e storable fitting =
      let own : p'.plan_id ≡ id = sym e.same_id ∙ h.own_id in
      (
        set_columns C nonce p' row,
        set_columns-Holds id nonce row p p' h e storable fitting,
        rw (fitting, own, found) refl,
      )

  pub save_cases :
      (t : Table C) (id nonce : String) (row : Row C) (p p' : StoredWritePlan)
      → lookup id t ≡ some row
      → Holds C id row p
      → SameColumns p p'
      → IsStorable p'
      → (save C nonce p' t ≡ (err (from_write write_plan_persistence), t))
        ⊎ ((row' : Row C) × Holds C id row' p' × (save C nonce p' t ≡ (ok tt, insert id row' t)))
  unfolding save ◌>>=◌
  save_cases t id nonce row p p' found h e storable = elim (Bool-cases (fits C p')) [
    | inr small ↦ inl (rw small refl)
    | inl fitting ↦ inr (save_fitting t id nonce row p p' found h e storable fitting)
  ]

-- What a refused transaction raises, and what is raised of a plan that has expired.
abbrev pub refusal : Exn
refusal = from_write write_plan_persistence

abbrev pub expiry : Exn
expiry = from_write write_plan_expired

-- The table holds the plans of the store in memory.
abbrev pub HoldsStore : (C : Cipher) → Table C → WritePlanStore → Type 0
HoldsStore C t s = Represents C t s.plans

module _ (C : Cipher) (law : IsCipher C) {A : Type 0} (t : Table C) (s : WritePlanStore)
    (rep : Represents C t s.plans) where
  abbrev pub Alike : Result Exn A × Table C → Result Exn A × WritePlanStore → Type 0
  Alike = Sim refusal expiry (HoldsStore C) t s

  pub required-Alike :
      (id : String) (m : StoredWritePlan → TableAction C A) (n : StoredWritePlan → StoreAction A)
      → ((p : StoredWritePlan) (row : Row C)
          → lookup id s.plans ≡ some p
          → lookup id t ≡ some row
          → Holds C id row p
          → Alike (m p t) (n p s))
      → Alike ((required C id >>= m) t) ((Store.required id >>= n) s)
  required-Alike id m n h = elim (Option-cases (lookup id t)) [
    | inl e ↦
        rw
          (
            bind_err (required C id) m t _ _ (required_no_row C t id e),
            bind_err (Store.required id) n s _ _
                (Inversion.required_missing id s (lookup_unmirrored (Holds C) id rep e)),
          )
          (raised (from_write write_plan_not_found))
    | inr (row, e) ↦
        let (p, found, held) = lookup_mirrored (Holds C) id rep e in
        rw
          (
            bind_ok (required C id) m t p t (required_row C law t id p row e held),
            bind_ok (Store.required id) n s p s (Inversion.required_found id p s found),
          )
          (h p row found e held)
  ]

  unexpired-Alike :
      (id : String) (now : ℕ) (m : StoredWritePlan → TableAction C A)
      (n : StoredWritePlan → StoreAction A) (p : StoredWritePlan) (row : Row C)
      → Holds C id row p
      → Alike (m p t) (n p s)
      → Alike ((drop_if_expired C id now p >>= m) t) ((ensure_not_expired p now >> n p) s)
  unexpired-Alike id now m n p row held h = elim (Bool-cases (leb p.expires_at now)) [
    | inl x ↦
        rw
          (
            bind_err (drop_if_expired C id now p) m t (from_write write_plan_expired) (erase id t)
                (rw x refl),
            bind_err (ensure_not_expired p now) (λ _. n p) s _ _
                (Inversion.expired_drops p now s x),
          )
          (lapsed (erase id t) (record s { plans = erase p.plan_id s.plans })
            (rw held.own_id (erase-Mirrors (Holds C) id rep)))
    | inr x ↦
        rw
          (
            bind_ok (drop_if_expired C id now p) m t p t (rw x refl),
            bind_ok (ensure_not_expired p now) (λ _. n p) s tt s
                (Inversion.unexpired_stays p now s x),
          )
          h
  ]

  pub required_unexpired-Alike :
      (id : String) (now : ℕ) (m : StoredWritePlan → TableAction C A)
      (n : StoredWritePlan → StoreAction A)
      → ((p : StoredWritePlan) (row : Row C)
          → lookup id s.plans ≡ some p
          → lookup id t ≡ some row
          → Holds C id row p
          → Alike (m p t) (n p s))
      → Alike
          ((required_unexpired C id now >>= m) t)
          ((Store.required id >>= λ p. (ensure_not_expired p now >> n p)) s)
  unfolding required_unexpired
  required_unexpired-Alike id now m n h =
      rw (bind_assoc (drop_if_expired C id now) m (required C id) t) (
        required-Alike id (λ p. drop_if_expired C id now p >>= m)
          (λ p. (ensure_not_expired p now >> n p))
          (λ p row found e held. unexpired-Alike id now m n p row held (h p row found e held)))

  pub save-Alike :
      (id nonce : String) (row : Row C) (p p' : StoredWritePlan) (a : A)
      → lookup id t ≡ some row
      → Holds C id row p
      → SameColumns p p'
      → IsStorable p'
      → Alike ((save C nonce p' >> pure a) t) ((Store.save id p' >> pure a) s)
  unfolding pure
  save-Alike id nonce row p p' a found h e storable =
      elim (save_cases C t id nonce row p p' found h e storable) [
        | inl refuses ↦ rw (bind_err (save C nonce p') (λ _. pure a) t _ _ refuses) (refused t _)
        | inr (row', held, saves) ↦
            rw
              (
                bind_ok (save C nonce p') (λ _. pure a) t tt (insert id row' t) saves,
                saved_in_memory s id p' a,
              )
              (returned a (insert id row' t) (record s { plans = insert id p' s.plans })
                (insert-Mirrors (Holds C) id row' p' held rep))
      ]

module _ (C : Cipher) (law : IsCipher C) (t : Table C) (s : WritePlanStore)
    (rep : Represents C t s.plans) where
  pub save_last-Alike :
      (id nonce : String) (row : Row C) (p p' : StoredWritePlan)
      → lookup id t ≡ some row
      → Holds C id row p
      → SameColumns p p'
      → IsStorable p'
      → Alike C law t s rep (save C nonce p' t) (Store.save id p' s)
  unfolding Store.save ◌>>=◌
  save_last-Alike id nonce row p p' found h e storable =
      elim (save_cases C t id nonce row p p' found h e storable) [
        | inl refuses ↦ rw refuses (refused t _)
        | inr (row', held, saves) ↦ rw saves (
            returned tt (insert id row' t) (record s { plans = insert id p' s.plans })
              (insert-Mirrors (Holds C) id row' p' held rep))
      ]
