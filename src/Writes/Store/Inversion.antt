-- ===== src/Writes/Store/Inversion.antt =====
-- The steps that the methods of `WritePlanStore` share: what they do, and what it tells that they
-- returned.
use helix_mcp_gateway.Prelude.{
  ℕ, ◌≡◌, sym, ◌∙◌, inl, inr, true, false, none, some, String, arith, ap, leb, Bool-cases,
  Option-cases,
}
use helix_mcp_gateway.Prelude.Equality.{string_eq}
use helix_mcp_gateway.Prelude.Dict.{lookup, erase}
use helix_mcp_gateway.Prelude.Action.{ok, err, ◌>>=◌, ◌>>◌, bind_ok, bind_err}
use helix_mcp_gateway.Errors.{from_write, write_plan_expired, write_plan_not_found}
use helix_mcp_gateway.Writes.Store.{
  StoredWritePlan, WritePlanStore, StoreAction, required, ensure_not_expired,
}

pub required_found :
    (id : String) (p : StoredWritePlan) (s : WritePlanStore)
    → lookup id s.plans ≡ some p
    → required id s ≡ (ok p, s)
unfolding required ◌>>=◌
required_found id p s e = ground arith

pub required_missing :
    (id : String) (s : WritePlanStore)
    → lookup id s.plans ≡ none
    → required id s ≡ (err (from_write write_plan_not_found), s)
unfolding required ◌>>=◌
required_missing id s e = ground arith

pub expired_drops :
    (p : StoredWritePlan) (now : ℕ) (s : WritePlanStore)
    → leb p.expires_at now ≡ true
    → ensure_not_expired p now s
      ≡ (err (from_write write_plan_expired), record s { plans = erase p.plan_id s.plans })
unfolding ensure_not_expired
expired_drops p now s e = rw e

pub unexpired_stays :
    (p : StoredWritePlan) (now : ℕ) (s : WritePlanStore)
    → leb p.expires_at now ≡ false
    → ensure_not_expired p now s ≡ (ok tt, s)
unfolding ensure_not_expired
unexpired_stays p now s e = rw e

module _ {B : Type 0} (s : WritePlanStore) {b : B} {t : WritePlanStore} where
  pub required_passed :
      (id : String) (m : StoredWritePlan → StoreAction B)
      → (required id >>= m) s ≡ (ok b, t)
      → (p : StoredWritePlan) × (lookup id s.plans ≡ some p) × (m p s ≡ (ok b, t))
  required_passed id m h = elim (Option-cases (lookup id s.plans)) [
    | inl e ↦ absurd (cc (ap (λ r. r.0) (sym (bind_err _ m s _ _ (required_missing id s e)) ∙ h)))
    | inr (p, e) ↦ (p, e, sym (bind_ok _ m s _ _ (required_found id p s e)) ∙ h)
  ]

  pub unexpired_passed :
      (p : StoredWritePlan) (now : ℕ) (m : StoreAction B)
      → (ensure_not_expired p now >> m) s ≡ (ok b, t)
      → (leb p.expires_at now ≡ false) × (m s ≡ (ok b, t))
  unexpired_passed p now m h = elim (Bool-cases (leb p.expires_at now)) [
    | inl e ↦
        absurd (cc (ap (λ r. r.0) (sym (bind_err _ (λ _. m) s _ _ (expired_drops p now s e)) ∙ h)))
    | inr e ↦ (e, sym (bind_ok _ (λ _. m) s _ _ (unexpired_stays p now s e)) ∙ h)
  ]
