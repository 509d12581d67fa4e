-- ===== src/Writes/Store/Binding.antt =====
-- The digest binds what is applied to what was reviewed.
use helix_mcp_gateway.Prelude.{ℕ, ◌≡◌, sym, ◌∙◌, subst, some, false, List, String, arith, ap}
use helix_mcp_gateway.Prelude.Equality.{string_eq}
use helix_mcp_gateway.Prelude.Dict.{Entries-lookup}
use helix_mcp_gateway.Prelude.Action.{ok, ◌>>=◌}
use helix_mcp_gateway.Config.{TargetKey, target_key_eq}
use helix_mcp_gateway.Writes.Models.{WriteOperation, operation_eq, WritePlanResult}
use helix_mcp_gateway.Writes.Store.{
  StoredWritePlan, WritePlanStore, PlanContent, PlanRequest, request_content, digest, acquired_plan,
  mismatched, new_plan, public, create, acquire, save,
}
use helix_mcp_gateway.Writes.Store.Calls.{Call, creates, run, after_call, after_call-Transition}
use helix_mcp_gateway.Writes.Store.Lifecycle.{
  StoreInv, plan_content, run-StoreInv, Transition-StoreInv,
}
use helix_mcp_gateway.Writes.Store.Once.{acquire-Acquired}

-- What it tells that the comparison in `acquire` found no mismatch.
not_mismatched :
    (p : StoredWritePlan) (op : WriteOperation) (t : TargetKey) (d : String)
    → mismatched p op t d ≡ false
    → (p.operation ≡ op) × (p.target ≡ t) × (p.plan_digest ≡ d)
not_mismatched p op t d h = (
  ground (arith, operation_eq.reflects p.operation op),
  ground (arith, target_key_eq.reflects p.target t),
  ground (arith, string_eq.reflects p.plan_digest d),
)

-- What `create` returns shows the digest of its request.
create-digest :
    (sha256_json : PlanContent → String) (r : PlanRequest) (id : String) (t₁ t₂ : ℕ)
    (s : WritePlanStore) {w : WritePlanResult} {s' : WritePlanStore}
    → create sha256_json r id t₁ t₂ s ≡ (ok w, s')
    → w.plan_digest ≡ sha256_json (request_content r)
unfolding create save ◌>>=◌ public new_plan digest
create-digest sha256_json r id t₁ t₂ s {w} {s'} h = ground arith

create-StoreInv :
    (sha256_json : PlanContent → String) (r : PlanRequest) (id : String) (t₁ t₂ : ℕ)
    (s : WritePlanStore) {w : WritePlanResult} {s' : WritePlanStore}
    → StoreInv sha256_json s
    → create sha256_json r id t₁ t₂ s ≡ (ok w, s')
    → StoreInv sha256_json s'
unfolding after_call
create-StoreInv sha256_json r id t₁ t₂ s v h = subst (StoreInv sha256_json) (ap (λ x. x.1) h) (
    Transition-StoreInv sha256_json (some id) s _
      (after_call-Transition sha256_json (creates r id t₁ t₂) s) v)

module _ (sha256_json : PlanContent → String) where
  -- A plan that `acquire` gives out, on a store in which the plans are valid, is of the operation
  -- and target that the call names, and the digest that the call presents is that of the values,
  -- reason, form, entry and precondition which the plan then holds.
  pub acquire-IsBound :
      (id d : String) (op : WriteOperation) (t : TargetKey) (now : ℕ) (s : WritePlanStore)
      {q : StoredWritePlan} {s' : WritePlanStore}
      → StoreInv sha256_json s
      → acquire id d op t now s ≡ (ok (acquired_plan q), s')
      → (q.operation ≡ op) × (q.target ≡ t) × (sha256_json (plan_content q) ≡ d)
  acquire-IsBound id d op t now s {q} v h =
      let a = acquire-Acquired id d op t now s h in
      let (of_op, of_target, of_digest) = not_mismatched a.plan op t d a.matched in
      let valid = Entries-lookup _ id s.plans v.plans_are_valid a.found in
      let bound = valid.open_is_bound (rw a.was_pending) in
      (rw a.given of_op, rw a.given of_target, rw a.given (sym bound ∙ of_digest))

  -- The plan that is applied is the plan that was reviewed: on a store in which the plans are
  -- valid, `create` returned a plan for the request `r`, any calls by any callers followed, and
  -- then `acquire` was called with the digest that `create` had shown, for whatever identifier, and
  -- gave out a plan. Then the canonical contents of that plan and of the request have one SHA-256
  -- digest.
  pub applied_as_reviewed :
      (r : PlanRequest) (id : String) (t₁ t₂ : ℕ) (s : WritePlanStore) (w : WritePlanResult)
      (s₁ : WritePlanStore) (cs : List Call) (j : String) (op : WriteOperation) (t : TargetKey)
      (now : ℕ) {q : StoredWritePlan} {s₂ : WritePlanStore}
      → StoreInv sha256_json s
      → create sha256_json r id t₁ t₂ s ≡ (ok w, s₁)
      → acquire j w.plan_digest op t now (run sha256_json cs s₁) ≡ (ok (acquired_plan q), s₂)
      → sha256_json (plan_content q) ≡ sha256_json (request_content r)
  applied_as_reviewed r id t₁ t₂ s w s₁ cs j op t now v made given =
      let later =
        run-StoreInv sha256_json cs s₁ (create-StoreInv sha256_json r id t₁ t₂ s v made) in
      (acquire-IsBound j w.plan_digest op t now (run sha256_json cs s₁) later given).2
      ∙ create-digest sha256_json r id t₁ t₂ s made
