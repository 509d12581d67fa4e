-- ===== src/Writes/Store/Lifecycle.antt =====
-- What every stored plan satisfies, and the capacity of the store.
use helix_mcp_gateway.Prelude.{
  ℕ, ◌≤◌, ◌≡◌, refl, true, false, Option, none, some, List, [], String, arith, is_some, one_if,
  one_if-le,
}
use native.Mathlib.Nat.{le_trans}
use helix_mcp_gateway.Prelude.Equality.{string_eq}
use helix_mcp_gateway.Prelude.Dict.{
  Entries, Entries-lookup, Entries-insert, Entries-erase, Entries-erase_all, count_values,
  count_values-insert_new, count_values-insert-some, count_values-erase-le,
  count_values-erase_all-le,
}
use helix_mcp_gateway.Writes.Models.{applied, Values}
use helix_mcp_gateway.Writes.Store.{
  StoredWritePlan, WritePlanStore, PlanContent, PlanRequest, clear_payload, is_open, plan_is_open,
  purge_expired, new_plan, digest, cleared,
}
use helix_mcp_gateway.Writes.Store.Moves.{
  Move, start, finish, give_up, lose_track, withdraw, Transition, unchanged, dropped, moved, purged,
  created,
}
use helix_mcp_gateway.Writes.Store.Calls.{Call, run, run_induction}

-- The content that the digest of a stored plan is about.
abbrev pub plan_content : StoredWritePlan → PlanContent
plan_content p = record {
  operation = p.operation;
  environment = p.target.environment;
  form = p.form;
  entry_id = p.entry_id;
  current_values = p.current_values;
  proposed_values = p.proposed_values;
  reason = p.reason;
  precondition = p.precondition;
}

abbrev IsErased : Option Values → Type 0
IsErased none = Unit
IsErased (some values) = values ≡ []

-- No value, reason or precondition is left in the plan.
pub record HasNoPayload (p : StoredWritePlan) : Type 0 where
  pub no_current_values : IsErased p.current_values
  pub no_proposed_values : p.proposed_values ≡ []
  pub no_reason : p.reason ≡ ""
  pub no_precondition : p.precondition ≡ none

pub record PlanInv (sha256_json : PlanContent → String) (id : String) (p : StoredWritePlan)
    : Type 0 where
  pub own_id : p.plan_id ≡ id
  pub closed_is_empty : is_open p.status ≡ false → HasNoPayload p
  pub applied_has_result : p.status ≡ applied → is_some p.result ≡ true
  pub open_is_bound : is_open p.status ≡ true → p.plan_digest ≡ sha256_json (plan_content p)

pub record StoreInv (sha256_json : PlanContent → String) (s : WritePlanStore) : Type 0 where
  pub plans_are_valid : Entries (PlanInv sha256_json) s.plans
  pub within_capacity : count_values plan_is_open s.plans ≤ s.max_pending

IsErased-cleared : (o : Option Values) → IsErased (cleared o)
IsErased-cleared none = tt
IsErased-cleared (some values) = refl

HasNoPayload-clear_payload : (p : StoredWritePlan) → HasNoPayload (clear_payload p)
unfolding clear_payload
HasNoPayload-clear_payload p = record {
  no_current_values = IsErased-cleared p.current_values;
  no_proposed_values = refl;
  no_reason = refl;
  no_precondition = refl;
}

module _ (sha256_json : PlanContent → String) where
  new_plan-PlanInv :
      (r : PlanRequest) (id : String) (expires_at : ℕ)
      → PlanInv sha256_json id (new_plan sha256_json r id expires_at)
  unfolding new_plan digest
  new_plan-PlanInv r id expires_at = record {
    own_id = refl;
    closed_is_empty = λ h. cc;
    applied_has_result = λ h. cc;
    open_is_bound = λ h. refl;
  }

  cleared-PlanInv :
      (id : String) (p : StoredWritePlan)
      → p.plan_id ≡ id
      → is_open p.status ≡ false
      → (p.status ≡ applied → is_some p.result ≡ true)
      → PlanInv sha256_json id (clear_payload p)
  unfolding clear_payload
  cleared-PlanInv id p own closed has = record {
    own_id = own;
    closed_is_empty = λ _. HasNoPayload-clear_payload p;
    applied_has_result = has;
    open_is_bound = λ h. cc (h, closed);
  }

  Move-PlanInv :
      (id : String) {p q : StoredWritePlan}
      → Move p q
      → PlanInv sha256_json id p
      → PlanInv sha256_json id q
  Move-PlanInv id (start h) v = record {
    own_id = v.own_id;
    closed_is_empty = λ e. cc e;
    applied_has_result = λ e. cc e;
    open_is_bound = λ _. v.open_is_bound (rw h);
  }
  Move-PlanInv id (finish r h) v = cleared-PlanInv id _ v.own_id refl (λ _. refl)
  Move-PlanInv id give_up v = cleared-PlanInv id _ v.own_id refl (λ e. cc e)
  Move-PlanInv id lose_track v = cleared-PlanInv id _ v.own_id refl (λ e. cc e)
  Move-PlanInv id (withdraw h) v = cleared-PlanInv id _ v.own_id refl (λ e. cc e)

-- A move never turns a closed plan into an open one.
Move-open : {p q : StoredWritePlan} → Move p q → one_if (plan_is_open q) ≤ one_if (plan_is_open p)
unfolding clear_payload
Move-open (start h) = rw h (omega arith)
Move-open (finish r h) = omega arith
Move-open give_up = omega arith
Move-open lose_track = omega arith
Move-open (withdraw h) = omega arith

module _ (sha256_json : PlanContent → String) where
  pub Transition-StoreInv :
      (draw : Option String) (s t : WritePlanStore)
      → Transition sha256_json draw s t
      → StoreInv sha256_json s
      → StoreInv sha256_json t
  unfolding purge_expired
  Transition-StoreInv draw s t unchanged v = v
  Transition-StoreInv draw s t (dropped id) v = record {
    plans_are_valid = Entries-erase (PlanInv sha256_json) id s.plans v.plans_are_valid;
    within_capacity =
        omega (arith, v.within_capacity, count_values-erase-le plan_is_open id s.plans);
  }
  Transition-StoreInv draw s t (moved id p q e m) v = record {
    plans_are_valid =
        Entries-insert (PlanInv sha256_json) id q s.plans
          (Move-PlanInv sha256_json id m
            (Entries-lookup (PlanInv sha256_json) id s.plans v.plans_are_valid e))
          v.plans_are_valid;
    within_capacity = omega (
      arith,
      v.within_capacity,
      Move-open m,
      count_values-insert-some plan_is_open id q p s.plans e,
    );
  }
  Transition-StoreInv draw s t (purged now) v = record {
    plans_are_valid = Entries-erase_all (PlanInv sha256_json) _ s.plans v.plans_are_valid;
    within_capacity = le_trans (count_values-erase_all-le plan_is_open _ s.plans) v.within_capacity;
  }
  Transition-StoreInv draw s t (created r id now expires_at drawn room) v = record {
    plans_are_valid =
        Entries-insert (PlanInv sha256_json) id (new_plan sha256_json r id expires_at) _
          (new_plan-PlanInv sha256_json r id expires_at)
          (Entries-erase_all (PlanInv sha256_json) _ s.plans v.plans_are_valid);
    within_capacity = omega (
      arith,
      room,
      one_if-le (plan_is_open (new_plan sha256_json r id expires_at)),
      count_values-insert_new plan_is_open id (new_plan sha256_json r id expires_at)
          (purge_expired now s).plans,
    );
  }

  -- After any sequence of calls, whatever their arguments and whether they return or raise, on a
  -- store where this holds: every stored plan stands under its own identifier; a closed plan holds
  -- no values, reason or precondition; an applied one holds its result; the digest of an open one
  -- is the digest of its content; and no more plans are open than `max_pending`.
  pub run-StoreInv :
      (cs : List Call) (s : WritePlanStore)
      → StoreInv sha256_json s
      → StoreInv sha256_json (run sha256_json cs s)
  run-StoreInv cs s v = run_induction sha256_json Transition-StoreInv cs s v
