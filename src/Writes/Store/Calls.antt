-- ===== src/Writes/Store/Calls.antt =====
-- A history of a `WritePlanStore`: any sequence of calls of its methods, by any callers, each with
-- the readings of the clock that it makes. The lock makes every call one step.
use helix_mcp_gateway.Prelude.{
  ℕ, ◌+◌, Bool, true, false, Option, none, some, refl, if◌then◌else◌, List, [], ◌∷◌, String, one_if,
}
use helix_mcp_gateway.Prelude.Equality.{◌==◌, string_eq}
use helix_mcp_gateway.Prelude.Action.{Result, ok, err}
use helix_mcp_gateway.Errors.{Exn}
use helix_mcp_gateway.Config.{TargetKey}
use helix_mcp_gateway.Writes.Models.{WriteOperation, ApplyWriteResult}
use helix_mcp_gateway.Writes.Store.{
  WritePlanStore, PlanContent, PlanRequest, AcquiredWritePlan, acquired_plan, reused, create,
  acquire, complete, fail, get, cancel,
}
use helix_mcp_gateway.Writes.Store.Moves.{
  Transition, create-Transition, acquire-Transition, complete-Transition, fail-Transition,
  get-Transition, cancel-Transition,
}

pub data Call : Type 0 where
  creates : PlanRequest → String → ℕ → ℕ → Call
  acquires : String → String → WriteOperation → TargetKey → ℕ → Call
  completes : String → ApplyWriteResult → Call
  fails : String → Bool → Call
  gets : String → TargetKey → ℕ → Call
  cancels : String → TargetKey → ℕ → Call

-- Whether `acquire` gave its caller a plan to apply.
abbrev pub hands_out : Result Exn AcquiredWritePlan → Bool
hands_out (ok (acquired_plan plan)) = true
hands_out (ok (reused result)) = false
hands_out (err x) = false

-- One for a call that gives its caller the plan `id` to apply.
unfoldable pub handed : String → Call → WritePlanStore → ℕ
handed id (acquires j d op t now) s =
    if j == id then one_if (hands_out (acquire j d op t now s).0) else 0
handed id _ s = 0

-- The identifier that a `create` draws.
abbrev pub drawn_by : Call → Option String
drawn_by (creates r j t₁ t₂) = some j
drawn_by _ = none

-- One for a `create` that draws the identifier `id`.
abbrev pub draws : String → Option String → ℕ
draws id (some j) = one_if (j == id)
draws id none = 0

abbrev pub times_drawn : String → List Call → ℕ
times_drawn id [] = 0
times_drawn id (c ∷ cs) = draws id (drawn_by c) + times_drawn id cs

module _ (sha256_json : PlanContent → String) where
  -- The store after a call.
  unfoldable pub after_call : Call → WritePlanStore → WritePlanStore
  after_call (creates r id t₁ t₂) s = (create sha256_json r id t₁ t₂ s).1
  after_call (acquires id d op t now) s = (acquire id d op t now s).1
  after_call (completes id r) s = (complete id r s).1
  after_call (fails id unknown) s = (fail id unknown s).1
  after_call (gets id t now) s = (get id t now s).1
  after_call (cancels id t now) s = (cancel id t now s).1

  unfoldable pub run : List Call → WritePlanStore → WritePlanStore
  run [] s = s
  run (c ∷ cs) s = run cs (after_call c s)

  -- How often the calls of a history gave out the plan `id`.
  unfoldable pub times_handed : String → List Call → WritePlanStore → ℕ
  times_handed id [] s = 0
  times_handed id (c ∷ cs) s = handed id c s + times_handed id cs (after_call c s)

  -- Every call, with any arguments, on any store and whether it returns or raises, changes the
  -- store by one of the allowed transitions: nothing, a plan dropped, the expired plans purged, a
  -- plan created, or one plan moved, which only starts from pending, finishes from applying, is
  -- withdrawn from pending, or is marked failed or of unknown outcome.
  pub after_call-Transition :
      (c : Call) (s : WritePlanStore) → Transition sha256_json (drawn_by c) s (after_call c s)
  unfolding after_call
  after_call-Transition (creates r id t₁ t₂) s =
      create-Transition sha256_json (some id) s r id t₁ t₂ refl
  after_call-Transition (acquires id d op t now) s =
      acquire-Transition sha256_json none s id d op t now
  after_call-Transition (completes id r) s = complete-Transition sha256_json none s id r
  after_call-Transition (fails id unknown) s = fail-Transition sha256_json none s id unknown
  after_call-Transition (gets id t now) s = get-Transition sha256_json none s id t now
  after_call-Transition (cancels id t now) s = cancel-Transition sha256_json none s id t now

  module _ {P : WritePlanStore → Type 0} where
    -- What every transition keeps holds after every history.
    pub run_induction :
        ((draw : Option String) (s t : WritePlanStore)
          → Transition sha256_json draw s t
          → P s
          → P t)
        → (cs : List Call) (s : WritePlanStore) → P s
        → P (run cs s)
    unfolding run
    run_induction keep [] s h = h
    run_induction keep (c ∷ cs) s h =
        run_induction keep cs (after_call c s)
          (keep (drawn_by c) s (after_call c s) (after_call-Transition c s) h)
