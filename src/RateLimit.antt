-- ===== src/RateLimit.antt =====
-- src/helix_mcp/services/rate_limit.py: `SlidingWindowCounter`, in the memory of one process and in
-- the shared SQLite database. Times are in microseconds. Where the source compares `t <= now - 60`,
-- which may be negative, the model compares `t + 60 s <= now`.
pub mod Window
pub mod Rows
pub mod Times
pub mod Shared
use helix_mcp_gateway.Prelude.{
  ℕ, suc, ◌+◌, ◌*◌, Bool, true, false, not, ◌&&◌, Option, none, some, List, [], ◌∷◌, ◌++◌, String,
  leb, length, keep_if, count_if, if◌then◌else◌,
}
use helix_mcp_gateway.Prelude.Equality.{◌==◌, string_eq}
use helix_mcp_gateway.Prelude.Dict.{Dict, lookup, insert}
use helix_mcp_gateway.Prelude.Action.{Result, ok, err}
use helix_mcp_gateway.Errors.{Exn, rate_limit_persistence}
use helix_mcp_gateway.Config.{Environment, dev, qa, prod, TargetKey, target_key_eq}

-- `_WINDOW_SECONDS`
unfoldable pub window : ℕ
window = 60 * 1000000

-- `event <= oldest_allowed`, where `oldest_allowed = now - _WINDOW_SECONDS`
abbrev pub is_old : ℕ → ℕ → Bool
is_old now event = leb (event + window) now

-- The events of each target, oldest first.
pub record SlidingWindowCounter : Type 0 where
  pub events : Dict TargetKey (List ℕ)

-- `while events and events[0] <= oldest_allowed: events.popleft()`
unfoldable pub drop_old : ℕ → List ℕ → List ℕ
drop_old now [] = []
drop_old now (event ∷ events) =
    let rest = drop_old now events in if is_old now event then rest else event ∷ events

-- The deque of one target after `acquire`, and the answer.
unfoldable pub acquire_event : ℕ → ℕ → List ℕ → Bool × List ℕ
acquire_event limit now events =
    let recent = drop_old now events in
    if leb limit (length recent) then (false, recent) else (true, recent ++ (now ∷ []))

abbrev pub events_of : TargetKey → SlidingWindowCounter → List ℕ
events_of target c = elim (lookup target c.events) [ none ↦ [] | some events ↦ events ]

-- `acquire` without a database
unfoldable pub acquire : TargetKey → ℕ → ℕ → SlidingWindowCounter → Bool × SlidingWindowCounter
acquire target limit now c =
    let (allowed, events) = acquire_event limit now (events_of target c) in
    (allowed, record { events = insert target events c.events })

-- A row of the table `rate_limit_events`.
pub record Event : Type 0 where
  pub scope : String
  pub target : String
  pub occurred_at : ℕ

-- `str(target)`
unfoldable pub target_text : TargetKey → String
target_text k = elim k.environment [ dev ↦ "helix.dev" | qa ↦ "helix.qa" | prod ↦ "helix.prod" ]

abbrev pub is_for : String → String → Event → Bool
is_for scope target row = row.scope == scope && row.target == target

-- The three statements of `_acquire_persistent`
unfoldable pub acquire_rows : String → String → ℕ → ℕ → List Event → Bool × List Event
acquire_rows scope target limit now rows =
    let kept = keep_if (λ (row : Event). not (is_old now row.occurred_at)) rows in
    if leb limit (count_if (is_for scope target) kept)
    then (false, kept)
    else (true, kept ++ (record { scope = scope; target = target; occurred_at = now } ∷ []))

-- `_transaction`: SQLite either runs the operation and commits, or fails and the rows are as before.
unfoldable pub transaction {ℓ} :
    {A : Type ℓ} → Bool → (List Event → A × List Event) → List Event → Result Exn A × List Event
transaction true operation rows = (err rate_limit_persistence, rows)
transaction false operation rows = let (a, rows') = operation rows in (ok a, rows')

-- `acquire` with a database
unfoldable pub acquire_persistent :
    Bool → String → TargetKey → ℕ → ℕ → List Event → Result Exn Bool × List Event
acquire_persistent sqlite_fails scope target limit now rows =
    transaction sqlite_fails (acquire_rows scope (target_text target) limit now) rows
