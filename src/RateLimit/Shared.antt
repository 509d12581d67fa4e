-- ===== src/RateLimit/Shared.antt =====
-- The counter in the shared database answers as the counter in memory does.
use mathlib.Core.List.{append-nil}
use helix_mcp_gateway.Prelude.{
  ℕ, ◌≤◌, ◌≡◌, refl, sym, ap, ap₂, ◌∙◌, map, inl, inr, Bool, true, false, List, [], ◌∷◌, ◌++◌,
  String, arith, leb, length, keep_if, All, Bool-cases, if◌then◌else◌,
}
use helix_mcp_gateway.Prelude.Equality.{◌==◌, string_eq}
use helix_mcp_gateway.Prelude.Dict.{lookup, lookup-insert}
use helix_mcp_gateway.Prelude.Action.{Result, ok}
use helix_mcp_gateway.Errors.{Exn}
use helix_mcp_gateway.Config.{TargetKey, target_key_eq}
use helix_mcp_gateway.RateLimit.{
  drop_old, acquire_event, events_of, SlidingWindowCounter, acquire, Event, target_text, is_for,
  acquire_rows, transaction, acquire_persistent,
}
use helix_mcp_gateway.RateLimit.Window.{IsMonotone}
use helix_mcp_gateway.RateLimit.Rows.{
  fresh, times_for, target_text-beq, drop_old-keep_if, keep_fresh_twice, times_for-keep,
  length-times_for, times_for-append,
}
use helix_mcp_gateway.RateLimit.Times.{
  IsMonotone-drop_old, All-weaken, All-drop_old, IsMonotone-concat, All-concat, acquire_event-full,
  acquire_event-room,
}

-- The rows of the counter's scope and its deques hold, for each target, the same times that were
-- not old at the last reading of the clock; and the deques are in order.
pub record Agrees (scope : String) (last : ℕ) (rows : List Event) (c : SlidingWindowCounter)
    : Type 0 where
  pub same :
      (k : TargetKey)
      → keep_if (fresh last) (times_for scope (target_text k) rows)
        ≡ keep_if (fresh last) (events_of k c)
  pub ordered : (k : TargetKey) → IsMonotone 0 (events_of k c)
  pub past : (k : TargetKey) → All (λ event. event ≤ last) (events_of k c)

abbrev kept : ℕ → List Event → List Event
kept now rows = keep_if (λ (row : Event). fresh now row.occurred_at) rows

module _ (scope : String) (k : TargetKey) (limit last now : ℕ) (rows : List Event)
    (c : SlidingWindowCounter) (later : last ≤ now) (a : Agrees scope last rows c) where
  kept_same :
      (j : TargetKey)
      → times_for scope (target_text j) (kept now rows) ≡ drop_old now (events_of j c)
  kept_same j =
      times_for-keep scope (target_text j) now rows
      ∙ sym (keep_fresh_twice last now (times_for scope (target_text j) rows) later)
      ∙ ap (keep_if (fresh now)) (a.same j)
      ∙ keep_fresh_twice last now (events_of j c) later
      ∙ sym (drop_old-keep_if now 0 (events_of j c) (a.ordered j))

  same_answer : (acquire_rows scope (target_text k) limit now rows).0 ≡ (acquire k limit now c).0
  unfolding acquire_rows acquire acquire_event
  same_answer = ground (arith, kept_same k, length-times_for scope (target_text k) (kept now rows))

  drop_old-events :
      (j : TargetKey)
      → keep_if (fresh now) (drop_old now (events_of j c)) ≡ keep_if (fresh now) (events_of j c)
  drop_old-events j =
      ap (keep_if (fresh now)) (drop_old-keep_if now 0 (events_of j c) (a.ordered j))
      ∙ keep_fresh_twice now now (events_of j c) (omega arith)

  abbrev new_row : Event
  new_row = record { scope = scope; target = target_text k; occurred_at = now }

  abbrev recent : List ℕ
  recent = (acquire_event limit now (events_of k c)).1

  events_of-acquire :
      (j : TargetKey)
      → events_of j (acquire k limit now c).1 ≡ (if k == j then recent else events_of j c)
  unfolding acquire
  events_of-acquire j = ground (arith, lookup-insert k j recent c.events)

  recent_ordered : IsMonotone 0 recent × All (λ event. event ≤ now) recent
  recent_ordered =
      let dropped = IsMonotone-drop_old now 0 (events_of k c) (a.ordered k) in
      let below = All-drop_old now last (events_of k c) later (a.past k) in
      elim (Bool-cases (leb limit (length (drop_old now (events_of k c))))) [
        | inl full ↦ rw (acquire_event-full limit now _ full) (dropped, below)
        | inr room ↦
            rw (acquire_event-room limit now _ room)
              (IsMonotone-concat 0 now _ (omega arith) dropped below, All-concat now _ below)
      ]

  acquire_rows-full :
      leb limit (length (drop_old now (events_of k c))) ≡ true
      → (acquire_rows scope (target_text k) limit now rows).1 ≡ kept now rows
  unfolding acquire_rows
  acquire_rows-full e =
      ground (arith, kept_same k, length-times_for scope (target_text k) (kept now rows))

  acquire_rows-room :
      leb limit (length (drop_old now (events_of k c))) ≡ false
      → (acquire_rows scope (target_text k) limit now rows).1 ≡ kept now rows ++ (new_row ∷ [])
  unfolding acquire_rows
  acquire_rows-room e =
      ground (arith, kept_same k, length-times_for scope (target_text k) (kept now rows))

  unchanged_same :
      (j : TargetKey)
      → keep_if (fresh now) (times_for scope (target_text j) (kept now rows))
        ≡ keep_if (fresh now) (events_of j c)
  unchanged_same j = ap (keep_if (fresh now)) (kept_same j) ∙ drop_old-events j

  is_for-new_row : (j : TargetKey) → is_for scope (target_text j) new_row ≡ (k == j)
  is_for-new_row j = ground (arith, (string_eq.reflects scope scope).1 refl, target_text-beq k j)

  times_for-new_row :
      (j : TargetKey)
      → times_for scope (target_text j) (kept now rows ++ (new_row ∷ []))
        ≡ drop_old now (events_of j c) ++ (if k == j then now ∷ [] else [])
  times_for-new_row j =
      rw (times_for-append scope (target_text j) (kept now rows) new_row)
        (rw (is_for-new_row j) (rw (kept_same j)))

  full_same :
      (j : TargetKey)
      → leb limit (length (drop_old now (events_of k c))) ≡ true
      → keep_if (fresh now) (events_of j c)
        ≡ keep_if (fresh now) (if k == j then recent else events_of j c)
  full_same j full = elim (Bool-cases (k == j)) [
    | inl e ↦
        let same : k ≡ j = (target_key_eq.reflects k j).0 e in
        rw e (rw (acquire_event-full limit now _ full) (rw (← same) (sym (drop_old-events k))))
    | inr e ↦ rw e
  ]

  room_same :
      (j : TargetKey)
      → leb limit (length (drop_old now (events_of k c))) ≡ false
      → keep_if (fresh now) (drop_old now (events_of j c) ++ (if k == j then now ∷ [] else []))
        ≡ keep_if (fresh now) (if k == j then recent else events_of j c)
  room_same j room = elim (Bool-cases (k == j)) [
    | inl e ↦
        let same : k ≡ j = (target_key_eq.reflects k j).0 e in
        rw e (rw (acquire_event-room limit now _ room) (rw (← same)))
    | inr e ↦ rw e (rw (append-nil (drop_old now (events_of j c))) (drop_old-events j))
  ]

  times_for-acquire :
      (j : TargetKey)
      → keep_if
          (fresh now)
          (times_for scope (target_text j) (acquire_rows scope (target_text k) limit now rows).1)
        ≡ keep_if (fresh now) (if k == j then recent else events_of j c)
  times_for-acquire j = elim (Bool-cases (leb limit (length (drop_old now (events_of k c))))) [
    | inl full ↦ rw (acquire_rows-full full) (rw (unchanged_same j) (full_same j full))
    | inr room ↦ rw (acquire_rows-room room) (rw (times_for-new_row j) (room_same j room))
  ]

  next :
      Agrees scope now
        (acquire_rows scope (target_text k) limit now rows).1
        (acquire k limit now c).1
  next = record {
    same = λ j. rw (events_of-acquire j) (times_for-acquire j);
    ordered = λ j.
        rw (events_of-acquire j) (elim (Bool-cases (k == j)) [
          | inl e ↦ rw e recent_ordered.0
          | inr e ↦ rw e (a.ordered j)
        ]);
    past = λ j. rw (events_of-acquire j) (elim (Bool-cases (k == j)) [
      | inl e ↦ rw e recent_ordered.1
      | inr e ↦ rw e (All-weaken last now (events_of j c) later (a.past j))
    ]);
  }

-- A sequence of calls on the shared database, each with its target, limit and clock reading, and
-- the answers; every transaction goes through.
unfoldable pub answers_shared :
    String → List Event → List (TargetKey × ℕ × ℕ) → List (Result Exn Bool)
answers_shared scope rows [] = []
answers_shared scope rows ((k, limit, now) ∷ calls) =
    (acquire_persistent false scope k limit now rows).0
    ∷ answers_shared scope (acquire_persistent false scope k limit now rows).1 calls

-- The same calls on the counter in memory.
unfoldable pub answers_in_memory :
    SlidingWindowCounter → List (TargetKey × ℕ × ℕ) → List (Result Exn Bool)
answers_in_memory c [] = []
answers_in_memory c ((k, limit, now) ∷ calls) =
    ok (acquire k limit now c).0 ∷ answers_in_memory (acquire k limit now c).1 calls

abbrev pub call_times : List (TargetKey × ℕ × ℕ) → List ℕ
call_times = map (λ call. call.2)

answers-Agrees :
    (scope : String) (last : ℕ) (rows : List Event) (c : SlidingWindowCounter)
    (calls : List (TargetKey × ℕ × ℕ))
    → IsMonotone last (call_times calls)
    → Agrees scope last rows c
    → answers_shared scope rows calls ≡ answers_in_memory c calls
unfolding answers_shared answers_in_memory acquire_persistent transaction
answers-Agrees scope last rows c [] m a = refl
answers-Agrees scope last rows c ((k, limit, now) ∷ calls) m a =
    ap₂ ◌∷◌ (ap ok (same_answer scope k limit last now rows c m.0 a))
      (answers-Agrees scope now _ _ calls m.1 (next scope k limit last now rows c m.0 a))

-- For any calls for any targets with any limits, while the clock does not go back, the shared
-- database that holds no rows of the scope, whatever it holds of other scopes, gives the answers
-- that a new counter in memory gives.
pub answers_shared-eq-in_memory :
    (scope : String) (rows : List Event) (calls : List (TargetKey × ℕ × ℕ))
    → ((k : TargetKey) → times_for scope (target_text k) rows ≡ [])
    → IsMonotone 0 (call_times calls)
    → answers_shared scope rows calls ≡ answers_in_memory (record { events = [] }) calls
unfolding lookup
answers_shared-eq-in_memory scope rows calls none_yet m =
    answers-Agrees scope 0 rows (record { events = [] }) calls m
      (record { same = λ k. rw (none_yet k); ordered = λ k. tt; past = λ k. tt })
