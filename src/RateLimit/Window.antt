-- ===== src/RateLimit/Window.antt =====
-- No window of a minute holds more accepted events of a target than the limit.
use helix_mcp_gateway.Prelude.{
  ℕ, ◌+◌, ◌≤◌, ◌<◌, ◌≡◌, refl, inl, inr, Bool, false, not, ◌&&◌, List, [], ◌∷◌, ◌++◌, arith, leb,
  leb→le, leb→lt, length, count_if, one_if-le, Bool-cases, if◌then◌else◌,
}
use helix_mcp_gateway.RateLimit.{is_old, drop_old, acquire_event}

-- Whether an event lies in the minute that ends with `t`.
abbrev pub in_window : ℕ → ℕ → Bool
in_window t event = leb event t && not (is_old t event)

-- The times at which a sequence of calls for one target was allowed, newest first.
unfoldable pub accepted : ℕ → List ℕ → List ℕ → List ℕ → List ℕ
accepted limit events [] log = log
accepted limit events (now ∷ times) log =
    accepted limit (acquire_event limit now events).1 times
      (if (acquire_event limit now events).0 then now ∷ log else log)

-- The readings of the clock do not go back.
abbrev pub IsMonotone : ℕ → List ℕ → Type 0
IsMonotone last [] = Unit {0}
IsMonotone last (now ∷ times) = (last ≤ now) × IsMonotone now times

count-append :
    (p : ℕ → Bool) (xs ys : List ℕ) → count_if p (xs ++ ys) ≡ count_if p xs + count_if p ys
count-append p [] ys = omega arith
count-append p (x ∷ xs) ys = omega (arith, count-append p xs ys)

count-le-length : (p : ℕ → Bool) (xs : List ℕ) → count_if p xs ≤ length xs
count-le-length p [] = omega arith
count-le-length p (x ∷ xs) = omega (arith, count-le-length p xs, one_if-le (p x))

-- What is dropped is in no later window.
count-drop_old :
    (t now : ℕ) (events : List ℕ)
    → now ≤ t
    → count_if (in_window t) (drop_old now events) ≡ count_if (in_window t) events
unfolding drop_old
count-drop_old t now [] h = refl
count-drop_old t now (event ∷ events) h = ground (arith, count-drop_old t now events h)

later_out : (t now : ℕ) → t < now → in_window t now ≡ false
later_out t now h = ground arith

record Inv (limit last : ℕ) (events log : List ℕ) : Type 0 where
  bounded : (t : ℕ) → count_if (in_window t) log ≤ limit
  tracked : (t : ℕ) → last ≤ t → count_if (in_window t) log ≡ count_if (in_window t) events

module _ (limit last now : ℕ) (events log : List ℕ) (later : last ≤ now)
    (v : Inv limit last events log) where
  recent_tracked :
      (t : ℕ) → now ≤ t → count_if (in_window t) log ≡ count_if (in_window t) (drop_old now events)
  recent_tracked t h = omega (arith, v.tracked t (omega arith), count-drop_old t now events h)

  accept-bounded :
      length (drop_old now events) < limit → (t : ℕ) → count_if (in_window t) (now ∷ log) ≤ limit
  accept-bounded room t = elim (Bool-cases (leb now t)) [
    | inl past ↦ omega (
      arith,
      recent_tracked t (leb→le now t past),
      one_if-le (in_window t now),
      count-le-length (in_window t) (drop_old now events),
    )
    | inr future ↦ rw (later_out t now (leb→lt now t future)) (omega (arith, v.bounded t))
  ]

  step-Inv :
      Inv limit now
        (acquire_event limit now events).1
        (if (acquire_event limit now events).0 then now ∷ log else log)
  unfolding acquire_event
  step-Inv = elim (Bool-cases (leb limit (length (drop_old now events)))) [
    | inl full ↦ rw (full, acquire_event) (record { bounded = v.bounded; tracked = recent_tracked })
    | inr room ↦
        rw (room, acquire_event)
          (record {
            bounded = accept-bounded (leb→lt _ _ room);
            tracked = λ t h. omega (
              arith,
              recent_tracked t h,
              count-append (in_window t) (drop_old now events) (now ∷ []),
            );
          })
  ]

accepted-bounded :
    (limit last : ℕ) (events times log : List ℕ)
    → IsMonotone last times
    → Inv limit last events log
    → (t : ℕ) → count_if (in_window t) (accepted limit events times log) ≤ limit
unfolding accepted
accepted-bounded limit last events [] log m v t = v.bounded t
accepted-bounded limit last events (now ∷ times) log m v t =
    accepted-bounded limit now _ times _ m.1 (step-Inv limit last now events log m.0 v) t

-- From an empty deque, and while the clock does not go back, the calls for one target that are
-- allowed within any minute, wherever it begins, are at most `limit`.
pub accepted-le-limit :
    (limit : ℕ) (times : List ℕ) (t : ℕ)
    → IsMonotone 0 times
    → count_if (in_window t) (accepted limit [] times []) ≤ limit
accepted-le-limit limit times t m =
    accepted-bounded limit 0 [] times [] m
      (record { bounded = λ t. omega arith; tracked = λ t h. refl }) t
