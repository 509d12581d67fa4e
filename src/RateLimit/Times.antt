-- ===== src/RateLimit/Times.antt =====
-- Times in order, and what one call does to the deque of a target.
use helix_mcp_gateway.Prelude.{
  ℕ, ◌≤◌, ◌≡◌, refl, inl, inr, Bool, true, false, List, [], ◌∷◌, ◌++◌, arith, leb, length, keep_if,
  All, Bool-cases,
}
use helix_mcp_gateway.Prelude.Equality.{string_eq}
use helix_mcp_gateway.Config.{target_key_eq}
use helix_mcp_gateway.RateLimit.{is_old, drop_old, acquire_event}
use helix_mcp_gateway.RateLimit.Window.{IsMonotone}

pub keep_if-append :
    (p : ℕ → Bool) (xs ys : List ℕ) → keep_if p (xs ++ ys) ≡ keep_if p xs ++ keep_if p ys
keep_if-append p [] ys = refl
keep_if-append p (x ∷ xs) ys = ground (arith, keep_if-append p xs ys)

pub IsMonotone-weaken : (m n : ℕ) (xs : List ℕ) → m ≤ n → IsMonotone n xs → IsMonotone m xs
IsMonotone-weaken m n [] h v = tt
IsMonotone-weaken m n (x ∷ xs) h v = (omega arith, v.1)

pub IsMonotone-drop_old :
    (now m : ℕ) (xs : List ℕ) → IsMonotone m xs → IsMonotone m (drop_old now xs)
unfolding drop_old
IsMonotone-drop_old now m [] v = tt
IsMonotone-drop_old now m (x ∷ xs) v =
    ground (arith, IsMonotone-drop_old now x xs v.1, IsMonotone-weaken m x (drop_old now xs) v.0)

pub drop_old-nil : (now : ℕ) → drop_old now [] ≡ []
unfolding drop_old
drop_old-nil now = refl

pub drop_old-old :
    (now x : ℕ) (xs : List ℕ) → is_old now x ≡ true → drop_old now (x ∷ xs) ≡ drop_old now xs
unfolding drop_old
drop_old-old now x xs e = ground arith

pub drop_old-fresh :
    (now x : ℕ) (xs : List ℕ) → is_old now x ≡ false → drop_old now (x ∷ xs) ≡ x ∷ xs
unfolding drop_old
drop_old-fresh now x xs e = ground arith

pub All-weaken :
    (last now : ℕ) (xs : List ℕ) → last ≤ now → All (λ x. x ≤ last) xs → All (λ x. x ≤ now) xs
All-weaken last now [] h v = tt
All-weaken last now (x ∷ xs) h v = (omega arith, All-weaken last now xs h v.1)

pub All-drop_old :
    (now last : ℕ) (xs : List ℕ)
    → last ≤ now
    → All (λ x. x ≤ last) xs
    → All (λ x. x ≤ now) (drop_old now xs)
All-drop_old now last [] h v = rw (drop_old-nil now) tt
All-drop_old now last (x ∷ xs) h v = elim (Bool-cases (is_old now x)) [
  | inl e ↦ rw (drop_old-old now x xs e) (All-drop_old now last xs h v.1)
  | inr e ↦ rw (drop_old-fresh now x xs e) (omega arith, All-weaken last now xs h v.1)
]

pub IsMonotone-concat :
    (m now : ℕ) (xs : List ℕ)
    → m ≤ now
    → IsMonotone m xs
    → All (λ x. x ≤ now) xs
    → IsMonotone m (xs ++ (now ∷ []))
IsMonotone-concat m now [] h v a = (h, tt)
IsMonotone-concat m now (x ∷ xs) h v a = (v.0, IsMonotone-concat x now xs a.0 v.1 a.1)

pub All-concat :
    (now : ℕ) (xs : List ℕ) → All (λ x. x ≤ now) xs → All (λ x. x ≤ now) (xs ++ (now ∷ []))
All-concat now [] a = (omega arith, tt)
All-concat now (x ∷ xs) a = (a.0, All-concat now xs a.1)

pub acquire_event-full :
    (limit now : ℕ) (events : List ℕ)
    → leb limit (length (drop_old now events)) ≡ true
    → (acquire_event limit now events).1 ≡ drop_old now events
unfolding acquire_event
acquire_event-full limit now events e = ground arith

pub acquire_event-room :
    (limit now : ℕ) (events : List ℕ)
    → leb limit (length (drop_old now events)) ≡ false
    → (acquire_event limit now events).1 ≡ drop_old now events ++ (now ∷ [])
unfolding acquire_event
acquire_event-room limit now events e = ground arith
