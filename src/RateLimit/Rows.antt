-- ===== src/RateLimit/Rows.antt =====
-- The times that the rows of the shared database hold for a target.
use helix_mcp_gateway.Prelude.{
  ℕ, ◌≤◌, ◌≡◌, refl, Bool, false, not, List, [], ◌∷◌, ◌++◌, String, arith, length, count_if,
  keep_if, if◌then◌else◌,
}
use helix_mcp_gateway.Prelude.Equality.{◌==◌, string_eq}
use helix_mcp_gateway.Config.{
  Environment, dev, qa, prod, TargetKey, target_key_eq, target_key_beq, environment_beq,
}
use helix_mcp_gateway.RateLimit.{is_old, drop_old, Event, target_text, is_for}
use helix_mcp_gateway.RateLimit.Window.{IsMonotone}

abbrev pub fresh : ℕ → ℕ → Bool
fresh now event = not (is_old now event)

-- The times of the rows of one scope and target.
unfoldable pub times_for : String → String → List Event → List ℕ
times_for scope target [] = []
times_for scope target (row ∷ rows) =
    let rest = times_for scope target rows in
    if is_for scope target row then row.occurred_at ∷ rest else rest

pub target_text-beq : (a b : TargetKey) → (target_text a == target_text b) ≡ (a == b)
unfolding target_text target_key_beq environment_beq
target_text-beq a b = texts a.environment b.environment
  where
    texts :
        (x y : Environment)
        → (target_text (record { environment = x }) == target_text (record { environment = y }))
          ≡ (◌==◌ {T = TargetKey} (record { environment = x }) (record { environment = y }))
    texts dev dev = refl
    texts dev qa = refl
    texts dev prod = refl
    texts qa dev = refl
    texts qa qa = refl
    texts qa prod = refl
    texts prod dev = refl
    texts prod qa = refl
    texts prod prod = refl

pub keep_fresh_all :
    (now last : ℕ) (events : List ℕ)
    → IsMonotone last events
    → is_old now last ≡ false
    → keep_if (fresh now) events ≡ events
keep_fresh_all now last [] m h = refl
keep_fresh_all now last (event ∷ events) m h =
    ground (arith, m.0, keep_fresh_all now event events m.1)

pub drop_old-keep_if :
    (now last : ℕ) (events : List ℕ)
    → IsMonotone last events
    → drop_old now events ≡ keep_if (fresh now) events
unfolding drop_old
drop_old-keep_if now last [] m = refl
drop_old-keep_if now last (event ∷ events) m =
    ground (arith, drop_old-keep_if now event events m.1, keep_fresh_all now event events m.1)

pub keep_fresh_twice :
    (last now : ℕ) (xs : List ℕ)
    → last ≤ now
    → keep_if (fresh now) (keep_if (fresh last) xs) ≡ keep_if (fresh now) xs
keep_fresh_twice last now [] h = refl
keep_fresh_twice last now (x ∷ xs) h = ground (arith, keep_fresh_twice last now xs h)

pub times_for-keep :
    (scope target : String) (now : ℕ) (rows : List Event)
    → times_for scope target (keep_if (λ (row : Event). fresh now row.occurred_at) rows)
      ≡ keep_if (fresh now) (times_for scope target rows)
unfolding times_for
times_for-keep scope target now [] = refl
times_for-keep scope target now (row ∷ rows) = ground (arith, times_for-keep scope target now rows)

pub length-times_for :
    (scope target : String) (rows : List Event)
    → length (times_for scope target rows) ≡ count_if (is_for scope target) rows
unfolding times_for
length-times_for scope target [] = refl
length-times_for scope target (row ∷ rows) = ground (arith, length-times_for scope target rows)

pub times_for-append :
    (scope target : String) (rows : List Event) (row : Event)
    → times_for scope target (rows ++ (row ∷ []))
      ≡ times_for scope target rows
        ++ (if is_for scope target row then row.occurred_at ∷ [] else [])
unfolding times_for
times_for-append scope target [] row = refl
times_for-append scope target (r ∷ rows) row =
    ground (arith, times_for-append scope target rows row)
