-- ===== src/Forms/Cache/Bounded.antt =====
-- The caches stay within their bound.
use helix_mcp_gateway.Prelude.{
  ℕ, ◌+◌, ◌≤◌, ◌<◌, ◌≡◌, refl, sym, ap, subst, ◌∙◌, suc, inl, inr, ◌⊎◌, Bool, true, false, none,
  some, List, [], ◌∷◌, leb, ltb, leb→lt, length, any_of, arith, Bool-cases, Option-cases,
}
use helix_mcp_gateway.Prelude.Equality.{Eq, ◌==◌}
use helix_mcp_gateway.Prelude.Dict.{Dict, lookup, insert, erase}
use helix_mcp_gateway.Prelude.Action.{Result, ok, Result-cases}
use helix_mcp_gateway.Errors.{Exn}
use helix_mcp_gateway.Forms.Cache.{
  Cache, max_entries, cached, oldest_of, make_room, looked_up, fetch_locked,
}

module _ {K W : Type 0} ⦃key_eq : Eq K⦄ where
  length-insert-le : (k : K) (v : W) (d : Dict K W) → length (insert k v d) ≤ suc (length d)
  unfolding insert
  length-insert-le k v [] = omega arith
  length-insert-le k v ((j, w) ∷ d) = elim (Bool-cases (j == k)) [
    | inl e ↦ rw e (omega arith)
    | inr e ↦ rw e (omega (arith, length-insert-le k v d))
  ]

  length-erase-le : (k : K) (d : Dict K W) → length (erase k d) ≤ length d
  unfolding erase
  length-erase-le k [] = omega arith
  length-erase-le k ((j, w) ∷ d) = elim (Bool-cases (j == k)) [
    | inl e ↦ rw e (omega (arith, length-erase-le k d))
    | inr e ↦ rw e (omega (arith, length-erase-le k d))
  ]

  -- A key that is there makes the dictionary shorter when it leaves.
  length-erase-lt :
      (k : K) (d : Dict K W)
      → any_of (λ entry. entry.0 == k) d ≡ true
      → length (erase k d) < length d
  unfolding erase
  length-erase-lt k [] h = absurd (cc h)
  length-erase-lt k ((j, w) ∷ d) h = elim (Bool-cases (j == k)) [
    | inl e ↦ rw e (omega (arith, length-erase-le k d))
    | inr e ↦
        let there : any_of (λ entry. entry.0 == k) d ≡ true = ground (arith, h, e) in
        rw e (omega (arith, length-erase-lt k d there))
  ]

module _ {K V : Type 0} ⦃key_eq : Eq K⦄ where
  abbrev holds : K → Cache K V → Bool
  holds key cache = any_of (λ entry. entry.0 == key) cache

  holds-cons :
      (key j : K) (e : ℕ × V) (cache : Cache K V)
      → holds key cache ≡ true
      → holds key ((j, e) ∷ cache) ≡ true
  holds-cons key j e cache h = ground (arith, h)

  holds_first : (key : K) (e : ℕ × V) (cache : Cache K V) → holds key ((key, e) ∷ cache) ≡ true
  holds_first key e cache = rw ((key_eq.reflects key key).1 refl) refl

  oldest_takes :
      (best key : K) (expires other : ℕ) (w : V) (cache : Cache K V)
      → ltb other expires ≡ true
      → oldest_of best expires ((key, (other, w)) ∷ cache) ≡ oldest_of key other cache
  unfolding oldest_of
  oldest_takes best key expires other w cache e = rw e refl

  oldest_keeps :
      (best key : K) (expires other : ℕ) (w : V) (cache : Cache K V)
      → ltb other expires ≡ false
      → oldest_of best expires ((key, (other, w)) ∷ cache) ≡ oldest_of best expires cache
  unfolding oldest_of
  oldest_keeps best key expires other w cache e = rw e refl

  holds_skip :
      (k best key : K) (e f : ℕ × V) (cache : Cache K V)
      → holds k ((best, e) ∷ cache) ≡ true
      → holds k ((best, e) ∷ (key, f) ∷ cache) ≡ true
  holds_skip k best key e f cache h = elim (Bool-cases (best == k)) [
    | inl b ↦ ground (arith, b)
    | inr b ↦ ground (arith, b, h)
  ]

  oldest_of-holds_nil :
      (best : K) (expires : ℕ) (value : V)
      → holds (oldest_of {V = V} best expires []) ((best, (expires, value)) ∷ []) ≡ true
  unfolding oldest_of
  oldest_of-holds_nil best expires value = holds_first best (expires, value) []

  oldest_of-holds :
      (best : K) (expires : ℕ) (value : V) (cache : Cache K V)
      → holds (oldest_of best expires cache) ((best, (expires, value)) ∷ cache) ≡ true
  oldest_of-holds best expires value [] = oldest_of-holds_nil best expires value
  oldest_of-holds best expires value ((key, (other, w)) ∷ cache) =
      elim (Bool-cases (ltb other expires)) [
        | inl e ↦
            subst (λ k. holds k ((best, (expires, value)) ∷ (key, (other, w)) ∷ cache) ≡ true)
              (sym (oldest_takes best key expires other w cache e))
              (holds-cons (oldest_of key other cache) best (expires, value)
                ((key, (other, w)) ∷ cache) (oldest_of-holds key other w cache))
        | inr e ↦
            subst (λ k. holds k ((best, (expires, value)) ∷ (key, (other, w)) ∷ cache) ≡ true)
              (sym (oldest_keeps best key expires other w cache e))
              (holds_skip (oldest_of best expires cache) best key (expires, value) (other, w) cache
                (oldest_of-holds best expires value cache))
      ]

  make_room-lt :
      (cache : Cache K V) → length cache ≤ max_entries → length (make_room cache) < max_entries
  unfolding make_room
  make_room-lt [] h = omega arith
  make_room-lt ((key, (expires, value)) ∷ cache) h =
      let full = (key, (expires, value)) ∷ cache in
      elim (Bool-cases (leb max_entries (length full))) [
        | inl e ↦ rw e (
            omega (
              arith,
              h,
              length-erase-lt (oldest_of key expires cache) full
                  (oldest_of-holds key expires value cache),
            ))
        | inr e ↦ rw e (leb→lt max_entries (length full) e)
      ]

  cached-le :
      (key : K) (now : ℕ) (cache : Cache K V) → length (cached key now cache).1 ≤ length cache
  unfolding cached
  cached-le key now cache = elim (Option-cases (lookup key cache)) [
    | inl e ↦ rw (e, cached) (omega arith)
    | inr ((expires, value), e) ↦ elim (Bool-cases (leb expires now)) [
      | inl x ↦ rw (e, cached, x) (length-erase-le key cache)
      | inr x ↦ rw (e, cached, x) (omega arith)
    ]
  ]

  looked_up-le :
      (others : List (K × ℕ)) (cache : Cache K V) → length (looked_up others cache) ≤ length cache
  unfolding looked_up
  looked_up-le [] cache = omega arith
  looked_up-le ((key, now) ∷ others) cache =
      omega (arith, looked_up-le others (cached key now cache).1, cached-le key now cache)

  -- A cache within its bound of 256 entries stays within it, whichever way a call under the lock ends,
  -- and whatever other tasks look up meanwhile.
  pub fetch_locked-le :
      (ttl : ℕ) (key : K) (looked_at : ℕ) (others : List (K × ℕ)) (loaded : Result Exn V)
      (stored_at : ℕ) (cache : Cache K V)
      → length cache ≤ max_entries
      → length (fetch_locked ttl key looked_at others loaded stored_at cache).1 ≤ max_entries
  unfolding fetch_locked
  fetch_locked-le ttl key looked_at others loaded stored_at cache h =
      let first = cached-le key looked_at cache in
      let later = looked_up-le others (cached key looked_at cache).1 in
      elim (Option-cases (cached key looked_at cache).0) [
        | inr (value, e) ↦ rw (e, fetch_locked) (omega (arith, h, first))
        | inl e ↦ elim (Result-cases loaded) [
          | inl (x, l) ↦ rw (e, fetch_locked, l) (omega (arith, h, first, later))
          | inr (value, l) ↦
              let meanwhile = looked_up others (cached key looked_at cache).1 in
              let room = make_room-lt meanwhile (omega (arith, h, first, later)) in
              rw (e, fetch_locked, l)
                (omega (
                  arith,
                  room,
                  length-insert-le key (stored_at + ttl, value) (make_room meanwhile),
                ))
        ]
      ]

  fetch_locked_missed :
      (ttl : ℕ) (key : K) (looked_at : ℕ) (others : List (K × ℕ)) (loaded : Result Exn V)
      (stored_at : ℕ) (cache : Cache K V)
      → (cached key looked_at cache).0 ≡ none
      → (fetch_locked ttl key looked_at others loaded stored_at cache).0 ≡ loaded
  unfolding fetch_locked
  fetch_locked_missed ttl key looked_at others loaded stored_at cache e =
      elim (Result-cases loaded) [
        | inl (x, l) ↦ rw (e, fetch_locked, l) refl
        | inr (v, l) ↦ rw (e, fetch_locked, l) refl
      ]

  fetch_locked_hit :
      (ttl : ℕ) (key : K) (looked_at : ℕ) (others : List (K × ℕ)) (loaded : Result Exn V)
      (stored_at : ℕ) (cache : Cache K V) (held : V)
      → (cached key looked_at cache).0 ≡ some held
      → (fetch_locked ttl key looked_at others loaded stored_at cache).0 ≡ ok held
  unfolding fetch_locked
  fetch_locked_hit ttl key looked_at others loaded stored_at cache held e =
      rw (e, fetch_locked) refl

  -- A value that a call under the lock returns stood in the cache and had not expired, or is what the
  -- bridge has just answered.
  pub fetch_locked-IsFresh :
      (ttl : ℕ) (key : K) (looked_at : ℕ) (others : List (K × ℕ)) (loaded : Result Exn V)
      (stored_at : ℕ) (cache : Cache K V) (value : V)
      → (fetch_locked ttl key looked_at others loaded stored_at cache).0 ≡ ok value
      → ((expires_at : ℕ) × (lookup key cache ≡ some (expires_at, value))
          × (leb expires_at looked_at ≡ false))
        ⊎ (loaded ≡ ok value)
  unfolding cached
  fetch_locked-IsFresh ttl key looked_at others loaded stored_at cache value h =
      elim (Option-cases (lookup key cache)) [
        | inl e ↦
            let missed =
              fetch_locked_missed ttl key looked_at others loaded stored_at cache
                (rw (e, cached) refl) in
            inr (sym missed ∙ h)
        | inr ((expires_at, held), e) ↦ elim (Bool-cases (leb expires_at looked_at)) [
          | inl x ↦
              let missed =
                fetch_locked_missed ttl key looked_at others loaded stored_at cache
                  (rw (e, cached, x) refl) in
              inr (sym missed ∙ h)
          | inr x ↦
              let hit =
                fetch_locked_hit ttl key looked_at others loaded stored_at cache held
                  (rw (e, cached, x) refl) in
              let same : held ≡ value = cc (hit, h) in
              inl (expires_at, e ∙ ap (λ v. some (expires_at, v)) same, x)
        ]
      ]
