-- ===== src/Forms/Cache.antt =====
-- The metadata caches of src/helix_mcp/services/forms: `_field_metadata` of service.py, by target and
-- form, and `_form_names` of catalog.py, by target, have one shape. A miss is answered under a lock;
-- while the bridge is asked, other tasks may still look the cache up, and drop what has expired.
pub mod Bounded
use helix_mcp_gateway.Prelude.{
  ℕ, ◌+◌, Bool, true, false, Option, none, some, List, [], ◌∷◌, leb, ltb, eqb, length,
  if◌then◌else◌,
}
use helix_mcp_gateway.Prelude.Equality.{Eq, ◌==◌}
use helix_mcp_gateway.Prelude.Dict.{Dict, lookup, insert, erase}
use helix_mcp_gateway.Prelude.Action.{Result, ok, err}
use helix_mcp_gateway.Errors.{Exn}

-- `_MAX_METADATA_CACHE_ENTRIES`
abbrev pub max_entries : ℕ
max_entries = 256

-- Keys with the time at which their value expires.
abbrev pub Cache : Type 0 → Type 0 → Type 0
Cache K V = Dict K (ℕ × V)

module _ {K V : Type 0} ⦃key_eq : Eq K⦄ where
  -- `_cached_field_metadata` and `_cached_names`
  unfoldable pub cached : K → ℕ → Cache K V → Option V × Cache K V
  cached key now cache = elim (lookup key cache) [
    | none ↦ (none, cache)
    | some (expires_at, value) ↦
        if leb expires_at now then (none, erase key cache) else (some value, cache)
  ]

  -- `min(cache, key=lambda item: cache[item][0])` from a first candidate on
  unfoldable pub oldest_of : K → ℕ → Cache K V → K
  oldest_of best expires [] = best
  oldest_of best expires ((key, (other, value)) ∷ cache) =
      let keeps = oldest_of best expires cache in
      let takes = oldest_of key other cache in if ltb other expires then takes else keeps

  -- The oldest entry leaves a full cache.
  unfoldable pub make_room : Cache K V → Cache K V
  unfolding oldest_of
  make_room [] = []
  make_room ((key, (expires, value)) ∷ cache) =
      if leb max_entries (length ((key, (expires, value)) ∷ cache))
      then erase (oldest_of key expires cache) ((key, (expires, value)) ∷ cache)
      else (key, (expires, value)) ∷ cache

  -- What other tasks look up while the bridge is asked, each with its reading of the clock.
  unfoldable pub looked_up : List (K × ℕ) → Cache K V → Cache K V
  looked_up [] cache = cache
  looked_up ((key, now) ∷ others) cache = looked_up others (cached key now cache).1

  -- The part under the lock: look again, ask the bridge, which answers `loaded`, and store.
  unfoldable pub fetch_locked :
      ℕ → K → ℕ → List (K × ℕ) → Result Exn V → ℕ → Cache K V → Result Exn V × Cache K V
  fetch_locked ttl key looked_at others loaded stored_at cache =
      let (hit, cache₁) = cached key looked_at cache in
      elim hit [
        | some value ↦ (ok value, cache₁)
        | none ↦
            let cache₂ = looked_up others cache₁ in
            elim loaded [
              | err x ↦ (err x, cache₂)
              | ok value ↦ (ok value, insert key (stored_at + ttl, value) (make_room cache₂))
            ]
      ]

  -- The part before the lock: nothing, if the cache has to be asked under the lock.
  unfoldable pub fetch_unlocked :
      ℕ → K → ℕ → Result Exn V → Cache K V → Option (Result Exn V) × Cache K V
  fetch_unlocked ttl key looked_at loaded cache =
      if eqb ttl 0
      then (some loaded, cache)
      else let (hit, cache') = cached key looked_at cache in
        (elim hit [ none ↦ none | some value ↦ some (ok value) ], cache')
