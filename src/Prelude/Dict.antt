-- ===== src/Prelude/Dict.antt =====
-- Python's `dict`: an association list in insertion order, over any type of keys with `==`.
use mathlib.Core.Path.{◌≡◌, refl, sym, subst, subst₂}
use mathlib.Core.Logic.{inl, inr}
use mathlib.Core.Bool.{Bool, true}
use mathlib.Core.Option.{Option, none, some}
use mathlib.Core.List.{List, [], ◌∷◌}
use Prim.Native.Nat.{ℕ, ◌+◌, ◌≤◌}
use native.Mathlib.Omega.{arith}
use helix_mcp_gateway.Prelude.Tests.{Bool-cases, if◌then◌else◌, one_if}
use helix_mcp_gateway.Prelude.Lists.{All, any_of, count_if}
use helix_mcp_gateway.Prelude.Equality.{Eq, ◌==◌}

abbrev pub Dict {ℓ κ} : Type ℓ → Type κ → Type (ℓ ⊔ κ)
Dict K V = List (K × V)

module _ {ℓ κ} {K : Type ℓ} {V : Type κ} ⦃e : Eq K⦄ where
  -- `d.get(k)`
  unfoldable pub lookup : K → Dict K V → Option V
  lookup k [] = none
  lookup k ((j, v) ∷ d) = if j == k then some v else lookup k d

  -- `d[k] = v`
  unfoldable pub insert : K → V → Dict K V → Dict K V
  insert k v [] = (k, v) ∷ []
  insert k v ((j, w) ∷ d) = if j == k then (j, v) ∷ d else (j, w) ∷ insert k v d

  -- `d.pop(k, None)`
  unfoldable pub erase : K → Dict K V → Dict K V
  erase k [] = []
  erase k ((j, v) ∷ d) = let rest = erase k d in if j == k then rest else (j, v) ∷ rest

  -- `for k in ks: d.pop(k)`
  unfoldable pub erase_all : List K → Dict K V → Dict K V
  erase_all [] d = d
  erase_all (k ∷ ks) d = erase_all ks (erase k d)

  -- `[k for k, v in d.items() if test(v)]`
  unfoldable pub keys_where : (V → Bool) → Dict K V → List K
  keys_where test [] = []
  keys_where test ((k, v) ∷ d) = let rest = keys_where test d in if test v then k ∷ rest else rest

  pub lookup-insert :
      (k j : K) (v : V) (d : Dict K V)
      → lookup j (insert k v d) ≡ (if k == j then some v else lookup j d)
  unfolding lookup insert
  lookup-insert k j v [] = refl
  lookup-insert k j v ((i, w) ∷ d) =
      ground (arith, e.reflects k j, e.reflects i k, e.reflects i j, lookup-insert k j v d)

  pub lookup-erase :
      (k j : K) (d : Dict K V) → lookup j (erase k d) ≡ (if k == j then none else lookup j d)
  unfolding lookup erase
  lookup-erase k j [] = ground arith
  lookup-erase k j ((i, w) ∷ d) =
      ground (arith, e.reflects k j, e.reflects i k, e.reflects i j, lookup-erase k j d)

  pub lookup-erase_all :
      (ks : List K) (j : K) (d : Dict K V)
      → lookup j (erase_all ks d) ≡ (if any_of (λ k. k == j) ks then none else lookup j d)
  unfolding erase_all
  lookup-erase_all [] j d = refl
  lookup-erase_all (k ∷ ks) j d =
      ground (arith, lookup-erase_all ks j (erase k d), lookup-erase k j d)

  -- A key whose value passes the test is among the keys found.
  pub keys_where-lookup :
      (test : V → Bool) (k : K) (v : V) (d : Dict K V)
      → lookup k d ≡ some v
      → test v ≡ true
      → any_of (λ j. j == k) (keys_where test d) ≡ true
  unfolding lookup keys_where
  keys_where-lookup test k v [] h t = ground arith
  keys_where-lookup test k v ((j, w) ∷ d) h t =
      ground (arith, keys_where-lookup test k v d, e.reflects j k)

module _ {ℓ κ} {K : Type ℓ} {V : Type κ} ⦃e : Eq K⦄ (P : K → V → Type κ) where
  abbrev pub Entries : Dict K V → Type κ
  Entries d = All (λ (entry : K × V). P entry.0 entry.1) d

  pub Entries-lookup : (k : K) (d : Dict K V) {v : V} → Entries d → lookup k d ≡ some v → P k v
  unfolding lookup
  Entries-lookup k [] h q = ground arith
  Entries-lookup k ((j, w) ∷ d) {v} h q = elim (Bool-cases (j == k)) [
    | inl hit ↦ let same : w ≡ v = ground arith in subst₂ P ((e.reflects j k).0 hit) same h.0
    | inr miss ↦ Entries-lookup k d h.1 (rw miss at q)
  ]

  pub Entries-insert : (k : K) (v : V) (d : Dict K V) → P k v → Entries d → Entries (insert k v d)
  unfolding insert
  Entries-insert k v [] p h = (p, h)
  Entries-insert k v ((j, w) ∷ d) p h = elim (Bool-cases (j == k)) [
    | inl hit ↦ rw hit (subst (λ i. P i v) (sym ((e.reflects j k).0 hit)) p, h.1)
    | inr miss ↦ rw miss (h.0, Entries-insert k v d p h.1)
  ]

  pub Entries-erase : (k : K) (d : Dict K V) → Entries d → Entries (erase k d)
  unfolding erase
  Entries-erase k [] h = h
  Entries-erase k ((j, w) ∷ d) h = ground (arith, Entries-erase k d h.1)

  pub Entries-erase_all : (ks : List K) (d : Dict K V) → Entries d → Entries (erase_all ks d)
  unfolding erase_all
  Entries-erase_all [] d h = h
  Entries-erase_all (k ∷ ks) d h = Entries-erase_all ks (erase k d) (Entries-erase k d h)

module _ {ℓ κ} {K : Type ℓ} {V : Type κ} ⦃e : Eq K⦄ (test : V → Bool) where
  -- How many values pass the test.
  abbrev pub count_values : Dict K V → ℕ
  count_values d = count_if (λ (entry : K × V). test entry.1) d

  pub count_values-insert_new :
      (k : K) (v : V) (d : Dict K V)
      → count_values (insert k v d) ≤ one_if (test v) + count_values d
  unfolding insert
  count_values-insert_new k v [] = omega arith
  count_values-insert_new k v ((j, w) ∷ d) = ground (arith, count_values-insert_new k v d)

  pub count_values-insert-some :
      (k : K) (v w : V) (d : Dict K V)
      → lookup k d ≡ some w
      → count_values (insert k v d) + one_if (test w) ≡ one_if (test v) + count_values d
  unfolding insert lookup
  count_values-insert-some k v w [] h = ground arith
  count_values-insert-some k v w ((j, u) ∷ d) h = ground (arith, count_values-insert-some k v w d)

  pub count_values-erase-le : (k : K) (d : Dict K V) → count_values (erase k d) ≤ count_values d
  unfolding erase
  count_values-erase-le k [] = omega arith
  count_values-erase-le k ((j, w) ∷ d) = ground (arith, count_values-erase-le k d)

  pub count_values-erase_all-le :
      (ks : List K) (d : Dict K V) → count_values (erase_all ks d) ≤ count_values d
  unfolding erase_all
  count_values-erase_all-le [] d = omega arith
  count_values-erase_all-le (k ∷ ks) d =
      omega (arith, count_values-erase_all-le ks (erase k d), count_values-erase-le k d)
