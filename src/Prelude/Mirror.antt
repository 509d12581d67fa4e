-- ===== src/Prelude/Mirror.antt =====
-- A table that mirrors a dictionary: the same keys in the same order, and for each key a row that
-- holds the value.
use mathlib.Core.Path.{◌≡◌, refl, sym, subst}
use mathlib.Core.Logic.{inl, inr}
use mathlib.Core.Bool.{Bool}
use mathlib.Core.Option.{none, some}
use mathlib.Core.List.{List, [], ◌∷◌}
use Prim.Native.String.{String}
use native.Mathlib.Omega.{arith}
use helix_mcp_gateway.Prelude.Tests.{Bool-cases}
use helix_mcp_gateway.Prelude.Equality.{◌==◌, string_eq}
use helix_mcp_gateway.Prelude.Dict.{
  Dict, lookup, insert, erase, erase_all, keys_where, count_values,
}

module _ {R V : Type 0} (Holds : String → R → V → Type 0) where
  pub data Mirrors : Dict String R → Dict String V → Type 0 where
    nil : Mirrors [] []
    cons :
        {t : Dict String R} {d : Dict String V} (k : String) (row : R) (v : V)
        → Holds k row v
        → Mirrors t d
        → Mirrors ((k, row) ∷ t) ((k, v) ∷ d)

  pub lookup_unmirrored :
      (k : String) {t : Dict String R} {d : Dict String V}
      → Mirrors t d
      → lookup k t ≡ none
      → lookup k d ≡ none
  unfolding lookup
  lookup_unmirrored k nil e = refl
  lookup_unmirrored k (cons i row v h m) e = elim (Bool-cases (i == k)) [
    | inl b ↦ absurd (ground (arith, e, b))
    | inr b ↦ rw b (lookup_unmirrored k m (ground (arith, e, b)))
  ]

  pub lookup_mirrored :
      (k : String) {t : Dict String R} {d : Dict String V} {row : R}
      → Mirrors t d
      → lookup k t ≡ some row
      → (v : V) × (lookup k d ≡ some v) × Holds k row v
  unfolding lookup
  lookup_mirrored k nil e = absurd (cc e)
  lookup_mirrored k {row = row} (cons i other v h m) e = elim (Bool-cases (i == k)) [
    | inl b ↦ (
      v,
      rw b refl,
      subst (λ j. Holds j row v) ((string_eq.reflects i k).0 b)
          (subst (λ x. Holds i x v) (ground (arith, e, b)) h),
    )
    | inr b ↦
        let found = lookup_mirrored k m (ground (arith, e, b)) in (found.0, rw b found.1, found.2)
  ]

  pub insert-Mirrors :
      (k : String) (row : R) (v : V) {t : Dict String R} {d : Dict String V}
      → Holds k row v
      → Mirrors t d
      → Mirrors (insert k row t) (insert k v d)
  unfolding insert
  insert-Mirrors k row v h nil = cons k row v h nil
  insert-Mirrors k row v h (cons i other w g m) = elim (Bool-cases (i == k)) [
    | inl b ↦
        rw b (cons i row v (subst (λ j. Holds j row v) (sym ((string_eq.reflects i k).0 b)) h) m)
    | inr b ↦ rw b (cons i other w g (insert-Mirrors k row v h m))
  ]

  pub erase-Mirrors :
      (k : String) {t : Dict String R} {d : Dict String V}
      → Mirrors t d
      → Mirrors (erase k t) (erase k d)
  unfolding erase
  erase-Mirrors k nil = nil
  erase-Mirrors k (cons i row v h m) = elim (Bool-cases (i == k)) [
    | inl b ↦ rw b (erase-Mirrors k m)
    | inr b ↦ rw b (cons i row v h (erase-Mirrors k m))
  ]

  erase_all-Mirrors :
      (keys : List String) {t : Dict String R} {d : Dict String V}
      → Mirrors t d
      → Mirrors (erase_all keys t) (erase_all keys d)
  unfolding erase_all
  erase_all-Mirrors [] m = m
  erase_all-Mirrors (k ∷ keys) m = erase_all-Mirrors keys (erase-Mirrors k m)

  -- A test of the rows that tells what a test of the values tells.
  module _ (on_row : R → Bool) (on_value : V → Bool)
      (agree : (k : String) (row : R) (v : V) → Holds k row v → on_row row ≡ on_value v) where
    same_keys :
        {t : Dict String R} {d : Dict String V}
        → Mirrors t d
        → keys_where on_row t ≡ keys_where on_value d
    unfolding keys_where
    same_keys nil = refl
    same_keys (cons i row v h m) = ground (arith, agree i row v h, same_keys m)

    pub purge-Mirrors :
        {t : Dict String R} {d : Dict String V}
        → Mirrors t d
        → Mirrors (erase_all (keys_where on_row t) t) (erase_all (keys_where on_value d) d)
    purge-Mirrors {d = d} m = rw (same_keys m) (erase_all-Mirrors (keys_where on_value d) m)

    pub count-Mirrors :
        {t : Dict String R} {d : Dict String V}
        → Mirrors t d
        → count_values on_row t ≡ count_values on_value d
    count-Mirrors nil = refl
    count-Mirrors (cons i row v h m) = rw (agree i row v h, count-Mirrors m) refl

-- What each pair of the mirror has is passed on.
pub map-Mirrors :
    {R V : Type 0} {P Q : String → R → V → Type 0} {t : Dict String R} {d : Dict String V}
    → ((k : String) (row : R) (v : V) → P k row v → Q k row v)
    → Mirrors P t d
    → Mirrors Q t d
map-Mirrors f nil = nil
map-Mirrors f (cons k row v h m) = cons k row v (f k row v h) (map-Mirrors f m)
