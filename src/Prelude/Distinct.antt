-- ===== src/Prelude/Distinct.antt =====
-- Membership and duplicates in a list, as Python tests them with `in` and `len(set(items))`.
use mathlib.Core.Path.{◌≡◌, refl}
use mathlib.Core.Bool.{Bool, false, ◌||◌}
use mathlib.Core.List.{List, [], ◌∷◌, map}
use native.Mathlib.Omega.{arith}
use helix_mcp_gateway.Prelude.Lists.{any_of, All}
use helix_mcp_gateway.Prelude.Equality.{Eq, ◌==◌}

module _ {K : Type 0} ⦃e : Eq K⦄ where
  abbrev pub is_in : List K → K → Bool
  is_in items x = any_of (λ item. item == x) items

  -- `len(set(items)) != len(items)`
  abbrev pub has_duplicates : List K → Bool
  has_duplicates [] = false
  has_duplicates (x ∷ xs) = is_in xs x || has_duplicates xs

  -- Names that are collected one by one, each new among those seen under `f`, are distinct under `f`.
  pub later_fresh :
      {A : Type 0} (f : A → K) (x : A) (seen : List K) (xs : List A)
      → All (λ later. is_in (f x ∷ seen) (f later) ≡ false) xs
      → (is_in (map f xs) (f x) ≡ false) × All (λ later. is_in seen (f later) ≡ false) xs
  later_fresh f x seen [] h = (refl, tt)
  later_fresh f x seen (later ∷ xs) h =
      let (absent, fresh) = later_fresh f x seen xs h.1 in
      (
        ground (arith, absent, h.0, e.reflects (f x) (f later), e.reflects (f later) (f x)),
        (ground (arith, h.0), fresh),
      )
