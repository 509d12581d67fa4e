-- ===== src/Prelude/Collect.antt =====
-- Loops that read a list item by item and give nothing where one item is refused.
use mathlib.Core.Path.{◌≡◌, refl, ap, subst, ◌∙◌}
use mathlib.Core.Bool.{false, not}
use mathlib.Core.Option.{Option, some}
use mathlib.Core.List.{List, [], ◌∷◌, map}
use Prim.Native.Nat.{suc}
use native.Mathlib.Omega.{arith}
use helix_mcp_gateway.Prelude.Lists.{All, length}
use helix_mcp_gateway.Prelude.Equality.{Eq}
use helix_mcp_gateway.Prelude.Attempt.{◌>>=◌, require, bind_some, require-some, some_step}
use helix_mcp_gateway.Prelude.Distinct.{is_in, has_duplicates, later_fresh}

module _ {A B : Type 0} (parse : A → Option B) where
  -- `tuple(parse(item) for item in items)`
  unfoldable pub collect : List A → Option (List B)
  collect [] = some []
  collect (x ∷ xs) = do y ← parse x; ys ← collect xs; some (y ∷ ys)

  -- The values are read from the items, one from each, in order.
  abbrev pub AreRead : List A → List B → Type 0
  AreRead [] [] = Unit
  AreRead (x ∷ xs) (y ∷ ys) = (parse x ≡ some y) × AreRead xs ys
  AreRead _ _ = ⊥

  pub collect-AreRead : (xs : List A) (ys : List B) → collect xs ≡ some ys → AreRead xs ys
  unfolding collect
  collect-AreRead [] [] h = tt
  collect-AreRead [] (y ∷ ys) h = absurd (cc h)
  collect-AreRead (x ∷ xs) ys h =
      let (y, read, h₁) = bind_some (parse x) (λ y. collect xs >>= λ ys. some (y ∷ ys)) h in
      let (rest, reads, h₂) = bind_some (collect xs) (λ ys. some (y ∷ ys)) h₁ in
      let same : y ∷ rest ≡ ys = cc h₂ in
      subst (AreRead (x ∷ xs)) same (read, collect-AreRead xs rest reads)

  pub AreRead-length : (xs : List A) (ys : List B) → AreRead xs ys → length xs ≡ length ys
  AreRead-length [] [] h = refl
  AreRead-length [] (y ∷ ys) h = absurd h
  AreRead-length (x ∷ xs) [] h = absurd h
  AreRead-length (x ∷ xs) (y ∷ ys) h = ap suc (AreRead-length xs ys h.1)

  pub AreRead-collect : (xs : List A) (ys : List B) → AreRead xs ys → collect xs ≡ some ys
  unfolding collect
  AreRead-collect [] [] h = refl
  AreRead-collect [] (y ∷ ys) h = absurd h
  AreRead-collect (x ∷ xs) [] h = absurd h
  AreRead-collect (x ∷ xs) (y ∷ ys) h =
      some_step (parse x) (λ y. collect xs >>= λ ys. some (y ∷ ys)) y h.0
      ∙ some_step (collect xs) (λ ys. some (y ∷ ys)) ys (AreRead-collect xs ys h.1)

module _ {A B K : Type 0} ⦃e : Eq K⦄ (parse : A → Option B) (key : B → K) where
  -- The same where no two values may have one key; `seen` are the keys so far.
  unfoldable pub collect_distinct : List A → List K → Option (List B)
  collect_distinct [] seen = some []
  collect_distinct (x ∷ xs) seen = do
    y ← parse x
    ys ← require (not (is_in seen (key y))) (collect_distinct xs (key y ∷ seen))
    some (y ∷ ys)

  -- The values are read from the items, with distinct keys, which are new.
  pub record AreReadOnce (xs : List A) (seen : List K) (ys : List B) : Type 0 where
    pub read : AreRead parse xs ys
    pub distinct : has_duplicates (map key ys) ≡ false
    pub fresh : All (λ y. is_in seen (key y) ≡ false) ys

  pub collect_distinct-AreReadOnce :
      (xs : List A) (seen : List K) (ys : List B)
      → collect_distinct xs seen ≡ some ys
      → AreReadOnce xs seen ys
  unfolding collect_distinct
  collect_distinct-AreReadOnce [] seen [] h = record { read = tt; distinct = refl; fresh = tt }
  collect_distinct-AreReadOnce [] seen (y ∷ ys) h = absurd (cc h)
  collect_distinct-AreReadOnce (x ∷ xs) seen ys h =
      let (y, read, h₁) =
        bind_some (parse x)
          (λ y. require (not (is_in seen (key y))) (collect_distinct xs (key y ∷ seen)) >>= λ ys.
            some (y ∷ ys))
          h in
      let (rest, h₂, h₃) =
        bind_some (require (not (is_in seen (key y))) (collect_distinct xs (key y ∷ seen)))
          (λ ys. some (y ∷ ys)) h₁ in
      let (new, reads) =
        require-some (not (is_in seen (key y))) (collect_distinct xs (key y ∷ seen)) h₂ in
      let later = collect_distinct-AreReadOnce xs (key y ∷ seen) rest reads in
      let (absent, fresh) = later_fresh key y seen rest later.fresh in
      let same : y ∷ rest ≡ ys = cc h₃ in
      subst (AreReadOnce (x ∷ xs) seen) same (record {
        read = (read, later.read);
        distinct = rw (absent, later.distinct) refl;
        fresh = (ground (arith, new), fresh);
      })
