-- ===== src/Prelude/Action.antt =====
-- A method that may change its object and may raise: the object comes back after a raise too,
-- since what was written before the raise stays written.
use mathlib.Core.Path.{◌≡◌, refl, sym, ap, ◌∙◌}
use mathlib.Core.Logic.{◌⊎◌, inl, inr}
use mathlib.Core.Bool.{Bool, true, false}
use mathlib.Core.Option.{Option, none, some}
use helix_mcp_gateway.Prelude.Tests.{if◌then◌else◌}

pub data Result {ℓ κ} (E : Type ℓ) (A : Type κ) : Type (ℓ ⊔ κ) where
  ok : A → Result E A
  err : E → Result E A

abbrev pub Action : Type 0 → Type 0 → Type 0 → Type 0
Action E S A = S → Result E A × S

module _ {E S A : Type 0} where
  unfoldable pub pure : A → Action E S A
  pure a s = (ok a, s)

  unfoldable pub raise : E → Action E S A
  raise x s = (err x, s)

  unfoldable pub gets : (S → A) → Action E S A
  gets f s = (ok (f s), s)

  unfoldable pub lift : Result E A → Action E S A
  lift r s = (r, s)

  unfoldable pub or_raise : Option A → E → Action E S A
  or_raise none x s = (err x, s)
  or_raise (some a) x s = (ok a, s)

module _ {E S : Type 0} where
  unfoldable pub raise_if : Bool → E → Action E S (Unit {0})
  raise_if c x s = (if c then err x else ok tt, s)

  unfoldable pub modify : (S → S) → Action E S (Unit {0})
  modify f s = (ok tt, f s)

module _ {E S A B : Type 0} where
  abbrev continue : (A → Action E S B) → Result E A × S → Result E B × S
  continue f (ok a, s) = f a s
  continue f (err x, s) = (err x, s)

infixl 5 ◌>>=◌ ◌>>◌
-- Opening this opens the other actions too.
unfoldable pub ◌>>=◌ : {E S A B : Type 0} → Action E S A → (A → Action E S B) → Action E S B
unfolding pure raise gets lift or_raise raise_if modify
◌>>=◌ m f s = continue f (m s)

abbrev pub ◌>>◌ : {E S A B : Type 0} → Action E S A → Action E S B → Action E S B
m >> k = m >>= λ _. k

module _ {E S A B : Type 0} (m : Action E S A) (f : A → Action E S B) (s : S) where
  pub bind_ok : (a : A) (s' : S) → m s ≡ (ok a, s') → (m >>= f) s ≡ f a s'
  unfolding ◌>>=◌
  bind_ok a s' h = ap (continue f) h

  pub bind_err : (x : E) (s' : S) → m s ≡ (err x, s') → (m >>= f) s ≡ (err x, s')
  unfolding ◌>>=◌
  bind_err x s' h = ap (continue f) h

module _ {E S A B D : Type 0} (f : A → Action E S B) (g : B → Action E S D) where
  continue-continue : (r : Result E A × S) → continue g (continue f r) ≡ continue (λ a. f a >>= g) r
  unfolding ◌>>=◌
  continue-continue (ok a, s) = refl
  continue-continue (err x, s) = refl

  pub bind_assoc : (m : Action E S A) (s : S) → ((m >>= f) >>= g) s ≡ (m >>= λ a. f a >>= g) s
  unfolding ◌>>=◌
  bind_assoc m s = continue-continue (m s)

-- What a check that passed tells: `raise_if` did not raise.
pub raise_if_passed :
    {E S B : Type 0} (c : Bool) (x : E) (m : Action E S B) (s : S) {b : B} {t : S}
    → (raise_if c x >> m) s ≡ (ok b, t)
    → (c ≡ false) × (m s ≡ (ok b, t))
unfolding ◌>>=◌
raise_if_passed true x m s h = absurd (cc (ap (λ r. r.0) h))
raise_if_passed false x m s h = (refl, h)

pub Result-cases {ℓ κ} :
    {E : Type ℓ} {A : Type κ} (r : Result E A) → ((x : E) × (r ≡ err x)) ⊎ ((a : A) × (r ≡ ok a))
Result-cases (ok a) = inr (a, refl)
Result-cases (err x) = inl (x, refl)

-- What a step that gave a value tells: the step before it gave one too.
module _ {E S A B : Type 0} (f : A → Action E S B) {b : B} where
  continued :
      (start : Result E A × S) (r : Result E A × S)
      → start ≡ r
      → (continue f r).0 ≡ ok b
      → (a : A) × (s : S) × (start ≡ (ok a, s)) × ((f a s).0 ≡ ok b)
  continued start (ok a, s) e h = (a, s, e, h)
  continued start (err x, s) e h = absurd (cc h)

  pub bind_returned :
      (m : Action E S A) (s : S)
      → ((m >>= f) s).0 ≡ ok b
      → (a : A) × (s' : S) × (m s ≡ (ok a, s')) × ((f a s').0 ≡ ok b)
  unfolding ◌>>=◌
  bind_returned m s h = continued (m s) (m s) refl h

-- What a step that raised tells: the step before it raised, or it gave a value.
module _ {E S A B : Type 0} (f : A → Action E S B) {x : E} where
  stopped :
      (start : Result E A × S) (r : Result E A × S)
      → start ≡ r
      → (continue f r).0 ≡ err x
      → (start.0 ≡ err x) ⊎ ((a : A) × (s : S) × (start ≡ (ok a, s)) × ((f a s).0 ≡ err x))
  stopped start (ok a, s) e h = inr (a, s, e, h)
  stopped start (err y, s) e h = let same : y ≡ x = cc h in inl (ap (λ r. r.0) e ∙ ap err same)

  pub bind_raised :
      (m : Action E S A) (s : S)
      → ((m >>= f) s).0 ≡ err x
      → ((m s).0 ≡ err x) ⊎ ((a : A) × (s' : S) × (m s ≡ (ok a, s')) × ((f a s').0 ≡ err x))
  unfolding ◌>>=◌
  bind_raised m s h = stopped (m s) (m s) refl h

pub or_raise_raised :
    {E S A : Type 0} (o : Option A) (x : E) (s : S) {y : E}
    → (or_raise o x s).0 ≡ err y
    → (o ≡ none) × (x ≡ y)
unfolding or_raise
or_raise_raised none x s h = (refl, cc h)
or_raise_raised (some a) x s h = absurd (cc h)

pub raise_if_raised :
    {E S : Type 0} (c : Bool) (x : E) (s : S) {y : E} → (raise_if c x s).0 ≡ err y → x ≡ y
unfolding raise_if
raise_if_raised true x s h = cc h
raise_if_raised false x s h = absurd (cc h)

pub or_raise_returned :
    {E S A : Type 0} (o : Option A) (x : E) (s : S) {a : A} → (or_raise o x s).0 ≡ ok a → o ≡ some a
unfolding or_raise
or_raise_returned none x s h = absurd (cc h)
or_raise_returned (some a) x s h = cc h

pub or_raise_state :
    {E S A : Type 0} (o : Option A) (x : E) (s : S) (a : A) (s' : S)
    → or_raise o x s ≡ (ok a, s')
    → s' ≡ s
unfolding or_raise
or_raise_state none x s a s' h = absurd (cc (ap (λ r. r.0) h))
or_raise_state (some b) x s a s' h = sym (ap (λ r. r.1) h)
