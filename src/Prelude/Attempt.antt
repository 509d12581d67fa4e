-- ===== src/Prelude/Attempt.antt =====
-- Chains of steps that may give nothing, for `do` blocks.
use mathlib.Core.Option.{Option, none, some}
use mathlib.Core.Path.{◌≡◌, refl, ap, subst}
use mathlib.Core.Bool.{Bool, true, false}

infixl 5 ◌>>=◌
abbrev pub ◌>>=◌ {ℓ κ} : {A : Type ℓ} {B : Type κ} → Option A → (A → Option B) → Option B
none >>= f = none
some a >>= f = f a

-- `if not c: raise`
abbrev pub require {ℓ} : {A : Type ℓ} → Bool → Option A → Option A
require true m = m
require false m = none

-- A step whose value is known.
pub some_step {ℓ κ} :
    {A : Type ℓ} {B : Type κ} (m : Option A) (f : A → Option B) (a : A)
    → m ≡ some a
    → (m >>= f) ≡ f a
some_step m f a h = ap (λ o. o >>= f) h

-- What a chain of steps that gave a value tells.
pub bind_some {ℓ κ} :
    {A : Type ℓ} {B : Type κ} (m : Option A) (f : A → Option B) {b : B}
    → (m >>= f) ≡ some b
    → (a : A) × (m ≡ some a) × (f a ≡ some b)
bind_some none f h = absurd (cc h)
bind_some (some a) f h = (a, refl, h)

pub require-some {ℓ} :
    {A : Type ℓ} (c : Bool) (m : Option A) {a : A}
    → require c m ≡ some a
    → (c ≡ true) × (m ≡ some a)
require-some true m h = (refl, h)
require-some false m h = absurd (cc h)

-- The same, for chains of several steps: what each step gave is a variable of the rest of the proof.
pub given {ℓ κ ν} :
    {A : Type ℓ} {B : Type κ} {f : A → Option B} {b : B} {R : Type ν} (m : Option A)
    → (m >>= f) ≡ some b
    → ((a : A) → m ≡ some a → f a ≡ some b → R)
    → R
given none h k = absurd (cc h)
given (some a) h k = k a refl h

pub given_test {ℓ ν} :
    {A : Type ℓ} {m : Option A} {a : A} {R : Type ν} (c : Bool)
    → require c m ≡ some a
    → (c ≡ true → m ≡ some a → R)
    → R
given_test true h k = k refl h
given_test false h k = absurd (cc h)

-- The value at the end of a chain.
pub given_value {ℓ ν} : {A : Type ℓ} {a b : A} (P : A → Type ν) → some a ≡ some b → P a → P b
given_value P h p = subst P (cc h) p
