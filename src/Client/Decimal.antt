-- ===== src/Client/Decimal.antt =====
-- The decimal texts of numbers, Python's `str(n)`, and what they are read back as.
use Prim.Native.Char.{Char, code}
use Prim.Native.Nat.{◌+◌, ◌*◌, ◌-◌, ◌/◌, ◌%◌, ◌<◌}
use helix_mcp_gateway.Prelude.{
  ℕ, zero, suc, ◌≡◌, refl, sym, ap, ◌≤◌, ◌∙◌, List, [], ◌∷◌, String, ltb, eqb, arith, if◌then◌else◌,
  Bool-cases, inl, inr,
}
use helix_mcp_gateway.Text.{codes}

-- The character of a digit.
unfoldable pub digit : ℕ → Char
digit d =
    if eqb d 0
    then "0"
    else if eqb d 1
    then "1"
    else if eqb d 2
    then "2"
    else if eqb d 3
    then "3"
    else if eqb d 4
    then "4"
    else if eqb d 5
    then "5"
    else if eqb d 6
    then "6"
    else if eqb d 7
    then "7"
    else if eqb d 8
    then "8"
    else "9"

-- The digits of a number before a text, with more fuel than the number.
unfoldable pub with_digits : ℕ → ℕ → String → String
unfolding digit
with_digits zero n s = s
with_digits (suc fuel) n s =
    let last = String.◌∷◌ (digit (n % 10)) s in
    if ltb n 10 then last else with_digits fuel (n / 10) last

-- `str(n)`
unfoldable pub natural_text : ℕ → String
unfolding with_digits
natural_text n = with_digits (suc n) n ""

-- The value of decimal digits that follow digits of value `n`.
unfoldable pub decimal_value : ℕ → List ℕ → ℕ
decimal_value n [] = n
decimal_value n (c ∷ cs) = decimal_value (n * 10 + (c - 48)) cs

code-digit : (d : ℕ) → d < 10 → code (digit d) ≡ 48 + d
unfolding digit
code-digit zero h = refl
code-digit (suc zero) h = refl
code-digit (suc (suc zero)) h = refl
code-digit (suc (suc (suc zero))) h = refl
code-digit (suc (suc (suc (suc zero)))) h = refl
code-digit (suc (suc (suc (suc (suc zero))))) h = refl
code-digit (suc (suc (suc (suc (suc (suc zero)))))) h = refl
code-digit (suc (suc (suc (suc (suc (suc (suc zero))))))) h = refl
code-digit (suc (suc (suc (suc (suc (suc (suc (suc zero)))))))) h = refl
code-digit (suc (suc (suc (suc (suc (suc (suc (suc (suc zero))))))))) h = refl
code-digit (suc (suc (suc (suc (suc (suc (suc (suc (suc (suc d)))))))))) h =
    absurd (omega (arith, h))

digit-value :
    (n d : ℕ) (s : String)
    → d < 10
    → decimal_value n (codes (String.◌∷◌ (digit d) s)) ≡ decimal_value (n * 10 + d) (codes s)
unfolding decimal_value
digit-value n d s h = ap (λ m. decimal_value m (codes s)) (omega (arith, h, code-digit d h))

with_digits-value :
    (fuel n : ℕ) (s : String)
    → n < fuel
    → decimal_value 0 (codes (with_digits fuel n s)) ≡ decimal_value n (codes s)
unfolding with_digits
with_digits-value zero n s h = absurd (omega (arith, h))
with_digits-value (suc fuel) n s h = elim (Bool-cases (ltb n 10)) [
  | inl e ↦ rw e (
      digit-value 0 (n % 10) s (omega arith)
      ∙ ap (λ m. decimal_value m (codes s)) (ground (arith, e)))
  | inr e ↦
      let smaller : n / 10 < fuel = ground (arith, e, h) in
      rw e (
        with_digits-value fuel (n / 10) (String.◌∷◌ (digit (n % 10)) s) smaller
        ∙ digit-value (n / 10) (n % 10) s (omega arith)
        ∙ ap (λ m. decimal_value m (codes s)) (omega arith))
]

-- The decimal text of a number is read back as the number.
pub decimal_value-natural_text : (n : ℕ) → decimal_value 0 (codes (natural_text n)) ≡ n
unfolding natural_text decimal_value
decimal_value-natural_text n = with_digits-value (suc n) n "" (omega arith)

pub natural_text-injective : (m n : ℕ) → natural_text m ≡ natural_text n → m ≡ n
natural_text-injective m n h =
    sym (decimal_value-natural_text m)
    ∙ ap (λ s. decimal_value 0 (codes s)) h
    ∙ decimal_value-natural_text n

-- The first code point of a text, 0 where it is empty.
abbrev pub first_code : String → ℕ
first_code String.[] = 0
first_code (String.◌∷◌ c s) = code c

with_digits-first : (fuel n : ℕ) (s : String) → n < fuel → first_code (with_digits fuel n s) ≤ 57
unfolding with_digits
with_digits-first zero n s h = absurd (omega (arith, h))
with_digits-first (suc fuel) n s h = elim (Bool-cases (ltb n 10)) [
  | inl e ↦ rw e (omega (arith, code-digit (n % 10) (omega arith)))
  | inr e ↦
      rw e (with_digits-first fuel (n / 10) (String.◌∷◌ (digit (n % 10)) s) (ground (arith, e, h)))
]

-- A decimal text begins with a digit.
pub natural_text-first : (n : ℕ) → first_code (natural_text n) ≤ 57
unfolding natural_text
natural_text-first n = with_digits-first (suc n) n "" (omega arith)
