-- ===== src/Prelude/Equality.antt =====
-- `==` of Python on the types that the program compares, as an instance.
use Prim.Native.Nat.{ℕ}
use native.Mathlib.Omega.{arith}
use helix_mcp_gateway.Prelude.Tests.{eqb}
use Prim.Native.String.{String}
use text.Mathlib.TextEquality.{eq_iff}
use text.Mathlib.Text.{◌==◌ as text_equal}
use mathlib.Core.Bool.{Bool, true}
use mathlib.Core.Logic.{◌↔◌}
use mathlib.Core.Path.{◌≡◌}

-- A comparison, and that it is true of equals and of nothing else.
pub record Eq {ℓ} (T : Type ℓ) : Type ℓ where
  pub equal : T → T → Bool
  pub reflects : (x y : T) → (equal x y ≡ true) ↔ (x ≡ y)

abbrev pub ◌==◌ {κ} : {T : Type κ} ⦃comparison : Eq T⦄ → T → T → Bool
◌==◌ ⦃comparison⦄ x y = comparison.equal x y

infix 50 ◌==◌
instance abbrev pub string_eq : Eq String
string_eq = record { equal = text_equal; reflects = eq_iff }

pub nat_equal_iff : (m n : ℕ) → (eqb m n ≡ true) ↔ (m ≡ n)
nat_equal_iff m n = (λ h. ground arith, λ h. ground arith)

instance abbrev pub nat_eq : Eq ℕ
nat_eq = record { equal = eqb; reflects = nat_equal_iff }
