-- ===== src/Prelude/Keyed.antt =====
-- Dictionaries with unique keys, and a place in such a dictionary.
use mathlib.Core.Path.{◌≡◌, refl}
use mathlib.Core.Logic.{inl, inr}
use mathlib.Core.Bool.{false}
use mathlib.Core.Option.{none, some}
use mathlib.Core.List.{List, [], ◌∷◌, ◌++◌}
use Prim.Native.String.{String}
use native.Mathlib.Omega.{arith}
use helix_mcp_gateway.Prelude.Tests.{Bool-cases}
use helix_mcp_gateway.Prelude.Lists.{All}
use helix_mcp_gateway.Prelude.Equality.{◌==◌, string_eq}
use helix_mcp_gateway.Prelude.Dict.{Dict, lookup, insert, erase, erase_all}

module _ {V : Type 0} where
  abbrev pub Absent : Dict String V → Dict String V → Type 0
  Absent pre d = All (λ (entry : String × V). lookup entry.0 pre ≡ none) d

  abbrev pub Fresh : String → Dict String V → Type 0
  Fresh k d = All (λ (entry : String × V). (k == entry.0) ≡ false) d

  -- The keys of a table are unique: one of them is its primary key.
  abbrev pub IsKeyed : Dict String V → Type 0
  IsKeyed [] = Unit
  IsKeyed ((k, v) ∷ d) = Fresh k d × IsKeyed d

  lookup-append-last :
      (j k : String) (v : V) (pre : Dict String V)
      → lookup j pre ≡ none
      → (k == j) ≡ false
      → lookup j (pre ++ (k, v) ∷ []) ≡ none
  unfolding lookup
  lookup-append-last j k v [] e f = rw f refl
  lookup-append-last j k v ((i, w) ∷ pre) e f = elim (Bool-cases (i == j)) [
    | inl b ↦ absurd (ground (arith, e, b))
    | inr b ↦ rw b (lookup-append-last j k v pre (ground (arith, e, b)) f)
  ]

  pub Absent-append :
      (k : String) (v : V) (pre d : Dict String V)
      → Absent pre d
      → Fresh k d
      → Absent (pre ++ (k, v) ∷ []) d
  Absent-append k v pre [] a f = tt
  Absent-append k v pre ((j, w) ∷ d) a f =
      (lookup-append-last j k v pre a.0 f.0, Absent-append k v pre d a.1 f.1)

  pub lookup-middle :
      (k : String) (v : V) (pre d : Dict String V)
      → lookup k pre ≡ none
      → lookup k (pre ++ (k, v) ∷ d) ≡ some v
  unfolding lookup
  lookup-middle k v [] d e = rw ((string_eq.reflects k k).1 refl) refl
  lookup-middle k v ((i, w) ∷ pre) d e = elim (Bool-cases (i == k)) [
    | inl b ↦ absurd (ground (arith, e, b))
    | inr b ↦ rw b (lookup-middle k v pre d (ground (arith, e, b)))
  ]

  pub insert-middle :
      (k : String) (v w : V) (pre d : Dict String V)
      → lookup k pre ≡ none
      → insert k v (pre ++ (k, w) ∷ d) ≡ pre ++ (k, v) ∷ d
  unfolding lookup insert
  insert-middle k v w [] d e = rw ((string_eq.reflects k k).1 refl) refl
  insert-middle k v w ((i, u) ∷ pre) d e = elim (Bool-cases (i == k)) [
    | inl b ↦ absurd (ground (arith, e, b))
    | inr b ↦ rw (b, insert-middle k v w pre d (ground (arith, e, b))) refl
  ]

  Fresh-erase : (k j : String) (d : Dict String V) → Fresh k d → Fresh k (erase j d)
  unfolding erase
  Fresh-erase k j [] f = tt
  Fresh-erase k j ((i, v) ∷ d) f = elim (Bool-cases (i == j)) [
    | inl b ↦ rw b (Fresh-erase k j d f.1)
    | inr b ↦ rw b (f.0, Fresh-erase k j d f.1)
  ]

  IsKeyed-erase : (j : String) (d : Dict String V) → IsKeyed d → IsKeyed (erase j d)
  unfolding erase
  IsKeyed-erase j [] u = tt
  IsKeyed-erase j ((i, v) ∷ d) u = elim (Bool-cases (i == j)) [
    | inl b ↦ rw b (IsKeyed-erase j d u.1)
    | inr b ↦ rw b (Fresh-erase i j d u.0, IsKeyed-erase j d u.1)
  ]

  pub IsKeyed-erase_all :
      (keys : List String) (d : Dict String V) → IsKeyed d → IsKeyed (erase_all keys d)
  unfolding erase_all
  IsKeyed-erase_all [] d u = u
  IsKeyed-erase_all (j ∷ keys) d u = IsKeyed-erase_all keys (erase j d) (IsKeyed-erase j d u)

  pub empty-Absent : (d : Dict String V) → Absent [] d
  unfolding lookup
  empty-Absent [] = tt
  empty-Absent (e ∷ d) = (refl, empty-Absent d)
