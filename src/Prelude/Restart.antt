-- ===== src/Prelude/Restart.antt =====
-- A loop over the rows of a table that are due, each of which is changed under its own key; the table
-- mirrors a dictionary.
use mathlib.Core.Path.{◌≡◌, refl, sym, ap, subst, ◌∙◌}
use mathlib.Core.Logic.{◌⊎◌, ◌≢◌, inl, inr}
use mathlib.Core.Bool.{Bool, true}
use mathlib.Core.Option.{none, some}
use mathlib.Core.List.{List, [], ◌∷◌, ◌++◌, append_assoc}
use Prim.Native.String.{String}
use helix_mcp_gateway.Prelude.Tests.{Bool-cases, if◌then◌else◌}
use helix_mcp_gateway.Prelude.Equality.{string_eq}
use helix_mcp_gateway.Prelude.Dict.{Dict, lookup, insert}
use helix_mcp_gateway.Prelude.Action.{Result, ok, err, Action, pure, ◌>>◌, bind_ok, bind_err}
use helix_mcp_gateway.Prelude.Keyed.{
  Absent, IsKeyed, Absent-append, lookup-middle, insert-middle, empty-Absent,
}
use helix_mcp_gateway.Prelude.Mirror.{Mirrors, nil, cons}

-- The rows that are due.
abbrev pub due_rows : {R : Type 0} → (R → Bool) → Dict String R → List R
due_rows is_due [] = []
due_rows is_due ((k, row) ∷ t) =
    let rest = due_rows is_due t in if is_due row then row ∷ rest else rest

abbrev pub change_due : {V : Type 0} → (V → Bool) → (V → V) → Dict String V → Dict String V
change_due is_due change [] = []
change_due is_due change ((k, v) ∷ d) =
    (k, if is_due v then change v else v) ∷ change_due is_due change d

unfoldable pub run_rows :
    {E R : Type 0}
    → (R → Action E (Dict String R) (Unit {0}))
    → List R
    → Action E (Dict String R) (Unit {0})
run_rows process [] = pure tt
run_rows process (row ∷ rows) = process row >> run_rows process rows

module _ {E R V : Type 0} (refusal : E) (Holds : String → R → V → Type 0) (is_due : R → Bool)
    (value_is_due : V → Bool)
    (agree : (k : String) (row : R) (v : V) → Holds k row v → is_due row ≡ value_is_due v)
    (change : V → V) (process : R → Action E (Dict String R) (Unit {0}))
    (processed : (k : String) (row : R) (v : V) (t : Dict String R)
      → Holds k row v
      → value_is_due v ≡ true
      → lookup k t ≡ some row
      → (process row t ≡ (err refusal, t))
        ⊎ ((row' : R) × Holds k row' (change v) × (process row t ≡ (ok tt, insert k row' t)))) where
  -- The loop over the rows from some place on, and what it leaves of them.
  abbrev Processed : Dict String R → Dict String V → Result E (Unit {0}) × Dict String R → Type 0
  Processed pre d r =
      ((t' : Dict String R) × (r ≡ (err refusal, t')))
      ⊎ ((t' : Dict String R) × (r ≡ (ok tt, pre ++ t'))
          × Mirrors Holds t' (change_due value_is_due change d))

  shift :
      (pre : Dict String R) (k : String) (row : R) (v : V) (d : Dict String V)
      (x : Result E (Unit {0}) × Dict String R)
      → Holds k row (if value_is_due v then change v else v)
      → Processed (pre ++ (k, row) ∷ []) d x
      → Processed pre ((k, v) ∷ d) x
  shift pre k row v d x h (inl e) = inl e
  shift pre k row v d x h (inr (t', e, m)) = inr (
    (k, row) ∷ t',
    e ∙ ap (λ u. (ok tt, u)) (append_assoc pre ((k, row) ∷ []) t'),
    cons k row (if value_is_due v then change v else v) h m,
  )

  abbrev Rest : Dict String R → String → R → Dict String R → Dict String V → Type 0
  Rest pre k row t d =
      Processed (pre ++ (k, row) ∷ []) d
        (run_rows process (due_rows is_due t) (pre ++ (k, row) ∷ t))

  next_row :
      (pre : Dict String R) (k : String) (row : R) (v : V) (t : Dict String R) (d : Dict String V)
      → Holds k row v
      → lookup k pre ≡ none
      → value_is_due v ≡ true
      → ((row' : R) → Rest pre k row' t d)
      → Processed pre
          ((k, v) ∷ d)
          (run_rows process (row ∷ due_rows is_due t) (pre ++ (k, row) ∷ t))
  unfolding run_rows
  next_row pre k row v t d h absent due rest =
      let table = pre ++ (k, row) ∷ t in
      let later = λ (_ : Unit {0}). run_rows process (due_rows is_due t) in
      elim (processed k row v table h due (lookup-middle k row pre t absent)) [
        | inl refuses ↦ inl (table, bind_err (process row) later table refusal table refuses)
        | inr (row', held, writes) ↦
            let moved : process row table ≡ (ok tt, pre ++ (k, row') ∷ t) =
              writes ∙ ap (λ u. (ok tt, u)) (insert-middle k row' row pre t absent) in
            let now : Holds k row' (if value_is_due v then change v else v) = rw due held in
            rw (bind_ok (process row) later table tt (pre ++ (k, row') ∷ t) moved)
              (shift pre k row' v d _ now (rest row'))
      ]

  loop :
      (pre : Dict String R) {t : Dict String R} {d : Dict String V}
      → Mirrors Holds t d
      → Absent pre t
      → IsKeyed t
      → Processed pre d (run_rows process (due_rows is_due t) (pre ++ t))
  unfolding run_rows pure
  loop pre nil a keyed = inr ([], refl, nil)
  loop pre {t = _ ∷ t} {d = _ ∷ d} (cons k row v h m) a keyed =
      let later : (row' : R) → Rest pre k row' t d = λ row'.
        subst (λ u. Processed (pre ++ (k, row') ∷ []) d (run_rows process (due_rows is_due t) u))
          (append_assoc pre ((k, row') ∷ []) t)
          (loop (pre ++ (k, row') ∷ []) m (Absent-append k row' pre t a.1 keyed.0) keyed.1) in
      elim (Bool-cases (value_is_due v)) [
        | inr due ↦
            let rest' = later row in
            let held : Holds k row (if value_is_due v then change v else v) = rw due h in
            rw (agree k row v h ∙ due) (shift pre k row v d _ held rest')
        | inl due ↦ rw (agree k row v h ∙ due) (next_row pre k row v t d h a.0 due later)
      ]

  -- From a table with unique keys, the loop is refused, or it changes the values that are due and leaves
  -- the others.
  pub run_rows-Mirrors :
      {t : Dict String R} {d : Dict String V}
      → Mirrors Holds t d
      → IsKeyed t
      → ((t' : Dict String R) × (run_rows process (due_rows is_due t) t ≡ (err refusal, t')))
        ⊎ ((t' : Dict String R) × (run_rows process (due_rows is_due t) t ≡ (ok tt, t'))
            × Mirrors Holds t' (change_due value_is_due change d))
  run_rows-Mirrors {t = t} m keyed = loop [] m (empty-Absent t) keyed

-- A loop in which no row is refused comes to its end.
module _ {E R V : Type 0} (first second : E) (distinct : first ≢ second)
    (Holds : String → R → V → Type 0) (is_due : R → Bool) (value_is_due : V → Bool)
    (agree : (k : String) (row : R) (v : V) → Holds k row v → is_due row ≡ value_is_due v)
    (change : V → V) (process : R → Action E (Dict String R) (Unit {0}))
    (processed : (k : String) (row : R) (v : V) (t : Dict String R)
      → Holds k row v
      → value_is_due v ≡ true
      → lookup k t ≡ some row
      → (row' : R) × Holds k row' (change v) × (process row t ≡ (ok tt, insert k row' t))) where
  pub run_rows-all :
      {t : Dict String R} {d : Dict String V}
      → Mirrors Holds t d
      → IsKeyed t
      → (t' : Dict String R) × (run_rows process (due_rows is_due t) t ≡ (ok tt, t'))
        × Mirrors Holds t' (change_due value_is_due change d)
  run_rows-all m keyed =
      elim (run_rows-Mirrors first Holds is_due value_is_due agree change process
        (λ k row v t h due found. inr (processed k row v t h due found)) m keyed) [
          | inr all ↦ all
          | inl (t₁, e₁) ↦
              elim (run_rows-Mirrors second Holds is_due value_is_due agree change process
                (λ k row v t h due found. inr (processed k row v t h due found)) m keyed) [
                  | inr all ↦ all
                  | inl (t₂, e₂) ↦
                      let both : err first ≡ err second = ap (λ r. r.0) (sym e₁ ∙ e₂) in
                      absurd (distinct (cc both))
                ]
        ]
