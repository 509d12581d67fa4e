-- ===== src/Database/Sql/Columns.antt =====
-- The columns of a query that `_output_columns` of src/helix_mcp/services/database/service.py lets through.
use helix_mcp_gateway.Prelude.{
  ◌≤◌, ◌≡◌, refl, subst, inl, inr, true, false, not, ◌||◌, some, List, [], ◌∷◌, String, map, All,
  length, ltb, arith, Bool-cases, Option-cases,
}
use helix_mcp_gateway.Prelude.Equality.{string_eq}
use helix_mcp_gateway.Prelude.Action.{ok, Result-cases}
use helix_mcp_gateway.Prelude.Distinct.{is_in, has_duplicates, later_fresh}
use helix_mcp_gateway.Database.Sql.Names.{is_column_name}
use helix_mcp_gateway.Database.Sql.{
  Selected, has_forbidden_output_wildcard, collect_columns, output_columns,
}

module _ (casefold : String → String) where
  -- Each selected expression has one of the columns for its alias, in order, each a safe identifier,
  -- and holds no wildcard outside a count.
  abbrev pub Names : List Selected → List String → Type 0
  Names [] [] = Unit
  Names (expression ∷ selected) (column ∷ columns) =
      (expression.alias ≡ some column)
      × (is_column_name column ≡ true)
      × (has_forbidden_output_wildcard expression ≡ false)
      × Names selected columns
  Names _ _ = ⊥

  pub record IsSelection (selected : List Selected) (folded columns : List String) : Type 0 where
    pub names : Names selected columns
    pub distinct : has_duplicates (map casefold columns) ≡ false
    pub fresh : All (λ column. is_in folded (casefold column) ≡ false) columns

  one_more :
      (expression : Selected) (selected : List Selected) (folded : List String) (column : String)
      (columns : List String)
      → has_forbidden_output_wildcard expression ≡ false
      → expression.alias ≡ some column
      → (not (is_column_name column) || is_in folded (casefold column)) ≡ false
      → IsSelection selected (casefold column ∷ folded) columns
      → IsSelection (expression ∷ selected) folded (column ∷ columns)
  one_more expression selected folded column columns no_wildcard named good s =
      let (absent, fresh) = later_fresh casefold column folded columns s.fresh in
      record {
        names = (named, ground (arith, good), no_wildcard, s.names);
        distinct = rw (absent, s.distinct) refl;
        fresh = (ground (arith, good), fresh);
      }

  -- The loop of `_output_columns`, when it returned.
  collect-IsSelection :
      (selected : List Selected) (folded columns : List String)
      → collect_columns casefold selected folded ≡ ok columns
      → IsSelection selected folded columns
  unfolding collect_columns
  collect-IsSelection [] folded [] h = record { names = tt; distinct = refl; fresh = tt }
  collect-IsSelection [] folded (column ∷ columns) h = absurd (cc h)
  collect-IsSelection (expression ∷ selected) folded columns h =
      elim (Bool-cases (has_forbidden_output_wildcard expression)) [
        | inl w ↦ absurd (ground (arith, h, w))
        | inr w ↦ elim (Option-cases expression.alias) [
          | inl e ↦ absurd (ground (arith, h, w, e))
          | inr (column, e) ↦
              elim (Bool-cases (not (is_column_name column) || is_in folded (casefold column))) [
                | inl bad ↦ absurd (ground (arith, h, w, e, bad))
                | inr good ↦
                    elim (Result-cases
                      (collect_columns casefold selected (casefold column ∷ folded))) [
                        | inl (x, r) ↦ absurd (ground (arith, h, w, e, good, r))
                        | inr (rest, r) ↦
                            subst (IsSelection (expression ∷ selected) folded)
                              (ground (arith, h, w, e, good, r))
                              (one_more expression selected folded column rest w e good
                                (collect-IsSelection selected (casefold column ∷ folded) rest r))
                      ]
              ]
        ]
      ]

  pub output-IsSelection :
      (selected : List Selected) (columns : List String)
      → output_columns casefold selected ≡ ok columns
      → IsSelection selected [] columns × (1 ≤ length selected) × (length selected ≤ 128)
  unfolding output_columns
  output-IsSelection [] columns h = absurd (cc h)
  output-IsSelection (expression ∷ selected) columns h =
      elim (Bool-cases (ltb 128 (length (expression ∷ selected)))) [
        | inl many ↦ absurd (ground (arith, h, many))
        | inr few ↦ (
          collect-IsSelection (expression ∷ selected) [] columns (ground (arith, h, few)),
          omega arith,
          ground (arith, few),
        )
      ]
