-- ===== src/Database/Sql/Objects.antt =====
-- The tables of a query that `_validate_read_query` of src/helix_mcp/services/database/service.py lets
-- through.
use helix_mcp_gateway.Prelude.{
  ◌≡◌, refl, subst, inl, inr, ◌⊎◌, Bool, true, false, ◌&&◌, none, some, List, [], ◌∷◌, String,
  all_of, All, arith, Bool-cases, Option-cases,
}
use helix_mcp_gateway.Prelude.Equality.{string_eq}
use helix_mcp_gateway.Prelude.Action.{ok, Result-cases}
use helix_mcp_gateway.Prelude.Distinct.{is_in}
use helix_mcp_gateway.Database.Sql.{
  Node, Statement, normalize_all, cte_names, object_of, referenced, check_objects, validate_objects,
}

module _ (casefold : String → String) where
  -- A table of the query is one of its common table expressions, or its name is in the allowlist,
  -- unless every object is allowed.
  abbrev pub IsPermitted : Bool → List String → List String → Node → Type 0
  IsPermitted allow_all allowed ctes node =
      (object : String)
      → object_of casefold ctes node ≡ some object
      → (allow_all ≡ true) ⊎ (is_in allowed object ≡ true)

  skipped :
      (ctes : List String) (node : Node) (nodes : List Node)
      → object_of casefold ctes node ≡ none
      → referenced casefold ctes (node ∷ nodes) ≡ referenced casefold ctes nodes
  unfolding referenced
  skipped ctes node nodes e = rw (e, referenced) refl

  included :
      (ctes : List String) (node : Node) (nodes : List Node) (name : String)
      → object_of casefold ctes node ≡ some name
      → referenced casefold ctes (node ∷ nodes) ≡ name ∷ referenced casefold ctes nodes
  unfolding referenced
  included ctes node nodes name e = rw (e, referenced) refl

  each-IsPermitted :
      (allow_all : Bool) (allowed ctes : List String) (nodes : List Node)
      → (allow_all ≡ true) ⊎ (all_of (is_in allowed) (referenced casefold ctes nodes) ≡ true)
      → All (IsPermitted allow_all allowed ctes) nodes
  each-IsPermitted allow_all allowed ctes [] h = tt
  each-IsPermitted allow_all allowed ctes (node ∷ nodes) (inl every) =
      ((λ object e. inl every), each-IsPermitted allow_all allowed ctes nodes (inl every))
  each-IsPermitted allow_all allowed ctes (node ∷ nodes) (inr listed) =
      elim (Option-cases (object_of casefold ctes node)) [
        | inl none_of ↦ (
          (λ object e. absurd (cc (none_of, e))),
          each-IsPermitted allow_all allowed ctes nodes
              (inr (rw (skipped ctes node nodes none_of) at listed)),
        )
        | inr (name, named) ↦
            let both : (is_in allowed name
                  && all_of (is_in allowed) (referenced casefold ctes nodes))
                ≡ true =
              rw (included ctes node nodes name named) at listed in
            let same : (object : String)
                → object_of casefold ctes node ≡ some object
                → name ≡ object =
              λ object e. cc (named, e) in
            (
              (λ object e.
                  inr (subst (λ n. is_in allowed n ≡ true) (same object e) (ground (arith, both)))),
              each-IsPermitted allow_all allowed ctes nodes (inr (ground (arith, both))),
            )
      ]

  check_objects_passed :
      (allow_all : Bool) (allowed columns columns' objects : List String)
      → check_objects casefold allow_all allowed columns' objects ≡ ok columns
      → (columns' ≡ columns)
        × ((allow_all ≡ true) ⊎ (all_of (is_in allowed) objects ≡ true))
        × ¬ (objects ≡ [])
  check_objects_passed allow_all allowed columns columns' [] h = absurd (cc h)
  check_objects_passed true allowed columns columns' (object ∷ objects) h =
      (cc h, inl refl, λ e. cc e)
  check_objects_passed false allowed columns columns' (object ∷ objects) h =
      elim (Bool-cases (all_of (is_in allowed) (object ∷ objects))) [
        | inl e ↦ (ground (arith, h, e), inr e, λ x. cc x)
        | inr e ↦ absurd (ground (arith, h, e))
      ]

  -- The end of the check: the columns of a statement whose tables are permitted.
  pub record IsObjectsPassed (allow_all : Bool) (allowed_objects columns columns' : List String)
      (statement : Statement) : Type 0 where
    pub allowed : List String
    pub normalized : normalize_all casefold allowed_objects ≡ ok allowed
    pub same : columns' ≡ columns
    pub permitted :
        All (IsPermitted allow_all allowed (cte_names casefold statement.nodes)) statement.nodes
    pub refers : ¬ (referenced casefold (cte_names casefold statement.nodes) statement.nodes ≡ [])

  pub validate_objects_passed :
      (allow_all : Bool) (allowed_objects columns columns' : List String) (statement : Statement)
      → validate_objects casefold allow_all allowed_objects statement columns' ≡ ok columns
      → IsObjectsPassed allow_all allowed_objects columns columns' statement
  unfolding validate_objects
  validate_objects_passed allow_all allowed_objects columns columns' statement h =
      elim (Result-cases (normalize_all casefold allowed_objects)) [
        | inl (x, e) ↦ absurd (ground (arith, h, e))
        | inr (allowed, e) ↦
            let ctes = cte_names casefold statement.nodes in
            let (same, listed, refers) =
              check_objects_passed allow_all allowed columns columns'
                (referenced casefold ctes statement.nodes) (ground (arith, h, e)) in
            record {
              allowed = allowed;
              normalized = e;
              same = same;
              permitted = each-IsPermitted allow_all allowed ctes statement.nodes listed;
              refers = refers;
            }
      ]
