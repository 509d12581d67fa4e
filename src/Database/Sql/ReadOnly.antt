-- ===== src/Database/Sql/ReadOnly.antt =====
-- What `_validate_read_query` of src/helix_mcp/services/database/service.py lets through.
use helix_mcp_gateway.Prelude.{
  ◌≤◌, ◌≡◌, refl, subst, inl, inr, Bool, true, false, not, ◌||◌, Option, none, some, List, [], ◌∷◌,
  String, any_of, All, length, arith, Bool-cases, Option-cases,
}
use helix_mcp_gateway.Prelude.Equality.{string_eq}
use helix_mcp_gateway.Prelude.Action.{ok, Result-cases}
use helix_mcp_gateway.Database.Sql.Names.{is_allowed_function}
use helix_mcp_gateway.Database.Sql.{
  Node, other, delete, insert, into, lock, merge, update, placeholder, operator, function, cte,
  table, FunctionNode, Statement, Parser, sql_function_name, is_forbidden, is_placeholder,
  is_operator, is_refused_function, has_escape, output_columns, normalize_all, cte_names,
  referenced, validate_statement, validate_parsed, validate_read_query,
}
use helix_mcp_gateway.Database.Sql.Columns.{IsSelection, output-IsSelection}
use helix_mcp_gateway.Database.Sql.Objects.{IsPermitted, validate_objects_passed}

module _ (casefold : String → String) where
  -- A node that changes nothing, locks nothing, and calls allowed functions only.
  pub data IsReading : Node → Type 0 where
    anything_else : IsReading other
    common_table : (alias : String) → IsReading (cte alias)
    a_table : (t : _) → IsReading (table t)
    not_called : (f : FunctionNode) → sql_function_name f ≡ none → IsReading (function f)
    allowed_call :
        (f : FunctionNode) (name : String)
        → sql_function_name f ≡ some name
        → is_allowed_function (casefold name) ≡ true
        → IsReading (function f)

  called-IsReading :
      (f : FunctionNode)
      → is_refused_function casefold (function f) ≡ false
      → IsReading (function f)
  called-IsReading f h = elim (Option-cases (sql_function_name f)) [
    | inl e ↦ not_called f e
    | inr (name, e) ↦ allowed_call f name e (ground (arith, e))
  ]

  node-IsReading :
      (node : Node)
      → is_forbidden node ≡ false
      → is_placeholder node ≡ false
      → is_operator node ≡ false
      → is_refused_function casefold node ≡ false
      → IsReading node
  node-IsReading delete a b c d = absurd (cc a)
  node-IsReading insert a b c d = absurd (cc a)
  node-IsReading into a b c d = absurd (cc a)
  node-IsReading lock a b c d = absurd (cc a)
  node-IsReading merge a b c d = absurd (cc a)
  node-IsReading update a b c d = absurd (cc a)
  node-IsReading placeholder a b c d = absurd (cc b)
  node-IsReading operator a b c d = absurd (cc c)
  node-IsReading other a b c d = anything_else
  node-IsReading (function f) a b c d = called-IsReading f d
  node-IsReading (cte alias) a b c d = common_table alias
  node-IsReading (table t) a b c d = a_table t

  all-IsReading :
      (nodes : List Node)
      → any_of is_forbidden nodes ≡ false
      → any_of is_placeholder nodes ≡ false
      → any_of is_operator nodes ≡ false
      → any_of (is_refused_function casefold) nodes ≡ false
      → All IsReading nodes
  all-IsReading [] a b c d = tt
  all-IsReading (node ∷ nodes) a b c d = (
    node-IsReading node (ground arith) (ground arith) (ground arith) (ground arith),
    all-IsReading nodes (ground arith) (ground arith) (ground arith) (ground arith),
  )

  -- What a query is that was let through with these columns.
  pub record IsReadOnlyQuery (parse : Parser) (sql : String) (allow_all : Bool)
      (allowed_objects columns : List String) : Type 0 where
    pub statement : Statement
    pub allowed : List String
    pub no_escape : has_escape sql ≡ false
    pub parsed : parse sql ≡ some (some statement ∷ [])
    pub is_query : statement.is_query ≡ true
    pub reading : All IsReading statement.nodes
    pub selection : IsSelection casefold statement.selects [] columns
    pub some_columns : 1 ≤ length statement.selects
    pub few_columns : length statement.selects ≤ 128
    pub normalized : normalize_all casefold allowed_objects ≡ ok allowed
    pub permitted :
        All
          (IsPermitted casefold allow_all allowed (cte_names casefold statement.nodes))
          statement.nodes
    pub refers : ¬ (referenced casefold (cte_names casefold statement.nodes) statement.nodes ≡ [])

  -- The tests of one statement, when they let it through.
  statement_passed :
      (parse : Parser) (sql : String) (allow_all : Bool) (allowed_objects columns : List String)
      (statement : Statement)
      → has_escape sql ≡ false
      → parse sql ≡ some (some statement ∷ [])
      → validate_statement casefold allow_all allowed_objects statement ≡ ok columns
      → IsReadOnlyQuery parse sql allow_all allowed_objects columns
  unfolding validate_statement
  statement_passed parse sql allow_all allowed_objects columns statement escape parsed h =
      let nodes = statement.nodes in
      elim (Bool-cases (
        not statement.is_query
        || any_of is_forbidden nodes
        || any_of is_placeholder nodes
        || any_of is_operator nodes
        || any_of (is_refused_function casefold) nodes)) [
          | inl bad ↦ absurd (ground (arith, h, bad))
          | inr good ↦ elim (Result-cases (output_columns casefold statement.selects)) [
            | inl (x, e) ↦ absurd (ground (arith, h, good, e))
            | inr (columns', e) ↦
                let o =
                  validate_objects_passed casefold allow_all allowed_objects columns columns'
                    statement (ground (arith, h, good, e)) in
                let (selection, least, most) =
                  output-IsSelection casefold statement.selects columns' e in
                record {
                  statement = statement;
                  allowed = o.allowed;
                  no_escape = escape;
                  parsed = parsed;
                  is_query = ground (arith, good);
                  reading =
                      all-IsReading nodes (ground (arith, good)) (ground (arith, good))
                        (ground (arith, good)) (ground (arith, good));
                  selection = subst (IsSelection casefold statement.selects []) o.same selection;
                  some_columns = least;
                  few_columns = most;
                  normalized = o.normalized;
                  permitted = o.permitted;
                  refers = o.refers;
                }
          ]
        ]

  parsed_passed :
      (parse : Parser) (sql : String) (allow_all : Bool) (allowed_objects columns : List String)
      (statements : Option (List (Option Statement)))
      → has_escape sql ≡ false
      → parse sql ≡ statements
      → validate_parsed casefold allow_all allowed_objects statements ≡ ok columns
      → IsReadOnlyQuery parse sql allow_all allowed_objects columns
  parsed_passed parse sql allow_all allowed columns (some (some statement ∷ [])) escape parsed h =
      statement_passed parse sql allow_all allowed columns statement escape parsed h
  parsed_passed parse sql allow_all allowed columns _ escape parsed h = absurd (cc h)

  -- A query that `_validate_read_query` lets through, with the columns that it returns, has no comment,
  -- dollar sign or semicolon, and is one query whose nodes change nothing, lock nothing, and hold no
  -- parameter, no custom operator and no call but of the allowed functions; it selects 1 to 128
  -- expressions, each under one of the columns, which are safe and distinct, and without a wildcard; and
  -- it refers to some object, and to no table but those in the allowlist, unless all are allowed.
  pub validate_read_query-IsReadOnlyQuery :
      (parse : Parser) (sql : String) (allow_all : Bool) (allowed_objects columns : List String)
      → validate_read_query casefold parse sql allow_all allowed_objects ≡ ok columns
      → IsReadOnlyQuery parse sql allow_all allowed_objects columns
  unfolding validate_read_query
  validate_read_query-IsReadOnlyQuery parse sql allow_all allowed_objects columns h =
      elim (Bool-cases (has_escape sql)) [
        | inl e ↦ absurd (ground (arith, h, e))
        | inr e ↦
            parsed_passed parse sql allow_all allowed_objects columns (parse sql) e refl
              (ground (arith, h, e))
      ]
