-- ===== src/Database/Sql.antt =====
-- The check of SQL in src/helix_mcp/services/database/service.py, `_validate_read_query`. The parser,
-- sqlglot, and `str.casefold` are arguments; a statement is what the check asks sqlglot about it.
pub mod Names
pub mod Columns
pub mod Objects
pub mod ReadOnly
use helix_mcp_gateway.Prelude.{
  ℕ, Bool, true, false, not, ◌&&◌, ◌||◌, Option, none, some, List, [], ◌∷◌, String, map, any_of,
  all_of, keep_if, length, ltb, if◌then◌else◌,
}
use helix_mcp_gateway.Prelude.Equality.{◌==◌, string_eq}
use helix_mcp_gateway.Prelude.Action.{Result, ok, err}
use helix_mcp_gateway.Errors.{
  Exn, from_database, database_query_invalid, database_query_wildcard_not_allowed,
  database_query_alias_required, database_query_alias_invalid, database_object_not_allowed,
}
use helix_mcp_gateway.Prelude.Distinct.{is_in}
use helix_mcp_gateway.Text.{contains}
use helix_mcp_gateway.Database.Sql.Names.{
  is_column_name, normalize_allowed_object, is_allowed_function, join_parts,
}

-- The type of a function's node, with what is asked of it: of an `If`, whether it is one of the `ifs`
-- of a `Case`; of a `Cast`, which of the types below its `to` are user-defined, if `to` is a `DataType`.
pub data FunctionKind : Type 0 where
  and_function or_function case_function group_concat anonymous other_function : FunctionKind
  if_function : Bool → FunctionKind
  cast_function : Option (List Bool) → FunctionKind

pub record FunctionNode : Type 0 where
  pub original_name : Option String
  pub kind : FunctionKind
  pub own_name : String

pub record TableNode : Type 0 where
  pub catalog : String
  pub db : String
  pub name : String

-- A node that `walk` yields, by the types that the check looks for.
pub data Node : Type 0 where
  delete insert into lock merge update placeholder operator other : Node
  function : FunctionNode → Node
  cte : String → Node
  table : TableNode → Node

-- A selected expression: for each `Star` in it, whether its parent is a `Count`; and its alias, if it
-- is an `Alias`.
pub record Selected : Type 0 where
  pub stars : List Bool
  pub alias : Option String

pub record Statement : Type 0 where
  pub is_query : Bool
  pub nodes : List Node
  pub selects : List Selected

-- `sqlglot.parse`: nothing where it raises one of the errors that are turned into an invalid query.
abbrev pub Parser : Type 0
Parser = String → Option (List (Option Statement))

abbrev pub own_name_of : FunctionKind → String → Option String
own_name_of and_function name = none
own_name_of or_function name = none
own_name_of case_function name = none
own_name_of (if_function in_case) name = if in_case then none else some name
own_name_of (cast_function (some user_defined)) name =
    if not (any_of (λ b. b) user_defined) then none else some name
own_name_of group_concat name = some "string_agg"
own_name_of _ name = some name

-- `_sql_function_name`
unfoldable pub sql_function_name : FunctionNode → Option String
sql_function_name f = elim f.original_name [
  | some name ↦ some name
  | none ↦ own_name_of f.kind f.own_name
]

-- `forbidden_nodes`
abbrev pub is_forbidden : Node → Bool
is_forbidden node = elim node [
  | delete ↦ true
  | insert ↦ true
  | into ↦ true
  | lock ↦ true
  | merge ↦ true
  | update ↦ true
  | _ ↦ false
]

abbrev pub is_placeholder : Node → Bool
is_placeholder node = elim node [ placeholder ↦ true | _ ↦ false ]

abbrev pub is_operator : Node → Bool
is_operator node = elim node [ operator ↦ true | _ ↦ false ]

-- `_has_forbidden_output_wildcard`
abbrev pub has_forbidden_output_wildcard : Selected → Bool
has_forbidden_output_wildcard expression = any_of (λ in_count. not in_count) expression.stars

-- The tests of the text that come before the parser.
unfoldable pub has_escape : String → Bool
has_escape sql =
    contains ";" sql
    || contains "$" sql
    || contains "--" sql
    || contains "/*" sql
    || contains "*/" sql

module _ (casefold : String → String) where
  -- A function whose name is not in the allowlist.
  abbrev pub is_refused_function : Node → Bool
  is_refused_function node = elim node [
    | function f ↦ elim (sql_function_name f) [
      | none ↦ false
      | some name ↦ not (is_allowed_function (casefold name))
    ]
    | _ ↦ false
  ]

  -- The loop of `_output_columns`
  unfoldable pub collect_columns : List Selected → List String → Result Exn (List String)
  collect_columns [] folded = ok []
  collect_columns (expression ∷ selected) folded =
      if has_forbidden_output_wildcard expression
      then err (from_database database_query_wildcard_not_allowed)
      else elim expression.alias [
        | none ↦ err (from_database database_query_alias_required)
        | some alias ↦
            let rest = collect_columns selected (casefold alias ∷ folded) in
            if not (is_column_name alias) || is_in folded (casefold alias)
            then err (from_database database_query_alias_invalid)
            else elim rest [ err x ↦ err x | ok columns ↦ ok (alias ∷ columns) ]
      ]

  -- `_output_columns`
  unfoldable pub output_columns : List Selected → Result Exn (List String)
  output_columns [] = err (from_database database_query_invalid)
  output_columns selected =
      if ltb 128 (length selected)
      then err (from_database database_query_invalid)
      else collect_columns selected []

  -- `{_normalize_allowed_object(item) for item in allowed_objects}`
  unfoldable pub normalize_all : List String → Result Exn (List String)
  normalize_all [] = ok []
  normalize_all (item ∷ items) = elim (normalize_allowed_object casefold item) [
    | err x ↦ err x
    | ok name ↦ elim (normalize_all items) [ err x ↦ err x | ok names ↦ ok (name ∷ names) ]
  ]

  -- `cte_names`
  unfoldable pub cte_names : List Node → List String
  cte_names [] = []
  cte_names (node ∷ nodes) = elim node [
    | cte alias ↦ casefold alias ∷ cte_names nodes
    | _ ↦ cte_names nodes
  ]

  -- The name of a table, where it is no reference to one of the common table expressions.
  unfoldable pub object_of : List String → Node → Option String
  object_of ctes (table t) =
      if t.db == "" && t.catalog == "" && is_in ctes (casefold t.name)
      then none
      else some (
          casefold
            (join_parts (keep_if (λ part. not (part == "")) (t.catalog ∷ t.db ∷ t.name ∷ []))))
  object_of ctes _ = none

  -- `referenced`
  unfoldable pub referenced : List String → List Node → List String
  referenced ctes [] = []
  referenced ctes (node ∷ nodes) = elim (object_of ctes node) [
    | none ↦ referenced ctes nodes
    | some name ↦ name ∷ referenced ctes nodes
  ]

  -- The end of the check, for what the query refers to.
  abbrev pub check_objects :
      Bool → List String → List String → List String → Result Exn (List String)
  check_objects allow_all allowed columns [] = err (from_database database_query_invalid)
  check_objects allow_all allowed columns objects =
      if not allow_all && not (all_of (is_in allowed) objects)
      then err (from_database database_object_not_allowed)
      else ok columns

  unfoldable pub validate_objects :
      Bool → List String → Statement → List String → Result Exn (List String)
  validate_objects allow_all allowed_objects statement columns =
      elim (normalize_all allowed_objects) [
        | err x ↦ err x
        | ok allowed ↦
            check_objects allow_all allowed columns
              (referenced (cte_names statement.nodes) statement.nodes)
      ]

  -- The checks of the one statement.
  unfoldable pub validate_statement : Bool → List String → Statement → Result Exn (List String)
  validate_statement allow_all allowed_objects statement =
      if not statement.is_query
        || any_of is_forbidden statement.nodes
        || any_of is_placeholder statement.nodes
        || any_of is_operator statement.nodes
        || any_of is_refused_function statement.nodes
      then err (from_database database_query_invalid)
      else elim (output_columns statement.selects) [
        | err x ↦ err x
        | ok columns ↦ validate_objects allow_all allowed_objects statement columns
      ]

  abbrev pub validate_parsed :
      Bool → List String → Option (List (Option Statement)) → Result Exn (List String)
  validate_parsed allow_all allowed_objects (some (some statement ∷ [])) =
      validate_statement allow_all allowed_objects statement
  validate_parsed allow_all allowed_objects _ = err (from_database database_query_invalid)

  -- `_validate_read_query`
  unfoldable pub validate_read_query :
      Parser → String → Bool → List String → Result Exn (List String)
  validate_read_query parse sql allow_all allowed_objects =
      if has_escape sql
      then err (from_database database_query_invalid)
      else validate_parsed allow_all allowed_objects (parse sql)
