-- ===== src/Database/Metadata/Objects.antt =====
-- `_build_objects_query` of src/helix_mcp/services/database/metadata.py: the SQL that lists the objects that a
-- policy permits. `str.casefold` is an argument.
use helix_mcp_gateway.Prelude.{
  ℕ, Bool, true, false, Option, none, some, List, [], ◌∷◌, ◌++◌, map, String, if◌then◌else◌,
}
use helix_mcp_gateway.Text.{append, join}
use helix_mcp_gateway.Config.{TargetPolicyConfig}
use helix_mcp_gateway.Client.Decimal.{natural_text}
use helix_mcp_gateway.Database.Metadata.{
  DatabaseObjectKind, relkind, sql_literal, object_select, allowed_object_names,
}

-- `DatabaseObjectCatalogQuery`
pub record DatabaseObjectCatalogQuery : Type 0 where
  pub schema_name : Option String
  pub name_contains : Option String
  pub kind : Option DatabaseObjectKind
  pub include_system : Bool
  pub offset : ℕ
  pub limit : ℕ

abbrev pub without_system : Bool → List String
without_system true = []
without_system false =
    "  AND n.nspname <> 'pg_catalog'" ∷ "  AND n.nspname <> 'information_schema'"
    ∷ "  AND n.nspname NOT LIKE 'pg_toast%'" ∷ "  AND n.nspname NOT LIKE 'pg_temp_%'" ∷ []

abbrev pub of_schema : Option String → List String
unfolding sql_literal
of_schema none = []
of_schema (some schema) = append "  AND n.nspname = " (sql_literal schema) ∷ []

abbrev pub named : Option String → List String
unfolding sql_literal
named none = []
named (some name) =
    append "  AND strpos(lower(c.relname), lower(" (append (sql_literal name) ")) > 0") ∷ []

abbrev pub of_kind : Option DatabaseObjectKind → List String
unfolding sql_literal
of_kind none = []
of_kind (some kind) = append "  AND c.relkind = " (sql_literal (relkind kind)) ∷ []

abbrev pub one_of : String → List String → List String
unfolding sql_literal
one_of column [] = []
one_of column (name ∷ names) =
    append column (append " IN (" (append (join ", " (map sql_literal (name ∷ names))) ")")) ∷ []

abbrev pub any_filter : List String → Option (List String)
any_filter [] = none
any_filter (filter ∷ filters) =
    some (append "  AND (" (append (join " OR " (filter ∷ filters)) ")") ∷ [])

module _ (casefold : String → String) where
  -- The filter by the policy; nothing where the policy permits no object.
  unfoldable pub permitted : TargetPolicyConfig → Option (List String)
  unfolding allowed_object_names
  permitted policy =
      let (unqualified, qualified) = allowed_object_names casefold policy.allowed_sql_objects in
      if policy.allow_all_sql_objects
      then some []
      else any_filter (
          one_of "lower(c.relname)" unqualified
          ++ one_of "lower(n.nspname || '.' || c.relname)" qualified)

  -- `_build_objects_query`
  unfoldable pub build_objects_query :
      TargetPolicyConfig → DatabaseObjectCatalogQuery → Option String
  unfolding permitted object_select natural_text
  build_objects_query policy query = elim (permitted policy) [
    | none ↦ none
    | some filters ↦ some (
        join "\n" (
          (object_select ∷ without_system query.include_system)
          ++ of_schema query.schema_name
          ++ named query.name_contains
          ++ of_kind query.kind
          ++ filters
          ++ ("ORDER BY n.nspname, c.relname" ∷ append "OFFSET " (natural_text query.offset) ∷ [])))
  ]
