-- ===== src/Tests/Metadata.antt =====
-- The catalogue of the database on concrete inputs.
use helix_mcp_gateway.Prelude.{ℕ, ◌≡◌, ◌⊎◌, ◌≤◌, none, false, suc, [], ◌∷◌, ◌++◌}
use helix_mcp_gateway.Prelude.Action.{ok}
use helix_mcp_gateway.Text.{codes}
use helix_mcp_gateway.Targeting.{text}
use helix_mcp_gateway.Client.Sql.{sql_text}
use helix_mcp_gateway.Database.Metadata.{object_sql}
use helix_mcp_gateway.Database.Metadata.Literals.{
  tokens, out, literal, before_schema, before_name, object_sql-tokens,
}
use helix_mcp_gateway.Database.Metadata.Service.{
  MetadataClient, State, DatabaseColumnCatalogQuery, list_columns,
}
use helix_mcp_gateway.Database.Metadata.Service.Guarded.{
  IsPermittedRead, list_columns-IsPermittedRead,
}
use helix_mcp_gateway.Tests.Writes.{same_text}
use helix_mcp_gateway.Tests.Queries.{registry}

-- A name with a quote stays one literal.
object_sql-tokens_example :
    tokens out (codes (object_sql "public" "x' OR '1"))
    ≡ tokens out (codes before_schema)
      ++ (literal (codes "public")
          ∷ (tokens out (codes before_name) ++ (literal (codes "x' OR '1") ∷ [])))
object_sql-tokens_example = object_sql-tokens "public" "x' OR '1"

-- A client whose world counts the calls.
abbrev catalogue : MetadataClient
catalogue = record {
  World = ℕ;
  query_sql = λ sql column_count limit timeout_seconds w.
      (ok ((sql_text "public" ∷ sql_text "hpd" ∷ sql_text "table" ∷ []) ∷ [], false), suc w);
}

abbrev columns_of_hpd : DatabaseColumnCatalogQuery
columns_of_hpd = record {
  schema_name = "public";
  object_name = "hpd";
  name_contains = none;
  offset = 0;
  limit = 5;
}

abbrev unread : State same_text catalogue registry
unread = record { counter = record { events = [] }; world = 0 }

list_columns-IsPermittedRead_example :
    ((list_columns same_text catalogue registry (text "dev") columns_of_hpd 10 unread).1.world ≡ 0)
    ⊎ ((read : IsPermittedRead same_text catalogue registry (text "dev") "public" "hpd" 10 unread)
        × (5 ≤ read.target.policy.max_rows))
list_columns-IsPermittedRead_example =
    list_columns-IsPermittedRead same_text catalogue registry (text "dev") columns_of_hpd 10 unread
