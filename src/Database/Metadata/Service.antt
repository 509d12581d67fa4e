-- ===== src/Database/Metadata/Service.antt =====
-- `DatabaseMetadataService` of src/helix_mcp/services/database/metadata.py, over a client of the bridge.
-- `str.casefold` is an argument.
pub mod Guarded
use helix_mcp_gateway.Prelude.{
  ℕ, Bool, true, false, not, Option, none, some, List, [], ◌∷◌, String, length, ltb, if◌then◌else◌,
}
use helix_mcp_gateway.Prelude.Equality.{string_eq}
use helix_mcp_gateway.Prelude.Action.{
  Result, ok, err, Action, pure, raise_if, lift, or_raise, ◌>>=◌, ◌>>◌,
}
use helix_mcp_gateway.Errors.{
  Exn, from_database, database_read_disabled, database_query_limit, database_object_not_allowed,
  database_object_not_found, other_exception,
}
use helix_mcp_gateway.Config.{Environment}
use helix_mcp_gateway.RateLimit.{SlidingWindowCounter}
use helix_mcp_gateway.Targeting.{TargetRegistry, ResolvedTarget, EnvironmentArgument, key_of}
use helix_mcp_gateway.Client.Sql.{ArapiSqlValue}
use helix_mcp_gateway.Database.Service.{check_rate, resolve_target, zip_rows}
use helix_mcp_gateway.Database.Metadata.{object_sql, columns_sql, is_object_permitted}
use helix_mcp_gateway.Database.Metadata.Rows.{
  Row, DatabaseObjectMetadata, DatabaseColumnMetadata, object_from_row, column_from_row, read_each,
}
use helix_mcp_gateway.Database.Metadata.Objects.{DatabaseObjectCatalogQuery, build_objects_query}

-- `DatabaseColumnCatalogQuery`, `DatabaseObjectReference` and the results
pub record DatabaseColumnCatalogQuery : Type 0 where
  pub schema_name : String
  pub object_name : String
  pub name_contains : Option String
  pub offset : ℕ
  pub limit : ℕ

pub record DatabaseObjectReference : Type 0 where
  pub schema_name : String
  pub object_name : String

pub record DatabaseObjectCatalogResult : Type 0 where
  pub environment : Environment
  pub objects : List DatabaseObjectMetadata
  pub offset : ℕ
  pub limit : ℕ
  pub truncated : Bool

pub record DatabaseColumnCatalogResult : Type 0 where
  pub environment : Environment
  pub schema_name : String
  pub object_name : String
  pub columns : List DatabaseColumnMetadata
  pub offset : ℕ
  pub limit : ℕ
  pub truncated : Bool

pub record DatabaseObjectDescription : Type 0 where
  pub environment : Environment
  pub described : DatabaseObjectMetadata
  pub columns : List DatabaseColumnMetadata
  pub truncated : Bool

-- `ArapiMetadataClient`: `query_sql` with the SQL, the number of columns, the limit and the timeout.
pub record MetadataClient : Type 1 where
  pub World : Type 0
  pub query_sql : String → ℕ → ℕ → ℕ → World → Result Exn (List (List ArapiSqlValue) × Bool) × World

-- `_resolve_target`
unfoldable pub resolve_readable : TargetRegistry → EnvironmentArgument → Result Exn ResolvedTarget
resolve_readable registry environment = elim (resolve_target registry environment) [
  | err x ↦ err x
  | ok target ↦
      if target.policy.allow_sql then ok target else err (from_database database_read_disabled)
]

module _ (casefold : String → String) (C : MetadataClient) (registry : TargetRegistry) where
  open C use {World, query_sql}

  pub record State : Type 0 where
    pub counter : SlidingWindowCounter
    pub world : World

  abbrev pub MetadataAction : Type 0 → Type 0
  MetadataAction = Action Exn State

  abbrev pub check_limit : ResolvedTarget → ℕ → MetadataAction (Unit {0})
  check_limit target now s =
      let (r, counter) =
        check_rate (key_of target.config) target.policy.rate_limit_per_minute now s.counter in
      (r, record s { counter = counter })

  abbrev pub call_query_sql : String → ℕ → ℕ → ℕ → MetadataAction (List (List ArapiSqlValue) × Bool)
  call_query_sql sql column_count limit timeout_seconds s =
      let (r, world) = query_sql sql column_count limit timeout_seconds s.world in
      (r, record s { world = world })

  -- `_query`
  unfoldable pub query_rows :
      ResolvedTarget → String → List String → ℕ → MetadataAction (List Row × Bool)
  query_rows target sql columns limit = do
    (raw, truncated) ← call_query_sql sql (length columns) limit target.policy.query_timeout_seconds
    rows ← or_raise (zip_rows columns raw) other_exception
    pure (rows, truncated)

  abbrev pub object_columns : List String
  object_columns = "schema_name" ∷ "object_name" ∷ "object_kind" ∷ []

  abbrev pub first_object : List Row → MetadataAction DatabaseObjectMetadata
  first_object [] s = (err (from_database database_object_not_found), s)
  first_object (row ∷ rows) s = object_from_row row s

  -- `_resolve_object`
  unfoldable pub resolve_object :
      ResolvedTarget → String → String → MetadataAction DatabaseObjectMetadata
  resolve_object target schema object_name = do
    (rows, truncated) ← query_rows target (object_sql schema object_name) object_columns 1
    first_object rows

  -- `_load_columns`
  unfoldable pub load_columns :
      ResolvedTarget
      → String
      → String
      → Option String
      → ℕ
      → ℕ
      → MetadataAction (List DatabaseColumnMetadata × Bool)
  load_columns target schema object_name name_contains offset limit = do
    (rows, truncated) ←
        query_rows target (columns_sql schema object_name name_contains offset)
          ("column_name" ∷ "data_type" ∷ "nullable" ∷ "ordinal_position" ∷ []) limit
    columns ← read_each (column_from_row casefold) rows
    pure (columns, truncated)

  abbrev pub ensure_permitted : ResolvedTarget → String → String → MetadataAction (Unit {0})
  ensure_permitted target schema object_name =
      raise_if (not (is_object_permitted casefold target.policy schema object_name))
        (from_database database_object_not_allowed)

  abbrev pub list_permitted :
      ResolvedTarget
      → DatabaseObjectCatalogQuery
      → Option String
      → MetadataAction DatabaseObjectCatalogResult
  list_permitted target query none = pure (record {
    environment = target.config.environment;
    objects = [];
    offset = query.offset;
    limit = query.limit;
    truncated = false;
  })
  list_permitted target query (some sql) = do
    (rows, truncated) ← query_rows target sql object_columns query.limit
    objects ← read_each object_from_row rows
    pure (record {
      environment = target.config.environment;
      objects = objects;
      offset = query.offset;
      limit = query.limit;
      truncated = truncated;
    })

  -- `list_objects`
  unfoldable pub list_objects :
      EnvironmentArgument
      → DatabaseObjectCatalogQuery
      → ℕ
      → MetadataAction DatabaseObjectCatalogResult
  list_objects environment query now = do
    target ← lift (resolve_readable registry environment)
    raise_if (ltb target.policy.max_rows query.limit) (from_database database_query_limit)
    check_limit target now
    list_permitted target query (build_objects_query casefold target.policy query)

  -- `list_columns`
  unfoldable pub list_columns :
      EnvironmentArgument
      → DatabaseColumnCatalogQuery
      → ℕ
      → MetadataAction DatabaseColumnCatalogResult
  list_columns environment query now = do
    target ← lift (resolve_readable registry environment)
    raise_if (ltb target.policy.max_rows query.limit) (from_database database_query_limit)
    ensure_permitted target query.schema_name query.object_name
    check_limit target now
    object ← resolve_object target query.schema_name query.object_name
    (columns, truncated) ←
        load_columns target query.schema_name query.object_name query.name_contains query.offset
          query.limit
    pure (record {
      environment = target.config.environment;
      schema_name = query.schema_name;
      object_name = query.object_name;
      columns = columns;
      offset = query.offset;
      limit = query.limit;
      truncated = truncated;
    })

  -- `describe_object`
  unfoldable pub describe_object :
      EnvironmentArgument → DatabaseObjectReference → ℕ → MetadataAction DatabaseObjectDescription
  describe_object environment reference now = do
    target ← lift (resolve_readable registry environment)
    ensure_permitted target reference.schema_name reference.object_name
    check_limit target now
    described ← resolve_object target reference.schema_name reference.object_name
    (columns, truncated) ←
        load_columns target reference.schema_name reference.object_name none 0
          target.policy.max_rows
    pure (record {
      environment = target.config.environment;
      described = described;
      columns = columns;
      truncated = truncated;
    })
