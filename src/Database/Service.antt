-- ===== src/Database/Service.antt =====
-- src/helix_mcp/services/database/service.py: `DatabaseQueryService`, with the limiter of
-- src/helix_mcp/services/database/limiter.py in memory. The bridge client and the parser are
-- arguments, and so is what other tasks call on the store of plans while the client is awaited.
pub mod Guarded
pub mod Retried
pub mod Rows
pub mod Answered
pub mod Bridged
use helix_mcp_gateway.Prelude.{
  ℕ, Bool, true, false, not, Option, none, some, List, [], ◌∷◌, String, length, ltb, if◌then◌else◌,
  map,
}
use helix_mcp_gateway.Prelude.Equality.{string_eq}
use helix_mcp_gateway.Prelude.Dict.{Dict, insert}
use helix_mcp_gateway.Prelude.Action.{
  Result, ok, err, Action, pure, raise_if, lift, or_raise, ◌>>=◌, ◌>>◌,
}
use helix_mcp_gateway.Errors.{
  Exn, from_database, database_read_disabled, database_query_limit, database_rate_limit,
  other_exception,
}
use helix_mcp_gateway.Config.{Environment, TargetKey, TargetPolicyConfig}
use helix_mcp_gateway.RateLimit
use helix_mcp_gateway.RateLimit.{SlidingWindowCounter}
use helix_mcp_gateway.Targeting.{
  TargetRegistry, ResolvedTarget, EnvironmentArgument, resolve, key_of,
}
use helix_mcp_gateway.Text.{stripped}
use helix_mcp_gateway.Client.Sql.{ArapiSqlValue, sql_text}
use helix_mcp_gateway.Database.Plans
use helix_mcp_gateway.Database.Plans.{
  DatabaseQuery, QueryContent, StoredSqlQueryPlan, SqlQueryPlanStore, SqlQueryPlanResult,
}
use helix_mcp_gateway.Database.Plans.Calls.{Call, run}
use helix_mcp_gateway.Database.Sql.{Parser, validate_read_query}

-- The bridge client, as the service uses it: `query_sql` with the SQL, the number of columns, the
-- limit of rows and the timeout gives rows of values, and whether they were cut.
pub record SqlClient : Type 1 where
  pub World : Type 0
  pub query_sql : String → ℕ → ℕ → ℕ → World → Result Exn (List (List ArapiSqlValue) × Bool) × World

-- `DatabaseRateLimiter.check` without a database
unfoldable pub check_rate :
    TargetKey → ℕ → ℕ → SlidingWindowCounter → Result Exn (Unit {0}) × SlidingWindowCounter
check_rate target limit now counter =
    let (allowed, counter') = RateLimit.acquire target limit now counter in
    (if allowed then ok tt else err (from_database database_rate_limit), counter')

-- `dict(zip(columns, row, strict=True))`, put into the dictionary one by one.
unfoldable pub zip_row :
    {V : Type 0} → List String → List V → Dict String V → Option (Dict String V)
zip_row [] [] d = some d
zip_row (column ∷ columns) (value ∷ row) d = zip_row columns row (insert column value d)
zip_row _ _ d = none

unfoldable pub zip_rows : {V : Type 0} → List String → List (List V) → Option (List (Dict String V))
zip_rows columns [] = some []
zip_rows columns (row ∷ rows) = elim (zip_row columns row []) [
  | none ↦ none
  | some d ↦ elim (zip_rows columns rows) [ none ↦ none | some ds ↦ some (d ∷ ds) ]
]

-- A value in a `FrozenModel`, which takes white space off both ends of a text.
unfoldable pub value_in_model : ArapiSqlValue → ArapiSqlValue
value_in_model (sql_text s) = sql_text (stripped s)
value_in_model value = value

-- A row in the model: the names of the columns, which have no white space, are its keys as they are.
unfoldable pub row_in_model : Dict String ArapiSqlValue → Dict String ArapiSqlValue
unfolding value_in_model
row_in_model [] = []
row_in_model ((column, value) ∷ row) = (column, value_in_model value) ∷ row_in_model row

-- `_resolve_target`
unfoldable pub resolve_target : TargetRegistry → EnvironmentArgument → Result Exn ResolvedTarget
resolve_target registry environment = resolve registry environment (some "arapi") true

module _ (parse : Parser) (casefold : String → String) where
  -- `_validate`, once the target is known.
  unfoldable pub validate_query : TargetPolicyConfig → DatabaseQuery → Result Exn (List String)
  validate_query policy query =
      if not policy.allow_sql
      then err (from_database database_read_disabled)
      else if ltb policy.max_rows query.limit
      then err (from_database database_query_limit)
      else validate_read_query casefold parse query.sql policy.allow_all_sql_objects
          policy.allowed_sql_objects

  -- `_validate`
  unfoldable pub validate :
      TargetRegistry
      → EnvironmentArgument
      → DatabaseQuery
      → Result Exn (ResolvedTarget × List String)
  validate registry environment query = elim (resolve_target registry environment) [
    | err x ↦ err x
    | ok target ↦ elim (validate_query target.policy query) [
      | err x ↦ err x
      | ok columns ↦ ok (target, columns)
    ]
  ]

module _ (parse : Parser) (casefold : String → String) (sha256_json : QueryContent → String)
    (C : SqlClient) (registry : TargetRegistry) where
  open C use {World, query_sql}

  -- The shared state: the plans, the counter of reads, and the world behind the bridge.
  pub record State : Type 0 where
    pub plans : SqlQueryPlanStore
    pub counter : SlidingWindowCounter
    pub world : World

  pub record DatabaseQueryResult : Type 0 where
    pub environment : Environment
    pub columns : List String
    pub rows : List (Dict String ArapiSqlValue)
    pub row_count : ℕ
    pub limit : ℕ
    pub truncated : Bool

  -- The fields that the result of an execution has besides those of a query's result.
  pub record SqlQueryExecutionResult : Type 0 where
    pub plan_id : String
    pub plan_digest : String
    pub result : DatabaseQueryResult

  abbrev pub ServiceAction : Type 0 → Type 0
  ServiceAction = Action Exn State

  -- A call of the store of plans.
  abbrev pub on_plans : {A : Type 0} → Action Exn SqlQueryPlanStore A → ServiceAction A
  on_plans call s = let (r, plans) = call s.plans in (r, record s { plans = plans })

  abbrev pub check_limit : ResolvedTarget → ℕ → ServiceAction (Unit {0})
  check_limit target now s =
      let (r, counter) =
        check_rate (key_of target.config) target.policy.rate_limit_per_minute now s.counter in
      (r, record s { counter = counter })

  -- The call of the client; meanwhile other tasks call the store of plans.
  unfoldable pub call_client :
      List Call
      → ResolvedTarget
      → List String
      → DatabaseQuery
      → ServiceAction (List (List ArapiSqlValue) × Bool)
  call_client during target columns query s =
      let (r, world) =
        query_sql query.sql (length columns) query.limit target.policy.query_timeout_seconds
          s.world in
      (r, record s { plans = run sha256_json during s.plans; world = world })

  unfoldable pub query_result :
      ResolvedTarget
      → List String
      → DatabaseQuery
      → List (List ArapiSqlValue) × Bool
      → Option DatabaseQueryResult
  query_result target columns query (raw_rows, truncated) = elim (zip_rows columns raw_rows) [
    | none ↦ none
    | some rows ↦ some (record {
      environment = target.config.environment;
      columns = columns;
      rows = map row_in_model rows;
      row_count = length rows;
      limit = query.limit;
      truncated = truncated;
    })
  ]

  -- `query`
  unfoldable pub query :
      EnvironmentArgument → DatabaseQuery → ℕ → List Call → ServiceAction DatabaseQueryResult
  query environment request now during = do
    (target, columns) ← lift (validate parse casefold registry environment request)
    check_limit target now
    answer ← call_client during target columns request
    or_raise (query_result target columns request answer) other_exception

  -- `plan`
  unfoldable pub plan :
      EnvironmentArgument → DatabaseQuery → String → ℕ → ℕ → ℕ → ServiceAction SqlQueryPlanResult
  plan environment request plan_id purged_at created_at shown_at = do
    (target, columns) ← lift (validate parse casefold registry environment request)
    on_plans (
        Plans.create sha256_json (key_of target.config) request plan_id purged_at created_at
          shown_at)

  -- `execute_plan` after the query: its failure is recorded and raised again, unless recording it raises.
  unfoldable pub settle_execution :
      String → String → Result Exn DatabaseQueryResult → ServiceAction SqlQueryExecutionResult
  settle_execution plan_id plan_digest (err x) = do on_plans (Plans.fail plan_id); lift (err x)
  settle_execution plan_id plan_digest (ok result) = do
    on_plans (Plans.complete plan_id)
    pure (record { plan_id = plan_id; plan_digest = plan_digest; result = result })

  -- The part of `execute_plan` that is under `try`, and what follows it.
  unfoldable pub execute_acquired :
      EnvironmentArgument
      → String
      → String
      → ℕ
      → List Call
      → StoredSqlQueryPlan
      → ServiceAction SqlQueryExecutionResult
  execute_acquired environment plan_id plan_digest now during acquired s =
      let (r, s') = query environment acquired.query now during s in
      settle_execution plan_id plan_digest r s'

  -- `execute_plan`
  unfoldable pub execute_plan :
      EnvironmentArgument
      → String
      → String
      → ℕ
      → ℕ
      → List Call
      → ServiceAction SqlQueryExecutionResult
  execute_plan environment plan_id plan_digest acquired_at checked_at during = do
    target ← lift (resolve_target registry environment)
    acquired ← on_plans (Plans.acquire plan_id plan_digest (key_of target.config) acquired_at)
    execute_acquired environment plan_id plan_digest checked_at during acquired

  -- `get_plan`
  unfoldable pub get_plan : EnvironmentArgument → String → ℕ → ℕ → ServiceAction SqlQueryPlanResult
  get_plan environment plan_id checked_at shown_at = do
    target ← lift (resolve_target registry environment)
    on_plans (Plans.get plan_id (key_of target.config) checked_at shown_at)

  -- `cancel_plan`
  unfoldable pub cancel_plan :
      EnvironmentArgument → String → ℕ → ℕ → ServiceAction SqlQueryPlanResult
  cancel_plan environment plan_id checked_at shown_at = do
    target ← lift (resolve_target registry environment)
    on_plans (Plans.cancel plan_id (key_of target.config) checked_at shown_at)
