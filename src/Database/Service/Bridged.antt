-- ===== src/Database/Service/Bridged.antt =====
-- The service of SQL over the client of the bridge: src/helix_mcp/services/database/service.py and
-- src/helix_mcp/clients/arapi/client.py together.
use helix_mcp_gateway.Prelude.{
  ℕ, ◌≡◌, refl, ◌≤◌, Bool, Option, is_some, true, List, String, length, arith,
}
use helix_mcp_gateway.Prelude.Equality.{string_eq}
use helix_mcp_gateway.Prelude.Action.{Result, ok, err}
use helix_mcp_gateway.Errors.{Exn}
use helix_mcp_gateway.Targeting.{TargetRegistry, ResolvedTarget, EnvironmentArgument}
use helix_mcp_gateway.Client.Json.{JsonValue}
use helix_mcp_gateway.Client.Sql.{ArapiSqlValue, ArapiSqlResult}
use helix_mcp_gateway.Client.Sql.Rows.{IsTable, parse_sql_result-IsTable, zip_rows-total}
use helix_mcp_gateway.Client.Post.{ArapiBackendConfig, Http, State as ClientState}
use helix_mcp_gateway.Client.Calls
use helix_mcp_gateway.Client.Calls.{ask}
use helix_mcp_gateway.Client.Calls.Asked.{query_sql_returned}
use helix_mcp_gateway.Database.Plans.{DatabaseQuery, QueryContent}
use helix_mcp_gateway.Database.Plans.Calls.{Call}
use helix_mcp_gateway.Database.Sql.{Parser}
use helix_mcp_gateway.Database.Service.{SqlClient, State, query, query_result, DatabaseQueryResult}
use helix_mcp_gateway.Database.Service.Answered.{query-IsAnswer}

module _ (casefold : String → String) (H : Http) (config : ArapiBackendConfig)
    (bridge_token : Option String) where
  abbrev rows_and_mark : Result Exn ArapiSqlResult → Result Exn (List (List ArapiSqlValue) × Bool)
  rows_and_mark (ok result) = ok (result.rows, result.truncated)
  rows_and_mark (err x) = err x

  unfoldable pub query_sql :
      String
      → ℕ
      → ℕ
      → ℕ
      → ClientState H
      → Result Exn (List (List ArapiSqlValue) × Bool) × ClientState H
  query_sql sql column_count limit timeout_seconds s =
      let (r, s') =
        Calls.query_sql casefold H config bridge_token sql column_count limit timeout_seconds s in
      (rows_and_mark r, s')

  -- The client of the bridge, as the service uses it.
  abbrev pub sql_client : SqlClient
  sql_client = record { World = ClientState H; query_sql = query_sql }

  rows_and_mark-ok :
      (r : Result Exn ArapiSqlResult) (rows : List (List ArapiSqlValue)) (truncated : Bool)
      → rows_and_mark r ≡ ok (rows, truncated)
      → r ≡ ok (record { rows = rows; truncated = truncated })
  rows_and_mark-ok (ok result) rows truncated h = ground (arith, h)
  rows_and_mark-ok (err x) rows truncated h = absurd (cc h)

  -- Whenever the client returns rows, it read them from the payload of an answer: at most `limit` rows,
  -- each with `column_count` values.
  pub query_sql-IsTable :
      (sql : String) (column_count limit timeout_seconds : ℕ) (s : ClientState H)
      (rows : List (List ArapiSqlValue)) (truncated : Bool)
      → (query_sql sql column_count limit timeout_seconds s).0 ≡ ok (rows, truncated)
      → (payload : JsonValue) × IsTable column_count limit payload
          (record { rows = rows; truncated = truncated })
  unfolding query_sql Calls.query_sql
  query_sql-IsTable sql column_count limit timeout_seconds s rows truncated h =
      let (payload, parsed) =
        query_sql_returned casefold H config bridge_token sql column_count limit timeout_seconds s (
          rows_and_mark-ok
            (Calls.query_sql casefold H config bridge_token sql column_count limit timeout_seconds
              s).0
            rows truncated h) in
      (
        payload,
        parse_sql_result-IsTable column_count limit payload
            (record { rows = rows; truncated = truncated }) parsed,
      )

  module _ (parse : Parser) (sha256_json : QueryContent → String) (registry : TargetRegistry) where
    -- Rows that the client returns for the columns of a query are never refused by
    -- `zip(..., strict=True)`: there is a result for them.
    pub query_sql-query_result :
        (target : ResolvedTarget) (columns : List String) (request : DatabaseQuery)
        (timeout_seconds : ℕ) (s : ClientState H) (rows : List (List ArapiSqlValue))
        (truncated : Bool)
        → (query_sql request.sql (length columns) request.limit timeout_seconds s).0
          ≡ ok (rows, truncated)
        → is_some (
            query_result parse casefold sha256_json sql_client registry target columns request
              (rows, truncated))
          ≡ true
    unfolding query_result
    query_sql-query_result target columns request timeout_seconds s rows truncated h =
        let (payload, table) =
          query_sql-IsTable request.sql (length columns) request.limit timeout_seconds s rows
            truncated h in
        let (zipped, e) = zip_rows-total columns rows table.complete in
        rw (e, query_result, is_some) refl

    -- When the service of SQL runs over the client of the bridge, a query that returns has at most the
    -- rows of its limit.
    pub query_over_client-le :
        (environment : EnvironmentArgument) (request : DatabaseQuery) (now : ℕ) (during : List Call)
        (s : State parse casefold sha256_json sql_client registry)
        (result : DatabaseQueryResult parse casefold sha256_json sql_client registry)
        → (query parse casefold sha256_json sql_client registry environment request now during s).0
          ≡ ok result
        → (length result.rows ≤ result.limit) × (result.row_count ≡ length result.rows)
    query_over_client-le environment request now during s result h =
        let answer =
          query-IsAnswer parse casefold sha256_json sql_client registry environment request now
            during s result h in
        let (payload, table) =
          query_sql-IsTable request.sql (length result.columns) request.limit
            answer.target.policy.query_timeout_seconds s.world answer.raw result.truncated
            answer.answered in
        (omega (arith, table.bounded, answer.complete, answer.of_limit), answer.counted)
