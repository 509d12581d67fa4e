-- ===== src/Client/Calls/Asked.antt =====
-- What a call of the client of src/helix_mcp/clients/arapi/client.py that returns tells.
use helix_mcp_gateway.Prelude.{ℕ, ◌≡◌, ap, Option, some, [], ◌∷◌, String, not}
use helix_mcp_gateway.Prelude.Dict.{Dict}
use helix_mcp_gateway.Prelude.Action.{ok, or_raise, raise_if, bind_returned, or_raise_returned}
use helix_mcp_gateway.Errors.{from_bridge, other_exception, arapi_bridge_protocol}
use helix_mcp_gateway.Client.Json.{JsonValue}
use helix_mcp_gateway.Client.Decimal.{natural_text}
use helix_mcp_gateway.Client.Sql.{ArapiSqlResult, sql_bounds, parse_sql_result}
use helix_mcp_gateway.Client.Post.{ArapiBackendConfig, Http, State, ClientAction, post}
use helix_mcp_gateway.Client.Calls.{ask, query_sql}

module _ (casefold : String → String) (H : Http) (config : ArapiBackendConfig)
    (bridge_token : Option String) where
  pub ask_returned :
      {A : Type 0} (path : String) (form : Dict String String) (timeout_seconds : Option ℕ)
      (parse : JsonValue → Option A) (s : State H) {a : A}
      → (ask casefold H config bridge_token path form timeout_seconds parse s).0 ≡ ok a
      → (payload : JsonValue) × ((post H config bridge_token path form timeout_seconds s).0
          ≡ ok payload)
        × (parse payload ≡ some a)
  unfolding ask
  ask_returned path form timeout_seconds parse s h =
      let (payload, s', posted, h₁) =
        bind_returned (λ payload. or_raise (parse payload) (from_bridge arapi_bridge_protocol))
          (post H config bridge_token path form timeout_seconds) s h in
      (
        payload,
        ap (λ r. r.0) posted,
        or_raise_returned (parse payload) (from_bridge arapi_bridge_protocol) s' h₁,
      )

  pub query_sql_returned :
      (sql : String) (column_count limit timeout_seconds : ℕ) (s : State H) {a : ArapiSqlResult}
      → (query_sql casefold H config bridge_token sql column_count limit timeout_seconds s).0 ≡ ok a
      → (payload : JsonValue) × (parse_sql_result column_count limit payload ≡ some a)
  unfolding query_sql
  query_sql_returned sql column_count limit timeout_seconds s h =
      let question : ClientAction H ArapiSqlResult =
        ask casefold H config bridge_token "/v1/sql/query"
          (("sql", sql)
            ∷ ("column_count", natural_text column_count)
            ∷ ("limit", natural_text limit)
            ∷ [])
          (some timeout_seconds) (parse_sql_result column_count limit) in
      let (_, s', _, asked) =
        bind_returned (λ _. question)
          (raise_if (not (sql_bounds column_count limit)) other_exception) s h in
      let (payload, _, parsed) =
        ask_returned "/v1/sql/query"
          (("sql", sql)
            ∷ ("column_count", natural_text column_count)
            ∷ ("limit", natural_text limit)
            ∷ [])
          (some timeout_seconds) (parse_sql_result column_count limit) s' asked in
      (payload, parsed)
