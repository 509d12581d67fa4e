-- ===== src/Database/Service/Answered.antt =====
-- What `query` of src/helix_mcp/services/database/service.py returns.
use helix_mcp_gateway.Prelude.{
  ℕ, ◌≡◌, refl, sym, ap, map, subst, ◌∙◌, inl, inr, Bool, some, List, String, length, All, arith,
  Option-cases,
}
use helix_mcp_gateway.Prelude.Action.{ok, err, or_raise, ◌>>=◌, Result-cases}
use helix_mcp_gateway.Errors.{Exn, other_exception}
use helix_mcp_gateway.Config.Allowlists.{keys_of}
use helix_mcp_gateway.Targeting.{TargetRegistry, ResolvedTarget, EnvironmentArgument, key_of}
use helix_mcp_gateway.Database.Plans.{DatabaseQuery, QueryContent}
use helix_mcp_gateway.Database.Plans.Calls.{Call}
use helix_mcp_gateway.Database.Sql.{Parser}
use helix_mcp_gateway.Database.Service.{
  SqlClient, check_rate, resolve_target, validate, State, call_client, query_result, query,
  DatabaseQueryResult, zip_rows, value_in_model, row_in_model,
}
use helix_mcp_gateway.Database.Service.Guarded.{IsAllowedQuery, validate_passed}
use helix_mcp_gateway.Database.Service.Rows.{
  zip_rows-keys, distinct_unfolded, values_of, rows_in_model, length-values,
}
use helix_mcp_gateway.Client.Sql.{ArapiSqlValue}

module _ (parse : Parser) (casefold : String → String) (sha256_json : QueryContent → String)
    (C : SqlClient) (registry : TargetRegistry) where
  abbrev QueryResult : Type 0
  QueryResult = DatabaseQueryResult parse casefold sha256_json C registry

  abbrev Shared : Type 0
  Shared = State parse casefold sha256_json C registry

  -- A result that tells what the bridge answered to the query: its columns are those that the check of
  -- the query found, and its rows are those of the answer in order, each with exactly these columns for
  -- its keys, in order, and with the values of the answer's row, in order, whose texts are stripped.
  pub record IsAnswer (environment : EnvironmentArgument) (request : DatabaseQuery) (s : Shared)
      (result : QueryResult) : Type 0 where
    pub target : ResolvedTarget
    pub raw : List (List ArapiSqlValue)
    pub resolved : resolve_target registry environment ≡ ok target
    pub allowed : IsAllowedQuery parse casefold target.policy request result.columns
    pub answered :
        (C.query_sql request.sql
          (length result.columns)
          request.limit
          target.policy.query_timeout_seconds
          s.world).0
        ≡ ok (raw, result.truncated)
    pub of_environment : result.environment ≡ target.config.environment
    pub of_limit : result.limit ≡ request.limit
    pub keys : All (λ row. keys_of row ≡ result.columns) result.rows
    pub values : map values_of result.rows ≡ map (map value_in_model) raw
    pub complete : length result.rows ≡ length raw
    pub counted : result.row_count ≡ length result.rows

  result-IsAnswer :
      (environment : EnvironmentArgument) (request : DatabaseQuery) (s : Shared)
      (target : ResolvedTarget) (columns : List String) (raw : List (List ArapiSqlValue))
      (truncated : Bool) (result : QueryResult)
      → validate parse casefold registry environment request ≡ ok (target, columns)
      → (C.query_sql request.sql
          (length columns)
          request.limit
          target.policy.query_timeout_seconds
          s.world).0
        ≡ ok (raw, truncated)
      → query_result parse casefold sha256_json C registry target columns request (raw, truncated)
        ≡ some result
      → IsAnswer environment request s result
  unfolding query_result
  result-IsAnswer environment request s target columns raw truncated result passed answered h =
      let (resolved, allowed) =
        validate_passed parse casefold registry environment request target columns passed in
      elim (Option-cases (zip_rows columns raw)) [
        | inl e ↦ absurd (ground (arith, h, e))
        | inr (rows, e) ↦
            let distinct =
              distinct_unfolded casefold columns allowed.read_only.selection.distinct in
            let (zipped, valued) = zip_rows-keys columns raw rows distinct e in
            let (keys, values, lengths) = rows_in_model columns rows zipped in
            let same : record {
              environment = target.config.environment;
              columns = columns;
              rows = map row_in_model rows;
              row_count = length rows;
              limit = request.limit;
              truncated = truncated;
            }
                ≡ result =
              ground (arith, h, e) in
            subst (IsAnswer environment request s) same (record {
              target = target;
              raw = raw;
              resolved = resolved;
              allowed = allowed;
              answered = answered;
              of_environment = refl;
              of_limit = refl;
              keys = keys;
              values = values ∙ ap (map (map value_in_model)) valued;
              complete = lengths ∙ length-values rows raw valued;
              counted = sym lengths;
            })
      ]

  not_validated :
      (environment : EnvironmentArgument) (request : DatabaseQuery) (now : ℕ) (during : List Call)
      (s : Shared) (x : Exn)
      → validate parse casefold registry environment request ≡ err x
      → (query parse casefold sha256_json C registry environment request now during s).0 ≡ err x
  unfolding query ◌>>=◌
  not_validated environment request now during s x e = rw (e, query) refl

  module _ (environment : EnvironmentArgument) (request : DatabaseQuery) (now : ℕ)
      (during : List Call) (s : Shared) (target : ResolvedTarget) (columns : List String)
      (passed : validate parse casefold registry environment request ≡ ok (target, columns)) where
    limited :
        (x : Exn)
        → (check_rate (key_of target.config) target.policy.rate_limit_per_minute now s.counter).0
          ≡ err x
        → (query parse casefold sha256_json C registry environment request now during s).0 ≡ err x
    unfolding query ◌>>=◌
    limited x e = rw (passed, e, query) refl

    not_answered :
        (x : Exn)
        → (check_rate (key_of target.config) target.policy.rate_limit_per_minute now s.counter).0
          ≡ ok tt
        → (C.query_sql request.sql
            (length columns)
            request.limit
            target.policy.query_timeout_seconds
            s.world).0
          ≡ err x
        → (query parse casefold sha256_json C registry environment request now during s).0 ≡ err x
    unfolding query call_client ◌>>=◌
    not_answered x e f = rw (passed, e, f, query) refl

    answer_read :
        (answer : List (List ArapiSqlValue) × Bool)
        → (check_rate (key_of target.config) target.policy.rate_limit_per_minute now s.counter).0
          ≡ ok tt
        → (C.query_sql request.sql
            (length columns)
            request.limit
            target.policy.query_timeout_seconds
            s.world).0
          ≡ ok answer
        → (query parse casefold sha256_json C registry environment request now during s).0
          ≡ (or_raise
              (query_result parse casefold sha256_json C registry target columns request answer)
              other_exception
              s).0
    unfolding query call_client or_raise ◌>>=◌
    answer_read answer e f =
        elim (Option-cases
          (query_result parse casefold sha256_json C registry target columns request answer)) [
            | inl o ↦ rw (passed, e, f, o, query) refl
            | inr (result, o) ↦ rw (passed, e, f, o, query) refl
          ]

  pub query-IsAnswer :
      (environment : EnvironmentArgument) (request : DatabaseQuery) (now : ℕ) (during : List Call)
      (s : Shared) (result : QueryResult)
      → (query parse casefold sha256_json C registry environment request now during s).0 ≡ ok result
      → IsAnswer environment request s result
  unfolding or_raise
  query-IsAnswer environment request now during s result h =
      elim (Result-cases (validate parse casefold registry environment request)) [
        | inl (x, e) ↦ absurd (cc (h, not_validated environment request now during s x e))
        | inr ((target, columns), e) ↦
            elim (Result-cases
              (check_rate (key_of target.config) target.policy.rate_limit_per_minute now
                s.counter).0) [
                  | inl (x, f) ↦
                      absurd (cc (h, limited environment request now during s target columns e x f))
                  | inr (_, f) ↦
                      elim (Result-cases
                        (C.query_sql request.sql (length columns) request.limit
                          target.policy.query_timeout_seconds s.world).0) [
                            | inl (x, g) ↦ absurd (
                                cc (
                                  h,
                                  not_answered environment request now during s target columns e x f
                                      g,
                                ))
                            | inr ((raw, truncated), g) ↦
                                let read =
                                  sym (
                                    answer_read environment request now during s target columns e
                                      (raw, truncated) f g)
                                  ∙ h in
                                elim (Option-cases (
                                  query_result parse casefold sha256_json C registry target columns
                                    request (raw, truncated))) [
                                      | inl o ↦ absurd (ground (arith, read, o))
                                      | inr (result', o) ↦
                                          let same : result' ≡ result = ground (arith, read, o) in
                                          subst (IsAnswer environment request s) same (
                                            result-IsAnswer environment request s target columns raw
                                              truncated result' e g o)
                                    ]
                          ]
                ]
      ]
