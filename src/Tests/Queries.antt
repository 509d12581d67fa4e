-- ===== src/Tests/Queries.antt =====
-- The service of SQL queries on concrete inputs.
use helix_mcp_gateway.Prelude.{
  ℕ, ◌≡◌, refl, ◌⊎◌, Bool, true, false, none, some, List, [], ◌∷◌, String,
}
use helix_mcp_gateway.Prelude.Equality.{string_eq}
use helix_mcp_gateway.Prelude.Dict.{lookup, insert}
use helix_mcp_gateway.Prelude.Action.{Result, ok, err, ◌>>=◌}
use helix_mcp_gateway.Errors.{Exn, from_bridge, arapi_bridge_transport}
use helix_mcp_gateway.Config.{TargetPolicyConfig, arapi, dev, environment_beq, target_key_beq}
use helix_mcp_gateway.Text.{strip, contains, is_space, text_of}
use helix_mcp_gateway.Client.Sql.{ArapiSqlValue, sql_text}
use helix_mcp_gateway.RateLimit
use helix_mcp_gateway.RateLimit.{acquire_event, drop_old, window}
use helix_mcp_gateway.Targeting.{
  TargetRegistry, ResolvedTarget, text, resolve, select, availability_for, parse_target_key,
  parse_environment, parse_backend,
}
use helix_mcp_gateway.Text.{is_blank}
use helix_mcp_gateway.Database.Plans.{QueryContent, DatabaseQuery, pending, executing, acquire}
use helix_mcp_gateway.Database.Plans.Calls.{run}
use helix_mcp_gateway.Database.Sql.{
  Parser, Statement, function, table, other_function, sql_function_name, has_escape,
  collect_columns, output_columns, normalize_all, cte_names, object_of, referenced,
  validate_objects, validate_statement, validate_read_query,
}
use helix_mcp_gateway.Database.Sql.Names.{
  is_column_name, split_parts, is_object_name, normalize_allowed_object, is_allowed_function,
  join_parts,
}
use helix_mcp_gateway.Database.Sql.ReadOnly.{IsReadOnlyQuery, validate_read_query-IsReadOnlyQuery}
use helix_mcp_gateway.Database.Service.{
  SqlClient, State, DatabaseQueryResult, query, check_rate, resolve_target, validate_query,
  validate, call_client,
}
use helix_mcp_gateway.Database.Service.Guarded.{
  IsPlannedCall, executed_world, execute_plan-IsPlannedCall,
}
use helix_mcp_gateway.Database.Service.Retried.{failed_execution-retried, executed_state}
use helix_mcp_gateway.Tests.Writes.{same_text, on_dev, closing_policy}
use helix_mcp_gateway.Tests.Others.{queries, query_plan, query_is_acquired}

-- `SELECT lower(Status) AS status FROM HPD`, as a parser tells of it.
abbrev statement : Statement
statement = record {
  is_query = true;
  nodes =
      function (record { original_name = some "lower"; kind = other_function; own_name = "LOWER" })
      ∷ table (record { catalog = ""; db = ""; name = "hpd" })
      ∷ [];
  selects = record { stars = []; alias = some "status" } ∷ [];
}

abbrev pub parser : Parser
parser sql = some (some statement ∷ [])

validate_read_query-IsReadOnlyQuery_example :
    IsReadOnlyQuery same_text parser "SELECT lower(Status) AS status FROM hpd" false
      (" hpd " ∷ [])
      ("status" ∷ [])
unfolding sql_function_name has_escape collect_columns output_columns normalize_all cte_names
    object_of referenced validate_objects validate_statement validate_read_query is_column_name
    split_parts is_object_name strip normalize_allowed_object is_allowed_function join_parts
    contains is_space text_of
validate_read_query-IsReadOnlyQuery_example =
    validate_read_query-IsReadOnlyQuery same_text parser "SELECT lower(Status) AS status FROM hpd"
      false (" hpd " ∷ []) ("status" ∷ []) refl

abbrev reading_policy : TargetPolicyConfig
reading_policy = record closing_policy { allow_sql = true; allowed_sql_objects = "hpd" ∷ [] }

abbrev pub registry : TargetRegistry
registry = record {
  targets =
      (
        on_dev,
        record { environment = dev; display_name = "Dev"; policy_ref = "readers"; enabled = true },
      )
      ∷ [];
  policies = ("readers", reading_policy) ∷ [];
  credential_environments = none;
}

-- A client whose world counts the calls; each call ends as `outcome` says.
abbrev client : Result Exn (List (List ArapiSqlValue) × Bool) → SqlClient
client outcome = record { World = ℕ; query_sql = λ sql columns limit timeout w. (outcome, ℕ.suc w) }

abbrev working : SqlClient
working = client (ok ((sql_text " Open " ∷ []) ∷ [], false))

abbrev broken : SqlClient
broken = client (err (from_bridge arapi_bridge_transport))

abbrev pub sql_of : QueryContent → String
sql_of content = content.sql

abbrev starting : (C : SqlClient) → C.World → State parser same_text sql_of C registry
starting C w = record { plans = queries pending; counter = record { events = [] }; world = w }

abbrev pub request : DatabaseQuery
request = record { sql = "SELECT 1 AS one"; limit = 5 }

execute_plan-IsPlannedCall_example :
    (executed_world parser same_text sql_of working registry
        (text "dev")
        10
        []
        "q1"
        "d1"
        10
        (starting working 0)
      ≡ 0)
    ⊎ IsPlannedCall parser same_text sql_of working registry
        (text "dev")
        10
        []
        "q1"
        "d1"
        10
        (starting working 0)
        (executed_world parser same_text sql_of working registry
          (text "dev")
          10
          []
          "q1"
          "d1"
          10
          (starting working 0))
execute_plan-IsPlannedCall_example =
    execute_plan-IsPlannedCall parser same_text sql_of working registry (text "dev") 10 [] "q1" "d1"
      10 (starting working 0)

abbrev dev_target : ResolvedTarget
dev_target = record {
  config = record {
    environment = dev;
    display_name = "Dev";
    policy_ref = "readers";
    enabled = true;
  };
  policy = reading_policy;
  backend = some arapi;
}

dev_is_resolved : resolve_target registry (text "dev") ≡ ok dev_target
unfolding resolve_target resolve select availability_for parse_target_key parse_environment
    parse_backend is_blank is_space lookup environment_beq target_key_beq
dev_is_resolved = refl

request_is_valid : validate_query parser same_text reading_policy request ≡ ok ("status" ∷ [])
unfolding sql_function_name has_escape collect_columns output_columns normalize_all cte_names
    object_of referenced validate_objects validate_statement validate_read_query is_column_name
    split_parts is_object_name strip normalize_allowed_object is_allowed_function join_parts
    contains is_space text_of validate_query
request_is_valid = refl

pub request_is_validated :
    validate parser same_text registry (text "dev") request ≡ ok (dev_target, "status" ∷ [])
unfolding validate
request_is_validated = rw (dev_is_resolved, request_is_valid, validate) refl

abbrev after_query : (C : SqlClient) → C.World → State parser same_text sql_of C registry
after_query C w = record {
  plans = queries executing;
  counter = record { events = (on_dev, 10 ∷ []) ∷ [] };
  world = w;
}

query_is_raised :
    query parser same_text sql_of broken registry
      (text "dev")
      request
      10
      []
      (record (starting broken 0) { plans = queries executing })
    ≡ (err (from_bridge arapi_bridge_transport), after_query broken 1)
unfolding query call_client check_rate RateLimit.acquire acquire_event drop_old lookup insert run
    ◌>>=◌
query_is_raised = rw (request_is_validated, query) refl

abbrev one_row : DatabaseQueryResult parser same_text sql_of working registry
one_row = record {
  environment = dev;
  columns = "status" ∷ [];
  rows = (("status", sql_text "Open") ∷ []) ∷ [];
  row_count = 1;
  limit = 5;
  truncated = false;
}

plan_is_held : lookup "q1" (queries executing).plans ≡ some (query_plan executing)
unfolding lookup
plan_is_held = refl

failed_execution-retried_example :
    ((executed_state parser same_text sql_of broken registry
        (text "dev")
        "q1"
        "d1"
        10
        10
        []
        (starting broken 0)).0
      ≡ err (from_bridge arapi_bridge_transport))
    × ((acquire "q1" "d1" on_dev 20
          (executed_state parser same_text sql_of broken registry
            (text "dev")
            "q1"
            "d1"
            10
            10
            []
            (starting broken 0)).1.plans).0
        ≡ ok (query_plan executing))
failed_execution-retried_example =
    failed_execution-retried parser same_text sql_of broken registry (text "dev") "q1" "d1" 10 10 []
      (starting broken 0) dev_target (query_plan executing) (queries executing)
      (from_bridge arapi_bridge_transport) (after_query broken 1) 20 dev_is_resolved
      query_is_acquired query_is_raised plan_is_held refl
