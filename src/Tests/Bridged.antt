-- ===== src/Tests/Bridged.antt =====
-- The service of SQL over the client of the bridge, on concrete inputs.
use helix_mcp_gateway.Prelude.{◌≡◌, refl, ◌≤◌, false, none, [], ◌∷◌, length}
use helix_mcp_gateway.Prelude.Equality.{string_eq}
use helix_mcp_gateway.Prelude.Dict.{lookup, insert}
use helix_mcp_gateway.Prelude.Action.{ok, ◌>>=◌}
use helix_mcp_gateway.Prelude.Collect.{collect}
use helix_mcp_gateway.Config.{dev}
use helix_mcp_gateway.Text.{stripped, strip, text_of, is_space}
use helix_mcp_gateway.RateLimit
use helix_mcp_gateway.RateLimit.{acquire_event, drop_old}
use helix_mcp_gateway.Targeting.{text}
use helix_mcp_gateway.Database.Plans.Calls.{run}
use helix_mcp_gateway.Database.Service.{
  State, query, call_client, check_rate, query_result, zip_row, zip_rows, DatabaseQueryResult,
  row_in_model, value_in_model,
}
use helix_mcp_gateway.Database.Service.Bridged.{query_sql, sql_client, query_over_client-le}
use helix_mcp_gateway.Client.Json.{
  JsonValue, boolean, text as text_value, array, object, no_items, item, no_members, member,
  has_exactly,
}
use helix_mcp_gateway.Client.Decimal.{natural_text, with_digits, digit}
use helix_mcp_gateway.Client.Sql.{
  sql_bounds, parse_sql_result, parse_row, parse_sql_value, sql_text,
}
use helix_mcp_gateway.Client.Post.{
  post, payload_of, form_of, update_with, authentication_of, read_chunks, read_bounded_body,
  is_bounded_length, error_of, raised_if,
}
use helix_mcp_gateway.Client.Calls
use helix_mcp_gateway.Client.Calls.{ask}
use helix_mcp_gateway.Tests.Writes.{same_text}
use helix_mcp_gateway.Tests.Client.{answering, local, opened}
use helix_mcp_gateway.Tests.Queries.{parser, registry, request, sql_of, request_is_validated}

abbrev rows_payload : JsonValue
rows_payload = object (
    member "rows" (array (item (array (item (text_value "Open") no_items)) no_items))
      (member "truncated" (boolean false) no_members))

abbrev service_state :
    State parser same_text sql_of
      (sql_client same_text (answering 200 rows_payload) local none)
      registry
service_state = record {
  plans = record { plans = []; ttl = 900; max_pending = 10 };
  counter = record { events = [] };
  world = opened 200 rows_payload;
}

abbrev one_status :
    DatabaseQueryResult parser same_text sql_of
      (sql_client same_text (answering 200 rows_payload) local none)
      registry
one_status = record {
  environment = dev;
  columns = "status" ∷ [];
  rows = (("status", sql_text "Open") ∷ []) ∷ [];
  row_count = 1;
  limit = 5;
  truncated = false;
}

query_over_client_returns :
    (query parser same_text sql_of
      (sql_client same_text (answering 200 rows_payload) local none)
      registry
      (text "dev")
      request
      10
      []
      service_state).0
    ≡ ok one_status
unfolding query call_client check_rate RateLimit.acquire acquire_event drop_old lookup insert run
    ◌>>=◌ query_result zip_row zip_rows query_sql Calls.query_sql sql_bounds ask post form_of
    authentication_of update_with natural_text with_digits digit payload_of read_bounded_body
    read_chunks is_bounded_length error_of raised_if parse_sql_result parse_row parse_sql_value
    has_exactly collect row_in_model value_in_model stripped strip text_of is_space
query_over_client_returns = rw (request_is_validated, query) refl

query_over_client-le_example :
    (length one_status.rows ≤ one_status.limit) × (one_status.row_count ≡ length one_status.rows)
query_over_client-le_example =
    query_over_client-le same_text (answering 200 rows_payload) local none parser sql_of registry
      (text "dev") request 10 [] service_state one_status query_over_client_returns
