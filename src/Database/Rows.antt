-- ===== src/Database/Rows.antt =====
-- The rows of src/helix_mcp/services/database/persistent_plans.py: what `_encrypt` puts into a row and
-- what `_decode` reads from it. AES-GCM over JSON is an argument, and so is the size of the JSON text.
-- The queries are validated by `DatabaseQuery` of src/helix_mcp/services/database/models.py.
pub mod RoundTrip
use helix_mcp_gateway.Prelude.{
  ℕ, Bool, true, false, not, ◌&&◌, ◌||◌, Option, none, some, List, [], ◌∷◌, String, any_of, leb,
  ltb, eqb, length, if◌then◌else◌,
}
use helix_mcp_gateway.Prelude.Equality.{◌==◌, string_eq}
use helix_mcp_gateway.Prelude.Action.{Result, ok, err}
use helix_mcp_gateway.Prelude.Attempt.{◌>>=◌, require}
use helix_mcp_gateway.Errors.{Exn, from_database, sql_query_plan_persistence}
use helix_mcp_gateway.Text.{strip, codes, text_of}
use helix_mcp_gateway.Writes.Rows.{environment_text, environment_of, max_payload_bytes}
use helix_mcp_gateway.Database.Plans.{
  SqlQueryPlanStatus, pending, executing, executed, cancelled, failed, DatabaseQuery,
  StoredSqlQueryPlan,
}

-- `payload.pop("parameters", ())` of plans from older versions.
pub data LegacyParameters : Type 0 where
  absent empty filled : LegacyParameters

-- The JSON object of a payload.
pub record QueryPayload : Type 0 where
  pub sql : String
  pub limit : Option ℕ
  pub parameters : LegacyParameters

-- `_aad`: what the cipher binds to the payload.
pub record QueryAad : Type 0 where
  pub schema : ℕ
  pub plan_id : String
  pub plan_digest : String
  pub environment : String
  pub expires_at : ℕ
  pub status : String

-- `AESGCM` on the JSON text of a payload. Nothing comes out of `decrypt` where the tag is invalid, or
-- the text is no JSON object of an SQL text and, perhaps, a limit and parameters.
pub record QueryCipher : Type 1 where
  pub Ciphertext : Type 0
  pub size : QueryPayload → ℕ
  pub encrypt : String → QueryPayload → QueryAad → Ciphertext
  pub decrypt : String → Ciphertext → QueryAad → Option QueryPayload

-- The `value` of `SqlQueryPlanStatus`, and what its constructor makes of a text.
unfoldable pub status_text : SqlQueryPlanStatus → String
status_text pending = "pending"
status_text executing = "executing"
status_text executed = "executed"
status_text cancelled = "cancelled"
status_text failed = "failed"

unfoldable pub status_of : String → Option SqlQueryPlanStatus
status_of s =
    if s == "pending"
    then some pending
    else if s == "executing"
    then some executing
    else if s == "executed"
    then some executed
    else if s == "cancelled"
    then some cancelled
    else if s == "failed"
    then some failed
    else none

-- `ord(character) < 0x20 and character not in "\n\r\t"`
abbrev is_control : ℕ → Bool
is_control c = ltb c 32 && not (eqb c 10 || eqb c 13 || eqb c 9)

abbrev accept_sql : List ℕ → Option String
accept_sql [] = none
accept_sql (c ∷ cs) = if any_of is_control (c ∷ cs) then none else some (text_of (c ∷ cs))

-- The model strips `sql` first, then tests its length; then `normalize_sql`.
unfoldable pub normalize_sql : String → Option String
normalize_sql sql =
    let characters = strip (codes sql) in
    if leb 1 (length characters) && leb (length characters) 16384
    then accept_sql (strip characters)
    else none

-- `DatabaseQuery.model_validate`
unfoldable pub make_query : String → ℕ → Option DatabaseQuery
make_query sql limit = do
  normalized ← normalize_sql sql
  require (leb 1 limit && leb limit 100000) (some (record { sql = normalized; limit = limit }))

-- The default of `limit`.
abbrev limit_or_default : Option ℕ → ℕ
limit_or_default none = 100
limit_or_default (some limit) = limit

abbrev is_filled : LegacyParameters → Bool
is_filled filled = true
is_filled _ = false

module _ (C : QueryCipher) where
  open C use {Ciphertext, size, encrypt, decrypt}

  -- A row of the table `sql_query_plans`.
  pub record QueryRow : Type 0 where
    pub plan_id : String
    pub plan_digest : String
    pub environment : String
    pub expires_at : ℕ
    pub status : String
    pub nonce : String
    pub payload : Ciphertext

  abbrev pub query_aad : StoredSqlQueryPlan → QueryAad
  query_aad plan = record {
    schema = 1;
    plan_id = plan.plan_id;
    plan_digest = plan.plan_digest;
    environment = environment_text plan.target.environment;
    expires_at = plan.expires_at;
    status = status_text plan.status;
  }

  -- The object that `_encrypt` hands to `json.dumps`.
  abbrev pub query_payload : StoredSqlQueryPlan → QueryPayload
  query_payload plan = record {
    sql = plan.query.sql;
    limit = some plan.query.limit;
    parameters = absent;
  }

  -- The row that holds a plan.
  unfoldable pub query_row_of : String → StoredSqlQueryPlan → QueryRow
  query_row_of nonce plan = record {
    plan_id = plan.plan_id;
    plan_digest = plan.plan_digest;
    environment = environment_text plan.target.environment;
    expires_at = plan.expires_at;
    status = status_text plan.status;
    nonce = nonce;
    payload = encrypt nonce (query_payload plan) (query_aad plan);
  }

  -- The test of `_encrypt`.
  unfoldable pub query_fits : StoredSqlQueryPlan → Bool
  query_fits plan = leb (size (query_payload plan)) max_payload_bytes

  -- The columns of a row and its payload; nothing where one of the caught errors is raised.
  unfoldable pub decode_query_row : QueryRow → Option StoredSqlQueryPlan
  decode_query_row row = do
    environment ← environment_of row.environment
    status ← status_of row.status
    payload ← decrypt row.nonce row.payload (record {
      schema = 1;
      plan_id = row.plan_id;
      plan_digest = row.plan_digest;
      environment = environment_text environment;
      expires_at = row.expires_at;
      status = status_text status;
    })
    query ←
        require (leb (size payload) max_payload_bytes && not (is_filled payload.parameters))
          (make_query payload.sql (limit_or_default payload.limit))
    some (record {
      plan_id = row.plan_id;
      plan_digest = row.plan_digest;
      target = record { environment = environment };
      query = query;
      expires_at = row.expires_at;
      status = status;
    })

  -- `_decode`
  unfoldable pub decode_query : QueryRow → Result Exn StoredSqlQueryPlan
  decode_query row = elim (decode_query_row row) [
    | none ↦ err (from_database sql_query_plan_persistence)
    | some plan ↦ ok plan
  ]
