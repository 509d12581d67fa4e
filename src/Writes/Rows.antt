-- ===== src/Writes/Rows.antt =====
-- The rows of src/helix_mcp/services/writes/persistent_store.py: what `_encrypt` puts into a row and
-- what `_decode` reads from it. AES-GCM over canonical JSON is an argument, and so is the size of the
-- JSON text in bytes.
pub mod RoundTrip
use helix_mcp_gateway.Prelude.{
  ℕ, Bool, true, false, not, ◌&&◌, Option, none, some, List, [], ◌∷◌, String, leb, is_some,
  if◌then◌else◌,
}
use helix_mcp_gateway.Prelude.Equality.{◌==◌, string_eq}
use helix_mcp_gateway.Prelude.Dict.{Dict, lookup}
use helix_mcp_gateway.Prelude.Action.{Result, ok, err}
use helix_mcp_gateway.Prelude.Attempt.{◌>>=◌, require}
use helix_mcp_gateway.Errors.{Exn, from_write, write_plan_persistence}
use helix_mcp_gateway.Config.{Environment, dev, qa, prod, TargetKey}
use helix_mcp_gateway.Writes.Bridge.{RawValue, scalar, not_scalar}
use helix_mcp_gateway.Writes.Models.{
  Values, JsonScalar, str, bool, WriteOperation, create, update, WritePlanStatus, pending, applying,
  applied, cancelled, failed, outcome_unknown, ApplyWriteResult,
}
use helix_mcp_gateway.Writes.Store.{StoredWritePlan}

-- A value of a JSON object, as far as `_decode` looks into it.
pub data Json : Type 0 where
  null : Json
  plain : JsonScalar → Json
  object : Dict String RawValue → Json
  array : Json

abbrev pub Payload : Type 0
Payload = Dict String Json

-- `_aad`: what the cipher binds to the payload.
pub record Aad : Type 0 where
  pub schema : ℕ
  pub plan_id : String
  pub plan_digest : String
  pub operation : String
  pub environment : String
  pub expires_at : ℕ
  pub status : String

-- `AESGCM` on the JSON text of a payload. Nothing comes out of `decrypt` where the tag is invalid, or
-- the text is no JSON object.
pub record Cipher : Type 1 where
  pub Ciphertext : Type 0
  pub size : Payload → ℕ
  pub encrypt : String → Payload → Aad → Ciphertext
  pub decrypt : String → Ciphertext → Aad → Option Payload

-- `_MAX_PAYLOAD_BYTES`
abbrev pub max_payload_bytes : ℕ
max_payload_bytes = 131072

-- The `value` of the enumerations, and what their constructors make of a text.
unfoldable pub operation_text : WriteOperation → String
operation_text create = "create"
operation_text update = "update"

unfoldable pub operation_of : String → Option WriteOperation
operation_of s = if s == "create" then some create else if s == "update" then some update else none

unfoldable pub environment_text : Environment → String
environment_text dev = "dev"
environment_text qa = "qa"
environment_text prod = "prod"

unfoldable pub environment_of : String → Option Environment
environment_of s =
    if s == "dev"
    then some dev
    else if s == "qa"
    then some qa
    else if s == "prod"
    then some prod
    else none

unfoldable pub status_text : WritePlanStatus → String
status_text pending = "pending"
status_text applying = "applying"
status_text applied = "applied"
status_text cancelled = "cancelled"
status_text failed = "failed"
status_text outcome_unknown = "outcome_unknown"

unfoldable pub status_of : String → Option WritePlanStatus
status_of s =
    if s == "pending"
    then some pending
    else if s == "applying"
    then some applying
    else if s == "applied"
    then some applied
    else if s == "cancelled"
    then some cancelled
    else if s == "failed"
    then some failed
    else if s == "outcome_unknown"
    then some outcome_unknown
    else none

abbrev pub json_text : Option String → Json
json_text none = null
json_text (some s) = plain (str s)

unfoldable pub raw_values : Values → Dict String RawValue
raw_values [] = []
raw_values ((field, value) ∷ values) = (field, scalar value) ∷ raw_values values

abbrev pub json_values : Option Values → Json
json_values none = null
json_values (some values) = object (raw_values values)

abbrev pub result_entry : Option ApplyWriteResult → Option String
result_entry none = none
result_entry (some result) = result.entry_id

-- The object that `_encrypt` hands to `json.dumps`, in the order in which `sort_keys` writes its keys.
unfoldable pub plan_payload : StoredWritePlan → Payload
plan_payload plan =
    ("current_values", json_values plan.current_values)
    ∷ ("entry_id", json_text plan.entry_id)
    ∷ ("form", plain (str plan.form))
    ∷ ("precondition", json_text plan.precondition)
    ∷ ("proposed_values", object (raw_values plan.proposed_values))
    ∷ ("reason", plain (str plan.reason))
    ∷ ("result_entry_id", json_text (result_entry plan.result))
    ∷ ("result_stored", plain (bool (is_some plan.result)))
    ∷ []

-- `_required_string`
unfoldable pub required_string : Payload → String → Bool → Option String
required_string payload key allow_empty = elim (lookup key payload) [
  | some (plain (str s)) ↦ if not allow_empty && s == "" then none else some s
  | _ ↦ none
]

-- `_optional_string`: nothing where a `ValueError` is raised.
unfoldable pub optional_string : Payload → String → Option (Option String)
optional_string payload key = elim (lookup key payload) [
  | none ↦ some none
  | some null ↦ some none
  | some (plain (str s)) ↦ if s == "" then none else some (some s)
  | _ ↦ none
]

-- `_validated_values`
unfoldable pub validated_values : Dict String RawValue → Option Values
validated_values [] = some []
validated_values ((field, not_scalar) ∷ values) = none
validated_values ((field, scalar value) ∷ values) =
    let rest = validated_values values in
    if field == ""
    then none
    else elim rest [ none ↦ none | some others ↦ some ((field, value) ∷ others) ]

-- `_required_values`
unfoldable pub required_values : Payload → String → Option Values
required_values payload key = elim (lookup key payload) [
  | some (object values) ↦ validated_values values
  | _ ↦ none
]

-- `_optional_values`
unfoldable pub optional_values : Payload → String → Option (Option Values)
optional_values payload key = elim (lookup key payload) [
  | none ↦ some none
  | some null ↦ some none
  | some (object values) ↦ elim (validated_values values) [ none ↦ none | some v ↦ some (some v) ]
  | _ ↦ none
]

module _ (C : Cipher) where
  open C use {Ciphertext, size, encrypt, decrypt}

  -- A row of the table `write_plans`.
  pub record Row : Type 0 where
    pub plan_id : String
    pub plan_digest : String
    pub operation : String
    pub environment : String
    pub expires_at : ℕ
    pub status : String
    pub nonce : String
    pub payload : Ciphertext

  -- `_aad` of a plan, and of the columns of a row.
  abbrev pub aad : StoredWritePlan → Aad
  aad plan = record {
    schema = 1;
    plan_id = plan.plan_id;
    plan_digest = plan.plan_digest;
    operation = operation_text plan.operation;
    environment = environment_text plan.target.environment;
    expires_at = plan.expires_at;
    status = status_text plan.status;
  }

  -- The row that holds a plan.
  unfoldable pub row_of : String → StoredWritePlan → Row
  row_of nonce plan = record {
    plan_id = plan.plan_id;
    plan_digest = plan.plan_digest;
    operation = operation_text plan.operation;
    environment = environment_text plan.target.environment;
    expires_at = plan.expires_at;
    status = status_text plan.status;
    nonce = nonce;
    payload = encrypt nonce (plan_payload plan) (aad plan);
  }

  -- The test of `_encrypt`.
  unfoldable pub fits : StoredWritePlan → Bool
  fits plan = leb (size (plan_payload plan)) max_payload_bytes

  -- The result that the payload tells of, if it tells of one.
  unfoldable pub stored_result :
      Row → WriteOperation → Environment → String → Payload → Option (Option ApplyWriteResult)
  stored_result row operation environment form payload = elim (lookup "result_stored" payload) [
    | some (plain (bool true)) ↦ do
      entry_id ← optional_string payload "result_entry_id"
      some (
          some (record {
            plan_id = row.plan_id;
            operation = operation;
            environment = environment;
            form = form;
            status = applied;
            entry_id = entry_id;
            reused_result = false;
          }))
    | some (plain (bool false)) ↦ some none
    | _ ↦ none
  ]

  -- The plan of a row whose payload is known.
  unfoldable pub plan_of :
      Row → WriteOperation → Environment → WritePlanStatus → Payload → Option StoredWritePlan
  plan_of row operation environment status payload = do
    form ← required_string payload "form" false
    entry_id ← optional_string payload "entry_id"
    current_values ← optional_values payload "current_values"
    proposed_values ← required_values payload "proposed_values"
    reason ← required_string payload "reason" true
    precondition ← optional_string payload "precondition"
    result ← stored_result row operation environment form payload
    some (record {
      plan_id = row.plan_id;
      plan_digest = row.plan_digest;
      operation = operation;
      target = record { environment = environment };
      form = form;
      entry_id = entry_id;
      current_values = current_values;
      proposed_values = proposed_values;
      reason = reason;
      precondition = precondition;
      expires_at = row.expires_at;
      status = status;
      result = result;
    })

  -- The columns of a row and its payload; nothing where one of the caught errors is raised. The
  -- metadata that the cipher checks is rebuilt from the parsed columns.
  unfoldable pub decode_row : Row → Option StoredWritePlan
  decode_row row = do
    operation ← operation_of row.operation
    environment ← environment_of row.environment
    status ← status_of row.status
    payload ← decrypt row.nonce row.payload (record {
      schema = 1;
      plan_id = row.plan_id;
      plan_digest = row.plan_digest;
      operation = operation_text operation;
      environment = environment_text environment;
      expires_at = row.expires_at;
      status = status_text status;
    })
    require (leb (size payload) max_payload_bytes)
        (plan_of row operation environment status payload)

  -- `_decode`
  unfoldable pub decode : Row → Result Exn StoredWritePlan
  decode row = elim (decode_row row) [
    | none ↦ err (from_write write_plan_persistence)
    | some plan ↦ ok plan
  ]
