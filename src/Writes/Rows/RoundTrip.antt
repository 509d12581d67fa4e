-- ===== src/Writes/Rows/RoundTrip.antt =====
-- A plan that was put into a row by src/helix_mcp/services/writes/persistent_store.py is read from it.
use Prim.Native.Nat.{Ordering}
use Prim.Native.String.{compare}
use helix_mcp_gateway.Prelude.{
  ◌≡◌, refl, sym, ap, ap₂, all_of, ◌∙◌, Bool, true, false, ◌&&◌, Option, none, some, [], ◌∷◌,
  String,
}
use helix_mcp_gateway.Prelude.Equality.{◌==◌, string_eq}
use helix_mcp_gateway.Prelude.Dict.{Dict, lookup, Entries}
use helix_mcp_gateway.Prelude.Action.{ok}
use helix_mcp_gateway.Prelude.Attempt.{require, some_step}
use helix_mcp_gateway.Config.{Environment, dev, qa, prod}
use helix_mcp_gateway.Writes.Models.{
  Values, JsonScalar, WriteOperation, create, update, WritePlanStatus, pending, applying, applied,
  cancelled, failed, outcome_unknown, ApplyWriteResult,
}
use helix_mcp_gateway.Writes.Store.{StoredWritePlan}
use helix_mcp_gateway.Writes.Rows.{
  Json, object, Payload, Aad, Cipher, Row, aad, row_of, fits, plan_payload, json_text, json_values,
  raw_values, result_entry, operation_text, operation_of, environment_text, environment_of,
  status_text, status_of, required_string, optional_string, validated_values, required_values,
  optional_values, stored_result, plan_of, decode_row, decode,
}

abbrev comes_before : String → String → Bool
comes_before j k = elim (compare j k) [ Ordering.lt ↦ true | _ ↦ false ]

abbrev first_after : {V : Type 0} → String → Dict String V → Bool
first_after k [] = true
first_after k ((j, v) ∷ d) = comes_before k j

-- The keys stand in the order of `sort_keys`.
unfoldable pub in_key_order : {V : Type 0} → Dict String V → Bool
in_key_order [] = true
in_key_order ((k, v) ∷ d) = first_after k d && in_key_order d

unfoldable pub json_in_key_order : Json → Bool
json_in_key_order (object values) = in_key_order values
json_in_key_order _ = true

-- What is relied on of the cipher and of JSON: a ciphertext that was made with a nonce and metadata is
-- read with the same nonce and metadata. The JSON text has its keys sorted, and so has what is read.
pub record IsCipher (C : Cipher) : Type 0 where
  pub decrypts :
      (nonce : String) (payload : Payload) (metadata : Aad)
      → in_key_order payload ≡ true
      → all_of (λ (entry : String × Json). json_in_key_order entry.1) payload ≡ true
      → C.decrypt nonce (C.encrypt nonce payload metadata) metadata ≡ some payload

operation_of-text : (o : WriteOperation) → operation_of (operation_text o) ≡ some o
unfolding operation_of operation_text
operation_of-text create = refl
operation_of-text update = refl

pub environment_of-text : (e : Environment) → environment_of (environment_text e) ≡ some e
unfolding environment_of environment_text
environment_of-text dev = refl
environment_of-text qa = refl
environment_of-text prod = refl

status_of-text : (s : WritePlanStatus) → status_of (status_text s) ≡ some s
unfolding status_of status_text
status_of-text pending = refl
status_of-text applying = refl
status_of-text applied = refl
status_of-text cancelled = refl
status_of-text failed = refl
status_of-text outcome_unknown = refl

abbrev pub IsNonEmpty : String → Type 0
IsNonEmpty s = (s == "") ≡ false

abbrev pub IsOptional : Option String → Type 0
IsOptional none = Unit
IsOptional (some s) = IsNonEmpty s

-- No name of a field is empty, and the fields stand in the order in which they are stored.
abbrev pub HasFields : Values → Type 0
HasFields values =
    Entries (λ (field : String) (value : JsonScalar). IsNonEmpty field) values
    × (in_key_order values ≡ true)

abbrev pub HasOptionalFields : Option Values → Type 0
HasOptionalFields none = Unit
HasOptionalFields (some values) = HasFields values

-- The result of a plan is the one that a row can tell of.
abbrev pub HasOwnResult :
    String → WriteOperation → Environment → String → Option ApplyWriteResult → Type 0
HasOwnResult plan_id operation environment form none = Unit
HasOwnResult plan_id operation environment form (some r) =
    IsOptional r.entry_id
    × (r ≡ record {
      plan_id = plan_id;
      operation = operation;
      environment = environment;
      form = form;
      status = applied;
      entry_id = r.entry_id;
      reused_result = false;
    })

-- What the requests' models and the service see to: a form, and no empty name or identifier. A
-- dictionary of fields stands here in the order of its keys, which is no part of what it means.
pub record IsStorable (p : StoredWritePlan) : Type 0 where
  pub has_form : IsNonEmpty p.form
  pub has_entry : IsOptional p.entry_id
  pub has_current : HasOptionalFields p.current_values
  pub has_proposed : HasFields p.proposed_values
  pub has_precondition : IsOptional p.precondition
  pub has_result : HasOwnResult p.plan_id p.operation p.target.environment p.form p.result

validated-raw :
    (values : Values)
    → Entries (λ (field : String) (value : JsonScalar). IsNonEmpty field) values
    → validated_values (raw_values values) ≡ some values
unfolding validated_values raw_values
validated-raw [] h = refl
validated-raw ((field, value) ∷ values) h = rw (h.0, validated-raw values h.1) refl

first_after-raw :
    (k : String) (values : Values) → first_after k (raw_values values) ≡ first_after k values
unfolding raw_values
first_after-raw k [] = refl
first_after-raw k ((field, value) ∷ values) = refl

in_key_order-raw : (values : Values) → in_key_order (raw_values values) ≡ in_key_order values
unfolding in_key_order raw_values
in_key_order-raw [] = refl
in_key_order-raw ((field, value) ∷ values) =
    ap₂ (λ a b. a && b) (first_after-raw field values) (in_key_order-raw values)

optional_in_order :
    (o : Option Values) → HasOptionalFields o → json_in_key_order (json_values o) ≡ true
unfolding json_in_key_order
optional_in_order none h = refl
optional_in_order (some values) h = in_key_order-raw values ∙ h.1

text_in_order : (o : Option String) → json_in_key_order (json_text o) ≡ true
unfolding json_in_key_order
text_in_order none = refl
text_in_order (some s) = refl

optional_text :
    (stored : Payload) (key : String) (o : Option String)
    → lookup key stored ≡ some (json_text o)
    → IsOptional o
    → optional_string stored key ≡ some o
unfolding optional_string
optional_text stored key none e h = rw (e, optional_string) refl
optional_text stored key (some t) e h = rw (e, optional_string, h) refl

optional_fields :
    (stored : Payload) (key : String) (o : Option Values)
    → lookup key stored ≡ some (json_values o)
    → HasOptionalFields o
    → optional_values stored key ≡ some o
unfolding optional_values
optional_fields stored key none e h = rw (e, optional_values) refl
optional_fields stored key (some values) e h =
    rw (e, optional_values, validated-raw values h.0) refl

read_result :
    (C : Cipher) (nonce : String) (p : StoredWritePlan) (r : Option ApplyWriteResult)
    → p.result ≡ r
    → HasOwnResult p.plan_id p.operation p.target.environment p.form r
    → stored_result C (row_of C nonce p) p.operation p.target.environment p.form (plan_payload p)
      ≡ some r
unfolding stored_result plan_payload lookup row_of
read_result C nonce p none e h = rw (e, stored_result) refl
read_result C nonce p (some r) e h =
    let entry : optional_string (plan_payload p) "result_entry_id" ≡ some r.entry_id =
      optional_text (plan_payload p) "result_entry_id" r.entry_id (rw e refl) h.0 in
    rw (e, stored_result) (some_step _ _ _ entry ∙ ap (λ x. some (some x)) (sym h.1))

module _ (C : Cipher) (law : IsCipher C) (nonce : String) (p : StoredWritePlan)
    (s : IsStorable p) where
  abbrev payload : Payload
  payload = plan_payload p

  abbrev row : Row C
  row = row_of C nonce p

  keys_in_order : in_key_order payload ≡ true
  unfolding in_key_order plan_payload
  keys_in_order = refl

  objects_in_order : all_of (λ (entry : String × Json). json_in_key_order entry.1) payload ≡ true
  unfolding plan_payload json_in_key_order
  objects_in_order =
      rw
        (
          optional_in_order p.current_values s.has_current,
          text_in_order p.entry_id,
          text_in_order p.precondition,
          in_key_order-raw p.proposed_values,
          s.has_proposed.1,
          text_in_order (result_entry p.result),
        )
        refl

  read_form : required_string payload "form" false ≡ some p.form
  unfolding required_string plan_payload lookup
  read_form = rw s.has_form refl

  read_reason : required_string payload "reason" true ≡ some p.reason
  unfolding required_string plan_payload lookup
  read_reason = refl

  read_proposed : required_values payload "proposed_values" ≡ some p.proposed_values
  unfolding required_values plan_payload lookup
  read_proposed = validated-raw p.proposed_values s.has_proposed.0

  read_entry : optional_string payload "entry_id" ≡ some p.entry_id
  unfolding plan_payload lookup
  read_entry = optional_text payload "entry_id" p.entry_id refl s.has_entry

  read_precondition : optional_string payload "precondition" ≡ some p.precondition
  unfolding plan_payload lookup
  read_precondition = optional_text payload "precondition" p.precondition refl s.has_precondition

  read_current : optional_values payload "current_values" ≡ some p.current_values
  unfolding plan_payload lookup
  read_current = optional_fields payload "current_values" p.current_values refl s.has_current

  plan_of-row : plan_of C row p.operation p.target.environment p.status payload ≡ some p
  unfolding plan_of row_of
  plan_of-row =
      some_step _ _ _ read_form
      ∙ some_step _ _ _ read_entry
      ∙ some_step _ _ _ read_current
      ∙ some_step _ _ _ read_proposed
      ∙ some_step _ _ _ read_reason
      ∙ some_step _ _ _ read_precondition
      ∙ some_step _ _ _ (read_result C nonce p p.result refl s.has_result)

  decode_row-row_of : fits C p ≡ true → decode_row C row ≡ some p
  unfolding decode_row row_of fits
  decode_row-row_of fit =
      some_step _ _ _ (operation_of-text p.operation)
      ∙ some_step _ _ _ (environment_of-text p.target.environment)
      ∙ some_step _ _ _ (status_of-text p.status)
      ∙ some_step _ _ _ (law.decrypts nonce payload (aad C p) keys_in_order objects_in_order)
      ∙ ap (λ c. require c (plan_of C row p.operation p.target.environment p.status payload)) fit
      ∙ plan_of-row

  -- A plan whose payload fits is read from its row as it was put there, if the cipher decrypts what it
  -- has encrypted, the plan has a form and no empty name or identifier, a result of its own if it has
  -- one, and its fields stand in the order of their names.
  pub decode-row_of : fits C p ≡ true → decode C (row_of C nonce p) ≡ ok p
  unfolding decode
  decode-row_of fit = rw (decode_row-row_of fit, decode) refl
