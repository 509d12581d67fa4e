-- ===== src/Client/Post.antt =====
-- `_post` of src/helix_mcp/clients/arapi/client.py: the form that is sent, the body that is read, and the
-- errors that the answers of the bridge stand for.
pub mod Body
pub mod Payload
pub mod Sent
use helix_mcp_gateway.Prelude.{
  ℕ, Bool, true, false, ◌&&◌, ◌||◌, Option, none, some, List, [], ◌∷◌, ◌++◌, String, eqb, leb, ltb,
  length, all_of, any_of, is_some, if◌then◌else◌, ◌+◌, not,
}
use helix_mcp_gateway.Prelude.Equality.{◌==◌, string_eq}
use helix_mcp_gateway.Prelude.Dict.{Dict, lookup, insert}
use helix_mcp_gateway.Prelude.Action.{Result, ok, err, Action, pure, raise_if, lift, ◌>>=◌, ◌>>◌}
use helix_mcp_gateway.Errors.{
  Exn, from_bridge, other_exception, BridgeError, arapi_bridge_closed, arapi_bridge_transport,
  arapi_bridge_protocol, arapi_bridge_conflict, arapi_admin_required, arapi_field_ambiguous,
  arapi_field_not_queryable, arapi_form_not_found,
}
use helix_mcp_gateway.Writes.Models.{JsonInt}
use helix_mcp_gateway.Client.Json.{
  JsonValue, text, as_object, as_array, as_integer, as_text, get, int_equal,
}
use helix_mcp_gateway.Client.Decimal.{natural_text}

-- `_MAX_RESPONSE_BYTES`
abbrev pub max_response_bytes : ℕ
max_response_bytes = 8388608

-- What the client reads of its configuration, and its token for the bridge.
pub record ArapiBackendConfig : Type 0 where
  pub gateway_host : String
  pub gateway_port : ℕ

-- One call of `stream`.
pub record Request : Type 0 where
  pub path : String
  pub sent : Dict String String
  pub bridge_token : Option String
  pub timeout_seconds : Option ℕ

-- An answer, whose body comes in chunks of bytes. A chunk that is nothing is a request error of the
-- connection while the body is read.
pub record Response : Type 0 where
  pub status_code : ℕ
  pub content_length : Option String
  pub chunks : List (Option (List ℕ))

-- What `json.loads` or `Response.json` makes of a body: a value, an exception that the source handles
-- (`UnicodeDecodeError` or `ValueError`), or `RecursionError`, which it does not handle.
pub data Decoded : Type 0 where
  decoded : JsonValue → Decoded
  invalid : Decoded
  too_deep : Decoded

-- What `_post` calls: `resolve_secret` gives the fields of the secret, and `stream` an answer or nothing where
-- it raises a request error. `int` of a text gives nothing where it raises.
pub record Http : Type 1 where
  pub World : Type 0
  pub resolve_secret : World → Result Exn (Dict String String) × World
  pub stream : Request → World → Option Response × World
  pub int_of : String → Option JsonInt
  pub loads : List ℕ → Decoded
  pub response_json : List ℕ → Decoded

-- `form.update(entries)`
unfoldable pub update_with : Dict String String → Dict String String → Dict String String
update_with form [] = form
update_with form ((key, value) ∷ entries) = update_with (insert key value form) entries

-- The field of the secret that holds the authentication string, if there is one.
unfoldable pub authentication_of : Dict String String → Option String
authentication_of secret = elim (lookup "authentication" secret) [
  | some value ↦ some value
  | none ↦ elim (lookup "authString" secret) [
    | some value ↦ some value
    | none ↦ lookup "domain" secret
  ]
]

abbrev with_authentication : Option String → Dict String String → Dict String String
with_authentication none form = form
with_authentication (some value) form = insert "authentication" value form

-- The form that is sent; nothing where `reveal` raises.
unfoldable pub form_of :
    ArapiBackendConfig → Dict String String → Dict String String → Option (Dict String String)
unfolding authentication_of update_with natural_text
form_of config secret operation_data = elim (lookup "username" secret) [
  | none ↦ none
  | some username ↦ elim (lookup "password" secret) [
    | none ↦ none
    | some password ↦ some (
        update_with
          (with_authentication (authentication_of secret) (
            ("host", config.gateway_host)
            ∷ ("port", natural_text config.gateway_port)
            ∷ ("username", username)
            ∷ ("password", password)
            ∷ []))
          operation_data)
  ]
]

-- The test of the header `content-length`.
unfoldable pub is_bounded_length : (String → Option JsonInt) → Option String → Bool
is_bounded_length int_of none = true
is_bounded_length int_of (some raw_length) = elim (int_of raw_length) [
  | none ↦ false
  | some declared ↦
      (not declared.negative || eqb declared.magnitude 0)
      && leb declared.magnitude max_response_bytes
]

unfoldable pub read_chunks : List ℕ → List (Option (List ℕ)) → Result BridgeError (List ℕ)
read_chunks body [] = ok body
read_chunks body (none ∷ chunks) = err arapi_bridge_transport
read_chunks body (some chunk ∷ chunks) =
    let rest = read_chunks (body ++ chunk) chunks in
    if ltb max_response_bytes (length body + length chunk) then err arapi_bridge_protocol else rest

-- `_read_bounded_body`
unfoldable pub read_bounded_body :
    (String → Option JsonInt) → Response → Result BridgeError (List ℕ)
read_bounded_body int_of response =
    if is_bounded_length int_of response.content_length
    then read_chunks [] response.chunks
    else err arapi_bridge_protocol

abbrev is_text : String → JsonValue → Bool
is_text s v = elim (as_text v) [ none ↦ false | some t ↦ t == s ]

abbrev is_code : ℕ → JsonValue → Bool
is_code code v = elim (as_integer v) [
  | none ↦ false
  | some i ↦ int_equal i (record { negative = false; magnitude = code })
]

abbrev are_codes : ℕ → JsonValue → Bool
are_codes code v = elim (as_array v) [
  | none ↦ false
  | some codes ↦
      leb 1 (length codes)
      && leb (length codes) 32
      && all_of (λ item. is_some (as_integer item)) codes
      && any_of (is_code code) codes
]

-- Where the test is true the error is raised, else the code goes on; what the test raises is raised.
unfoldable pub raised_if : Result Exn Bool → BridgeError → Option Exn → Option Exn
raised_if (err x) error rest = some x
raised_if (ok true) error rest = some (from_bridge error)
raised_if (ok false) error rest = rest

module _ (response_json : List ℕ → Decoded) where
  -- A test of the object in a body that is within the limit; a body that holds no object fails it.
  unfoldable holds_in : (Dict String JsonValue → Bool) → List ℕ → Result Exn Bool
  holds_in test content =
      if ltb max_response_bytes (length content) then ok false else elim (response_json content) [
        | too_deep ↦ err other_exception
        | invalid ↦ ok false
        | decoded payload ↦ elim (as_object payload) [ none ↦ ok false | some d ↦ ok (test d) ]
      ]

  -- `_contains_arapi_error`
  unfoldable pub contains_arapi_error : ℕ → List ℕ → Result Exn Bool
  unfolding holds_in
  contains_arapi_error code =
      holds_in
        (λ d. is_text "ARAPI operation failed" (get "error" d) && are_codes code (get "codes" d))

  -- `_contains_bridge_code`
  unfoldable pub contains_bridge_code : String → List ℕ → Result Exn Bool
  unfolding holds_in
  contains_bridge_code code = holds_in (λ d. is_text code (get "code" d))

  -- The exception that is raised for an answer; nothing for one of status 200 that goes on.
  unfoldable pub error_of : ℕ → List ℕ → Option Exn
  unfolding raised_if
  error_of status content =
      if eqb status 409
      then some (from_bridge arapi_bridge_conflict)
      else raised_if
          (if eqb status 403 then contains_bridge_code "ARAPI_ADMIN_REQUIRED" content else ok false)
          arapi_admin_required
          (raised_if
            (if eqb status 400
              then contains_bridge_code "FORM_FIELD_AMBIGUOUS" content
              else ok false)
            arapi_field_ambiguous
            (if eqb status 200
              then none
              else raised_if (contains_arapi_error 286 content) arapi_field_not_queryable (
                  raised_if (contains_arapi_error 303 content) arapi_form_not_found
                    (some (from_bridge arapi_bridge_protocol)))))

module _ (H : Http) where
  open H use {World, resolve_secret, stream, int_of, loads, response_json}

  -- The payload of an answer, or the exception that is raised for it.
  unfoldable pub payload_of : Response → Result Exn JsonValue
  payload_of response = elim (read_bounded_body int_of response) [
    | err x ↦ err (from_bridge x)
    | ok body ↦ elim (error_of response_json response.status_code body) [
      | some x ↦ err x
      | none ↦ elim (loads body) [
        | decoded payload ↦ ok payload
        | invalid ↦ err (from_bridge arapi_bridge_protocol)
        | too_deep ↦ err other_exception
      ]
    ]
  ]

  -- The client: whether it is closed, and the world that it acts on.
  pub record State : Type 0 where
    pub closed : Bool
    pub world : World

  abbrev pub ClientAction : Type 0 → Type 0
  ClientAction = Action Exn State

  abbrev pub call_resolve : ClientAction (Dict String String)
  call_resolve s = let (r, world) = resolve_secret s.world in (r, record s { world = world })

  abbrev pub answered : Option Response → Result Exn JsonValue
  answered none = err (from_bridge arapi_bridge_transport)
  answered (some response) = payload_of response

  abbrev pub send : Request → ClientAction JsonValue
  send request s =
      let (response, world) = stream request s.world in
      (answered response, record s { world = world })

  abbrev pub form_or_raise : Option (Dict String String) → Result Exn (Dict String String)
  form_or_raise none = err other_exception
  form_or_raise (some form) = ok form

  -- `_post`, whose second result is always the status 200.
  unfoldable pub post :
      ArapiBackendConfig
      → Option String
      → String
      → Dict String String
      → Option ℕ
      → ClientAction JsonValue
  post config bridge_token path operation_data timeout_seconds s =
      (do
        raise_if s.closed (from_bridge arapi_bridge_closed)
        secret ← call_resolve
        form ← lift (form_or_raise (form_of config secret operation_data))
        send (record {
          path = path;
          sent = form;
          bridge_token = bridge_token;
          timeout_seconds = timeout_seconds;
        }))
        s

  -- `aclose`, without what the HTTP client does.
  unfoldable pub aclose : State → State
  aclose s = record s { closed = true }
