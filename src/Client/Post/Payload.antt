-- ===== src/Client/Post/Payload.antt =====
-- The answers that `_post` of src/helix_mcp/clients/arapi/client.py reads: what a payload is, and which
-- errors leave the outcome of a write unknown.
use helix_mcp_gateway.Prelude.{
  ℕ, ◌≡◌, refl, sym, ap, ◌∙◌, subst, ◌≤◌, ◌⊎◌, Bool, true, false, Option, none, some, List, [], ◌∷◌,
  String, length, inl, inr, Bool-cases, Option-cases, arith, ltb, eqb, ◌+◌, ◌++◌, if◌then◌else◌,
}
use helix_mcp_gateway.Prelude.Equality.{string_eq}
use helix_mcp_gateway.Prelude.Action.{Result, Result-cases, ok, err}
use helix_mcp_gateway.Errors.{
  Exn, from_bridge, other_exception, BridgeError, arapi_bridge, arapi_bridge_configuration,
  arapi_bridge_transport, arapi_bridge_protocol, arapi_bridge_conflict, arapi_form_not_found,
  arapi_field_ambiguous, arapi_field_not_queryable, arapi_admin_required, arapi_bridge_closed,
}
use helix_mcp_gateway.Writes.Bridge.{arapi_outcome_unknown, handle}
use helix_mcp_gateway.Writes.Models.{JsonInt}
use helix_mcp_gateway.Client.Json.{JsonValue}
use helix_mcp_gateway.Client.Post.{
  Http, Response, Decoded, decoded, invalid, too_deep, max_response_bytes, is_bounded_length,
  read_bounded_body, error_of, payload_of, read_chunks, raised_if, contains_bridge_code,
  contains_arapi_error,
}
use helix_mcp_gateway.Client.Post.Body.{whole, read_bounded_body_iff}

raised_if-none :
    (test : Result Exn Bool) (error : BridgeError) (rest : Option Exn)
    → raised_if test error rest ≡ none
    → rest ≡ none
unfolding raised_if
raised_if-none (err x) error rest h = absurd (cc h)
raised_if-none (ok true) error rest h = absurd (cc h)
raised_if-none (ok false) error rest h = h

module _ (response_json : List ℕ → Decoded) (status : ℕ) (content : List ℕ) where
  abbrev admin_test : Result Exn Bool
  admin_test =
      if eqb status 403
      then contains_bridge_code response_json "ARAPI_ADMIN_REQUIRED" content
      else ok false

  abbrev ambiguous_test : Result Exn Bool
  ambiguous_test =
      if eqb status 400
      then contains_bridge_code response_json "FORM_FIELD_AMBIGUOUS" content
      else ok false

  abbrev not_found : Option Exn
  not_found =
      raised_if (contains_arapi_error response_json 303 content) arapi_form_not_found
        (some (from_bridge arapi_bridge_protocol))

  abbrev last_error : Option Exn
  last_error =
      if eqb status 200
      then none
      else raised_if (contains_arapi_error response_json 286 content) arapi_field_not_queryable
          not_found

  last_error-none : last_error ≡ none → status ≡ 200
  last_error-none h = elim (Bool-cases (eqb status 200)) [
    | inl e ↦ ground (arith, e)
    | inr e ↦
        let raised : raised_if (contains_arapi_error response_json 286 content)
              arapi_field_not_queryable not_found
            ≡ none =
          ground (arith, e, h) in
        absurd (
          cc (
            raised_if-none (contains_arapi_error response_json 303 content) arapi_form_not_found
              (some (from_bridge arapi_bridge_protocol))
              (raised_if-none (contains_arapi_error response_json 286 content)
                arapi_field_not_queryable not_found raised)))
  ]

  pub error_of-none : error_of response_json status content ≡ none → status ≡ 200
  unfolding error_of
  error_of-none h = elim (Bool-cases (eqb status 409)) [
    | inl e ↦ absurd (ground (arith, e, h))
    | inr e ↦
        let rest : raised_if admin_test arapi_admin_required
              (raised_if ambiguous_test arapi_field_ambiguous last_error)
            ≡ none =
          ground (arith, e, h) in
        last_error-none (
          raised_if-none ambiguous_test arapi_field_ambiguous last_error (
            raised_if-none admin_test arapi_admin_required
              (raised_if ambiguous_test arapi_field_ambiguous last_error) rest))
  ]

  pub error_of-200 : status ≡ 200 → error_of response_json status content ≡ none
  unfolding error_of raised_if
  error_of-200 h = rw h refl

read_chunks_unknown :
    (body : List ℕ) (chunks : List (Option (List ℕ))) (x : BridgeError)
    → read_chunks body chunks ≡ err x
    → arapi_outcome_unknown x ≡ true
unfolding read_chunks arapi_outcome_unknown
read_chunks_unknown body [] x h = absurd (cc h)
read_chunks_unknown body (none ∷ chunks) x h = ground (arith, h)
read_chunks_unknown body (some chunk ∷ chunks) x h =
    elim (Bool-cases (ltb max_response_bytes (length body + length chunk))) [
      | inl e ↦ ground (arith, e, h)
      | inr e ↦ read_chunks_unknown (body ++ chunk) chunks x (ground (arith, e, h))
    ]

body_unknown :
    (int_of : String → Option JsonInt) (response : Response) (x : BridgeError)
    → read_bounded_body int_of response ≡ err x
    → arapi_outcome_unknown x ≡ true
unfolding read_bounded_body arapi_outcome_unknown
body_unknown int_of response x h =
    elim (Bool-cases (is_bounded_length int_of response.content_length)) [
      | inl e ↦ read_chunks_unknown [] response.chunks x (ground (arith, e, h))
      | inr e ↦ ground (arith, e, h)
    ]

Decoded-cases :
    (r : Decoded)
    → ((payload : JsonValue) × (r ≡ decoded payload)) ⊎ ((r ≡ invalid) ⊎ (r ≡ too_deep))
Decoded-cases (decoded payload) = inl (payload, refl)
Decoded-cases invalid = inr (inl refl)
Decoded-cases too_deep = inr (inr refl)

pub handle-unknown :
    (x : BridgeError) → (handle false (from_bridge x)).outcome_unknown ≡ arapi_outcome_unknown x
unfolding handle arapi_outcome_unknown
handle-unknown arapi_bridge_conflict = refl
handle-unknown arapi_bridge = refl
handle-unknown arapi_bridge_configuration = refl
handle-unknown arapi_bridge_transport = refl
handle-unknown arapi_bridge_protocol = refl
handle-unknown arapi_form_not_found = refl
handle-unknown arapi_field_ambiguous = refl
handle-unknown arapi_field_not_queryable = refl
handle-unknown arapi_bridge_closed = refl
handle-unknown arapi_admin_required = refl

pub transport_unknown : arapi_outcome_unknown arapi_bridge_transport ≡ true
unfolding arapi_outcome_unknown
transport_unknown = refl

-- An exception whose outcome is known is none whose outcome is unknown.
pub contradiction :
    (y : BridgeError) (x : Exn)
    → from_bridge y ≡ x
    → (handle false x).outcome_unknown ≡ false
    → arapi_outcome_unknown y ≡ true
    → ⊥
contradiction y x same known unknown =
    let known' = subst (λ x. (handle false x).outcome_unknown ≡ false) (sym same) known in
    cc (sym (handle-unknown y), known', unknown)

module _ (H : Http) where
  open H use {World, resolve_secret, stream, int_of, loads, response_json}

  -- An answer of status 200 whose whole body, within 8 MiB, is the text of the payload.
  pub record IsPayload (response : Response) (payload : JsonValue) : Type 0 where
    pub succeeded : response.status_code ≡ 200
    pub body : List ℕ
    pub complete : whole response.chunks ≡ some body
    pub bounded : length body ≤ max_response_bytes
    pub read : loads body ≡ decoded payload

  pub payload_of-IsPayload :
      (response : Response) (payload : JsonValue)
      → payload_of H response ≡ ok payload
      → IsPayload response payload
  unfolding payload_of
  payload_of-IsPayload response payload h =
      elim (Result-cases (read_bounded_body int_of response)) [
        | inl (x, e) ↦ absurd (ground (arith, e, h))
        | inr (body, e) ↦ elim (Option-cases (error_of response_json response.status_code body)) [
          | inr (x, f) ↦ absurd (ground (arith, e, f, h))
          | inl f ↦
              let (_, complete, bounded) = (read_bounded_body_iff int_of response body).0 e in
              record {
                succeeded = error_of-none response_json response.status_code body f;
                body = body;
                complete = complete;
                bounded = bounded;
                read = elim (Decoded-cases (loads body)) [
                  | inl (p, g) ↦ g ∙ ap decoded (ground (arith, e, f, g, h))
                  | inr (inl g) ↦ absurd (ground (arith, e, f, g, h))
                  | inr (inr g) ↦ absurd (ground (arith, e, f, g, h))
                ];
              }
        ]
      ]

  -- An answer of status 200 whose body `json.loads` finds too deep, so that `_post` raises `RecursionError`.
  pub record IsTooDeep (response : Response) : Type 0 where
    pub succeeded : response.status_code ≡ 200
    pub body : List ℕ
    pub complete : whole response.chunks ≡ some body
    pub unread : loads body ≡ too_deep

  pub payload_of-unknown :
      (response : Response) (x : Exn)
      → payload_of H response ≡ err x
      → response.status_code ≡ 200
      → ((y : BridgeError) × (from_bridge y ≡ x) × (arapi_outcome_unknown y ≡ true))
        ⊎ (IsTooDeep response × (x ≡ other_exception))
  unfolding payload_of arapi_outcome_unknown
  payload_of-unknown response x h success =
      elim (Result-cases (read_bounded_body int_of response)) [
        | inl (y, e) ↦ inl (y, ground (arith, e, h), body_unknown int_of response y e)
        | inr (body, e) ↦
            let f = error_of-200 response_json response.status_code body success in
            elim (Decoded-cases (loads body)) [
              | inl (payload, g) ↦ absurd (ground (arith, e, f, g, h))
              | inr (inl g) ↦ inl (arapi_bridge_protocol, ground (arith, e, f, g, h), refl)
              | inr (inr g) ↦
                  let (_, complete, _) = (read_bounded_body_iff int_of response body).0 e in
                  inr (
                    record { succeeded = success; body = body; complete = complete; unread = g },
                    ground (arith, e, f, g, h),
                  )
            ]
      ]
