-- ===== src/Client/Post/Sent.antt =====
-- What `_post` of src/helix_mcp/clients/arapi/client.py has sent where it returns, and where it raises.
use helix_mcp_gateway.Prelude.{
  ℕ, ◌≡◌, refl, sym, ap, ◌∙◌, true, false, Option, none, some, String, ◌≢◌, ◌⊎◌, inl, inr, eqb,
  Bool-cases, arith,
}
use helix_mcp_gateway.Prelude.Equality.{string_eq}
use helix_mcp_gateway.Prelude.Dict.{Dict}
use helix_mcp_gateway.Prelude.Action.{Result, ok, err, ◌>>=◌}
use helix_mcp_gateway.Errors.{
  Exn, from_bridge, arapi_bridge_transport, arapi_bridge_closed, other_exception,
}
use helix_mcp_gateway.Writes.Bridge.{handle}
use helix_mcp_gateway.Client.Json.{JsonValue}
use helix_mcp_gateway.Client.Post.{
  ArapiBackendConfig, Http, State, Request, Response, form_of, answered, post,
}
use helix_mcp_gateway.Client.Post.Payload.{
  IsPayload, IsTooDeep, payload_of-unknown, transport_unknown, contradiction,
}

module _ (H : Http) where
  open H use {World, resolve_secret, stream, int_of, loads, response_json}

  module _ (config : ArapiBackendConfig) (bridge_token : Option String) (path : String)
      (operation_data : Dict String String) (timeout_seconds : Option ℕ) (s : State H) where
    abbrev Posting : Type 0
    Posting = Result Exn JsonValue × State H

    abbrev posted : Posting
    posted = post H config bridge_token path operation_data timeout_seconds s

    abbrev request_of : Dict String String → Request
    request_of form = record {
      path = path;
      sent = form;
      bridge_token = bridge_token;
      timeout_seconds = timeout_seconds;
    }

    post_closed : s.closed ≡ true → posted ≡ (err (from_bridge arapi_bridge_closed), s)
    unfolding post ◌>>=◌
    post_closed e = rw e refl

    post_unresolved :
        (x : Exn) (world : World)
        → s.closed ≡ false
        → resolve_secret s.world ≡ (err x, world)
        → posted ≡ (err x, record s { world = world })
    unfolding post ◌>>=◌
    post_unresolved x world e f = rw (e, f) refl

    post_unformed :
        (secret : Dict String String) (world : World)
        → s.closed ≡ false
        → resolve_secret s.world ≡ (ok secret, world)
        → form_of config secret operation_data ≡ none
        → posted ≡ (err other_exception, record s { world = world })
    unfolding post ◌>>=◌
    post_unformed secret world e f g = rw (e, f, g) refl

    post_sent :
        (secret : Dict String String) (world : World) (form : Dict String String)
        (r : Option Response) (world' : World)
        → s.closed ≡ false
        → resolve_secret s.world ≡ (ok secret, world)
        → form_of config secret operation_data ≡ some form
        → stream (request_of form) world ≡ (r, world')
        → posted ≡ (answered H r, record s { world = world' })
    unfolding post ◌>>=◌
    post_sent secret world form r world' e f g k = rw (e, f, g, k) refl

    -- A call that returns a payload: the client is open, the form was sent with the secret that was
    -- resolved, and the payload is the whole of an answer of status 200.
    pub record IsPosted (payload : JsonValue) : Type 0 where
      pub open_client : s.closed ≡ false
      pub secret : Dict String String
      pub resolved : (resolve_secret s.world).0 ≡ ok secret
      pub form : Dict String String
      pub formed : form_of config secret operation_data ≡ some form
      pub response : Response
      pub sent : (stream (request_of form) (resolve_secret s.world).1).0 ≡ some response
      pub answer : IsPayload H response payload

    -- Why a call had no effect behind the bridge: the client was closed, the secret was not resolved or had
    -- no user name or password, and nothing was sent; or the bridge answered with another status than 200.
    pub data IsRefused : Type 0 where
      was_closed : s.closed ≡ true → posted.1 ≡ s → IsRefused
      not_resolved :
          (x : Exn)
          → (resolve_secret s.world).0 ≡ err x
          → posted.1.world ≡ (resolve_secret s.world).1
          → IsRefused
      not_formed :
          (secret : Dict String String)
          → (resolve_secret s.world).0 ≡ ok secret
          → form_of config secret operation_data ≡ none
          → posted.1.world ≡ (resolve_secret s.world).1
          → IsRefused
      was_rejected :
          (secret form : Dict String String) (response : Response)
          → (resolve_secret s.world).0 ≡ ok secret
          → form_of config secret operation_data ≡ some form
          → (stream (request_of form) (resolve_secret s.world).1).0 ≡ some response
          → response.status_code ≢ 200
          → IsRefused

    -- The request was sent, and `json.loads` finds the body of the answer, which has status 200, too deep.
    pub record IsUnread (x : Exn) : Type 0 where
      pub secret : Dict String String
      pub resolved : (resolve_secret s.world).0 ≡ ok secret
      pub form : Dict String String
      pub formed : form_of config secret operation_data ≡ some form
      pub response : Response
      pub sent : (stream (request_of form) (resolve_secret s.world).1).0 ≡ some response
      pub answer : IsTooDeep H response
      pub raised : x ≡ other_exception

    answered-known :
        (r : Option Response) (x : Exn)
        → answered H r ≡ err x
        → (handle false x).outcome_unknown ≡ false
        → (response : Response) × (r ≡ some response)
          × ((response.status_code ≢ 200) ⊎ (IsTooDeep H response × (x ≡ other_exception)))
    answered-known none x h known =
        absurd (contradiction arapi_bridge_transport x (cc h) known (transport_unknown))
    answered-known (some response) x h known = elim (Bool-cases (eqb response.status_code 200)) [
      | inr e ↦ (response, refl, inl (λ success. ground (arith, e, success)))
      | inl e ↦
          let success : response.status_code ≡ 200 = ground (arith, e) in
          elim (payload_of-unknown H response x h success) [
            | inl (y, same, unknown) ↦ absurd (contradiction y x same known unknown)
            | inr unread ↦ (response, refl, inr unread)
          ]
    ]

    -- A call that raises an exception whose outcome the service of writes takes as known has sent nothing,
    -- since the client was closed or the secret could not be used, or the bridge answered it with another
    -- status than 200, or with status 200 and a body that is nested too deep to read.
    pub post-IsRefused :
        (x : Exn)
        → posted.0 ≡ err x
        → (handle false x).outcome_unknown ≡ false
        → IsRefused ⊎ IsUnread x
    post-IsRefused x h known = elim (Bool-cases s.closed) [
      | inl e ↦ inl (was_closed e (ap (λ r. r.1) (post_closed e)))
      | inr e ↦ resolved_cases x h known e (resolve_secret s.world) refl
    ]
      where
        formed_cases :
            (x : Exn)
            → posted.0 ≡ err x
            → (handle false x).outcome_unknown ≡ false
            → s.closed ≡ false
            → (secret : Dict String String) (world : World)
            → resolve_secret s.world ≡ (ok secret, world)
            → (form : Option (Dict String String)) → form_of config secret operation_data ≡ form
            → IsRefused ⊎ IsUnread x
        formed_cases x h known e secret world f none g = inl (
            not_formed secret (ap (λ r. r.0) f) g
              (ap (λ r. r.1.world) (post_unformed secret world e f g) ∙ sym (ap (λ r. r.1) f)))
        formed_cases x h known e secret world f (some form) g =
            let (r, world') = stream (request_of form) world in
            let raised : answered H r ≡ err x =
              sym (ap (λ r. r.0) (post_sent secret world form r world' e f g refl)) ∙ h in
            let (response, answer, why) = answered-known r x raised known in
            let sent = ap (λ w. (stream (request_of form) w).0) (ap (λ r. r.1) f) ∙ answer in
            elim why [
              | inl refused ↦
                  inl (was_rejected secret form response (ap (λ r. r.0) f) g sent refused)
              | inr (deep, same) ↦ inr (record {
                secret = secret;
                resolved = ap (λ r. r.0) f;
                form = form;
                formed = g;
                response = response;
                sent = sent;
                answer = deep;
                raised = same;
              })
            ]

        resolved_cases :
            (x : Exn)
            → posted.0 ≡ err x
            → (handle false x).outcome_unknown ≡ false
            → s.closed ≡ false
            → (r : Result Exn (Dict String String) × World) → resolve_secret s.world ≡ r
            → IsRefused ⊎ IsUnread x
        resolved_cases x h known e (err y, world) f = inl (
            not_resolved y (ap (λ r. r.0) f)
              (ap (λ r. r.1.world) (post_unresolved y world e f) ∙ sym (ap (λ r. r.1) f)))
        resolved_cases x h known e (ok secret, world) f =
            formed_cases x h known e secret world f (form_of config secret operation_data) refl
