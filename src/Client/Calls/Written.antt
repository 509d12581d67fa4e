-- ===== src/Client/Calls/Written.antt =====
-- The calls of src/helix_mcp/clients/arapi/client.py that write, where they raise an exception that
-- src/helix_mcp/services/writes/service.py takes for a write that was not made.
use helix_mcp_gateway.Prelude.{
  ℕ, ◌≡◌, refl, subst, ◌⊎◌, inl, inr, true, false, not, Option, none, [], ◌∷◌, String,
}
use helix_mcp_gateway.Prelude.Equality.{◌==◌, string_eq}
use helix_mcp_gateway.Prelude.Dict.{Dict}
use helix_mcp_gateway.Prelude.Action.{
  err, ◌>>=◌, or_raise, raise_if, bind_raised, or_raise_raised, or_raise_state, raise_if_raised,
}
use helix_mcp_gateway.Errors.{Exn, from_bridge, other_exception, arapi_bridge_protocol}
use helix_mcp_gateway.Writes.Models.{Values}
use helix_mcp_gateway.Writes.Bridge.{arapi_outcome_unknown, handle}
use helix_mcp_gateway.Client.Json.{JsonValue}
use helix_mcp_gateway.Client.Entries.{parse_write_result, parse_create_result}
use helix_mcp_gateway.Client.Encode.{encode_write_values}
use helix_mcp_gateway.Client.Post.{ArapiBackendConfig, Http, State, ClientAction, post, update_with}
use helix_mcp_gateway.Client.Post.Payload.{contradiction}
use helix_mcp_gateway.Client.Post.Sent.{IsRefused, IsUnread, post-IsRefused}
use helix_mcp_gateway.Client.Calls.{ask, update_entry, create_entry}

protocol_unknown : arapi_outcome_unknown arapi_bridge_protocol ≡ true
unfolding arapi_outcome_unknown
protocol_unknown = refl

-- The form of an update.
abbrev pub update_form : String → String → String → Dict String String → Dict String String
update_form form entry_id precondition encoded =
    update_with (("form", form) ∷ ("entry_id", entry_id) ∷ ("precondition", precondition) ∷ [])
      encoded

module _ (casefold : String → String) (H : Http) (config : ArapiBackendConfig)
    (bridge_token : Option String) where
  ask-IsRefused :
      {A : Type 0} (path : String) (sent : Dict String String) (timeout_seconds : Option ℕ)
      (parse : JsonValue → Option A) (s : State H) (x : Exn)
      → (ask casefold H config bridge_token path sent timeout_seconds parse s).0 ≡ err x
      → (handle false x).outcome_unknown ≡ false
      → IsRefused H config bridge_token path sent timeout_seconds s
        ⊎ IsUnread H config bridge_token path sent timeout_seconds s x
  unfolding ask
  ask-IsRefused path sent timeout_seconds parse s x h known =
      elim (bind_raised (λ payload. or_raise (parse payload) (from_bridge arapi_bridge_protocol))
        (post H config bridge_token path sent timeout_seconds) s h) [
          | inl raised ↦
              post-IsRefused H config bridge_token path sent timeout_seconds s x raised known
          | inr (payload, s', _, refused) ↦
              let (_, protocol) =
                or_raise_raised (parse payload) (from_bridge arapi_bridge_protocol) s' refused in
              absurd (contradiction arapi_bridge_protocol x protocol known protocol_unknown)
        ]

  -- Where `update_entry` raises an exception whose outcome the service of writes takes as known, the values
  -- could not be encoded, or nothing was sent, since the client was closed or the secret could not be used,
  -- or the bridge answered to the update with another status than 200, or it answered with status 200 and
  -- a body that `json.loads` finds nested too deep, whose `RecursionError` the client does not handle.
  pub update_entry-IsRefused :
      (form entry_id : String) (values : Values) (precondition : String) (s : State H) (x : Exn)
      → (update_entry casefold H config bridge_token form entry_id values precondition s).0 ≡ err x
      → (handle false x).outcome_unknown ≡ false
      → (encode_write_values casefold values ≡ none)
        ⊎ ((encoded : Dict String String) × (IsRefused H config bridge_token "/v1/entries/update"
                (update_form form entry_id precondition encoded)
                none
                s
              ⊎ IsUnread H config bridge_token "/v1/entries/update"
                  (update_form form entry_id precondition encoded)
                  none
                  s
                  x))
  unfolding update_entry
  update_entry-IsRefused form entry_id values precondition s x h known =
      let path : String = "/v1/entries/update" in
      let question : Dict String String → ClientAction H String = λ encoded.
        ask casefold H config bridge_token path (update_form form entry_id precondition encoded)
          none parse_write_result in
      let check : String → ClientAction H (Unit {0}) = λ returned_id.
        raise_if (not (returned_id == entry_id)) (from_bridge arapi_bridge_protocol) in
      elim (bind_raised (λ encoded. question encoded >>= check)
        (or_raise (encode_write_values casefold values) other_exception) s h) [
          | inl raised ↦
              inl (or_raise_raised (encode_write_values casefold values) other_exception s raised).0
          | inr (encoded, s', e, failed) ↦
              let same : s' ≡ s =
                or_raise_state (encode_write_values casefold values) other_exception s encoded s'
                  e in
              elim (bind_raised check (question encoded) s' failed) [
                | inl asked ↦ inr (
                  encoded,
                  subst
                      (λ t.
                        IsRefused H config bridge_token path
                          (update_form form entry_id precondition encoded) none t
                        ⊎ IsUnread H config bridge_token path
                            (update_form form entry_id precondition encoded) none t x)
                      same
                      (ask-IsRefused path (update_form form entry_id precondition encoded) none
                        parse_write_result s' x asked known),
                )
                | inr (returned_id, t, _, mismatch) ↦ absurd (
                    contradiction arapi_bridge_protocol x
                      (raise_if_raised (not (returned_id == entry_id))
                        (from_bridge arapi_bridge_protocol) t mismatch)
                      known protocol_unknown)
              ]
        ]

  -- Where `create_entry` raises an exception whose outcome the service of writes takes as known, the values
  -- could not be encoded, or nothing was sent, since the client was closed or the secret could not be used,
  -- or the bridge answered to the creation with another status than 200, or it answered with status 200
  -- and a body that `json.loads` finds nested too deep, whose `RecursionError` the client does not handle.
  pub create_entry-IsRefused :
      (form : String) (values : Values) (s : State H) (x : Exn)
      → (create_entry casefold H config bridge_token form values s).0 ≡ err x
      → (handle false x).outcome_unknown ≡ false
      → (encode_write_values casefold values ≡ none)
        ⊎ ((encoded : Dict String String) × (IsRefused H config bridge_token "/v1/entries/create"
                (update_with (("form", form) ∷ []) encoded)
                none
                s
              ⊎ IsUnread H config bridge_token "/v1/entries/create"
                  (update_with (("form", form) ∷ []) encoded)
                  none
                  s
                  x))
  unfolding create_entry
  create_entry-IsRefused form values s x h known =
      let path : String = "/v1/entries/create" in
      elim (bind_raised
        (λ encoded.
          ask casefold H config bridge_token path (update_with (("form", form) ∷ []) encoded) none
            parse_create_result)
        (or_raise (encode_write_values casefold values) other_exception) s h) [
          | inl raised ↦
              inl (or_raise_raised (encode_write_values casefold values) other_exception s raised).0
          | inr (encoded, s', e, asked) ↦
              let same =
                or_raise_state (encode_write_values casefold values) other_exception s encoded s'
                  e in
              inr (
                encoded,
                subst
                    (λ t.
                      IsRefused H config bridge_token path
                        (update_with (("form", form) ∷ []) encoded) none t
                      ⊎ IsUnread H config bridge_token path
                          (update_with (("form", form) ∷ []) encoded) none t x)
                    same
                    (ask-IsRefused path (update_with (("form", form) ∷ []) encoded) none
                      parse_create_result s' x asked known),
              )
        ]
