-- ===== src/Writes/Bridge.antt =====
-- The bridge as src/helix_mcp/services/writes/service.py uses it: its calls, what the handlers of
-- `_apply` make of its exceptions, and the values that it returns.
use helix_mcp_gateway.Prelude.{
  Bool, true, false, Option, some, List, [], ◌∷◌, String, if◌then◌else◌,
}
use helix_mcp_gateway.Prelude.Equality.{string_eq}
use helix_mcp_gateway.Prelude.Dict.{Dict, lookup, insert}
use helix_mcp_gateway.Prelude.Action.{Result}
use helix_mcp_gateway.Errors.{
  Exn, from_write, from_bridge, BridgeError, arapi_bridge_conflict, arapi_bridge_transport,
  arapi_bridge_protocol, form_write_conflict, write_outcome_unknown,
}
use helix_mcp_gateway.Writes.Models.{Values, JsonScalar}

-- A value of an entry as the bridge returns it: a scalar, or something else.
pub data RawValue : Type 0 where
  scalar : JsonScalar → RawValue
  not_scalar : RawValue

pub record PreparedUpdate : Type 0 where
  pub values : Dict String RawValue
  pub precondition : String

-- The bridge client, as the service uses it. The bridge may not tell the identifier of an entry that it
-- has created.
pub record Bridge : Type 1 where
  pub World : Type 0
  pub prepare_update : String → String → List String → World → Result Exn PreparedUpdate × World
  pub create_entry : String → Values → World → Result Exn (Option String) × World
  pub update_entry : String → String → Values → String → World → Result Exn (Unit {0}) × World

-- `_arapi_outcome_unknown`
unfoldable pub arapi_outcome_unknown : BridgeError → Bool
arapi_outcome_unknown arapi_bridge_transport = true
arapi_outcome_unknown arapi_bridge_protocol = true
arapi_outcome_unknown _ = false

-- The handlers of `_apply`: what an exception tells about the outcome, and what is raised for it.
pub record Handled : Type 0 where
  pub outcome_unknown : Bool
  pub raised : Exn

abbrev handle_bridge : BridgeError → Handled
handle_bridge arapi_bridge_conflict = record {
  outcome_unknown = false;
  raised = from_write form_write_conflict;
}
handle_bridge error =
    let unknown = arapi_outcome_unknown error in
    record {
      outcome_unknown = unknown;
      raised = if unknown then from_write write_outcome_unknown else from_bridge error;
    }

unfoldable pub handle : Bool → Exn → Handled
unfolding arapi_outcome_unknown
handle write_succeeded (from_bridge error) = handle_bridge error
handle write_succeeded error = record {
  outcome_unknown = write_succeeded;
  raised = if write_succeeded then from_write write_outcome_unknown else error;
}

-- `_parse_current_values`
module _ (casefold : String → String) where
  unfoldable pub index_values : Dict String RawValue → Dict String RawValue → Dict String RawValue
  index_values [] d = d
  index_values ((field, value) ∷ values) d = index_values values (insert (casefold field) value d)

  abbrev set_scalar : String → Option RawValue → Values → Values
  set_scalar field (some (scalar value)) current = insert field value current
  set_scalar field _ current = current

  unfoldable pub pick_values : Dict String RawValue → Values → Values → Values
  pick_values by_name [] current = current
  pick_values by_name ((field, value) ∷ requested) current =
      pick_values by_name requested (set_scalar field (lookup (casefold field) by_name) current)

  unfoldable pub parse_current_values : Dict String RawValue → Values → Values
  unfolding index_values pick_values
  parse_current_values raw_values requested = pick_values (index_values raw_values []) requested []
