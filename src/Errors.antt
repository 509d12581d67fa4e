-- ===== src/Errors.antt =====
-- The exceptions that the modelled code raises or handles, one data type for each base class, from
-- services/writes/errors.py, services/database/errors.py, services/forms/errors.py,
-- clients/arapi/errors.py and targeting/errors.py of src/helix_mcp/.

-- `FormWriteError` and its subclasses.
pub data WriteError : Type 0 where
  form_write form_write_disabled form_write_form_not_allowed : WriteError
  form_write_field_not_allowed form_write_reason_required : WriteError
  form_write_precondition_unavailable form_write_conflict form_write_response : WriteError
  write_plan_capacity write_plan_not_found write_plan_expired write_plan_mismatch : WriteError
  write_plan_state write_plan_persistence write_outcome_unknown form_write_rate_limit : WriteError

-- `DatabaseServiceError` and its subclasses.
pub data DatabaseError : Type 0 where
  database_service database_read_disabled database_query_invalid : DatabaseError
  database_query_alias_required database_query_alias_invalid : DatabaseError
  database_query_wildcard_not_allowed database_object_not_allowed : DatabaseError
  database_object_not_found database_metadata_response database_query_limit : DatabaseError
  database_rate_limit sql_query_plan_capacity sql_query_plan_not_found : DatabaseError
  sql_query_plan_expired sql_query_plan_mismatch sql_query_plan_state : DatabaseError
  sql_query_plan_persistence : DatabaseError

-- `FormServiceError` and its subclasses.
pub data FormError : Type 0 where
  form_service form_read_disabled form_not_allowed form_not_found : FormError
  form_field_not_allowed form_query_limit form_qualification_invalid : FormError
  form_rate_limit form_response : FormError

-- `ArapiBridgeError` and its subclasses.
pub data BridgeError : Type 0 where
  arapi_bridge arapi_bridge_configuration arapi_bridge_transport : BridgeError
  arapi_bridge_protocol arapi_form_not_found arapi_field_ambiguous : BridgeError
  arapi_field_not_queryable arapi_bridge_conflict arapi_bridge_closed : BridgeError
  arapi_admin_required : BridgeError

-- `TargetingError` and its subclasses.
pub data TargetError : Type 0 where
  targeting target_selection_required invalid_environment invalid_backend : TargetError
  target_not_found target_disabled target_credential_not_configured : TargetError
  backend_unavailable : TargetError

-- What a call may raise: an exception of one of these classes, `RateLimitPersistenceError`, the
-- `AssertionError` of a failed `assert`, or another `Exception`.
pub data Exn : Type 0 where
  from_write : WriteError → Exn
  from_database : DatabaseError → Exn
  from_form : FormError → Exn
  from_bridge : BridgeError → Exn
  from_target : TargetError → Exn
  rate_limit_persistence assertion_failed other_exception : Exn
