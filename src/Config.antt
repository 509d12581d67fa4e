-- ===== src/Config.antt =====
-- src/helix_mcp/config/models.py: the environments, the target keys and the policy of a target.
pub mod Allowlists
use helix_mcp_gateway.Prelude.{ℕ, ◌≡◌, refl, ◌↔◌, Bool, true, false, List, String, arith}
use helix_mcp_gateway.Prelude.Equality.{Eq}
use helix_mcp_gateway.Prelude.Dict.{Dict}

pub data Environment : Type 0 where
  dev qa prod : Environment

-- The only backend.
pub data BackendKind : Type 0 where
  arapi : BackendKind

pub data AccessMode : Type 0 where
  read_only read_write : AccessMode

abbrev pub is_read_write : AccessMode → Bool
is_read_write read_only = false
is_read_write read_write = true

-- `instance` is the constant "helix", so that the environment is the key.
pub record TargetKey : Type 0 where
  pub environment : Environment

unfoldable pub environment_beq : Environment → Environment → Bool
environment_beq dev dev = true
environment_beq qa qa = true
environment_beq prod prod = true
environment_beq _ _ = false

pub environment_beq_iff : (a b : Environment) → (environment_beq a b ≡ true) ↔ (a ≡ b)
unfolding environment_beq
environment_beq_iff dev dev = (λ _. refl, λ _. refl)
environment_beq_iff qa qa = (λ _. refl, λ _. refl)
environment_beq_iff prod prod = (λ _. refl, λ _. refl)
environment_beq_iff _ _ = (λ h. cc, λ h. cc)

instance abbrev pub environment_eq : Eq Environment
environment_eq = record { equal = environment_beq; reflects = environment_beq_iff }

unfoldable pub target_key_beq : TargetKey → TargetKey → Bool
target_key_beq a b = environment_beq a.environment b.environment

pub target_key_beq_iff : (a b : TargetKey) → (target_key_beq a b ≡ true) ↔ (a ≡ b)
unfolding target_key_beq
target_key_beq_iff a b = ground (arith, environment_beq_iff a.environment b.environment)

instance abbrev pub target_key_eq : Eq TargetKey
target_key_eq = record { equal = target_key_beq; reflects = target_key_beq_iff }

-- `TargetPolicyConfig`, without its name.
pub record TargetPolicyConfig : Type 0 where
  pub allow_all_forms : Bool
  pub allow_all_fields : Bool
  pub allowed_forms : List String
  pub allowed_fields_by_form : Dict String (List String)
  pub allow_all_writable_forms : Bool
  pub writable_forms : List String
  pub allow_all_creatable_fields : Bool
  pub allow_all_creatable_fields_for_forms : List String
  pub creatable_fields_by_form : Dict String (List String)
  pub allow_all_updatable_fields : Bool
  pub allow_all_updatable_fields_for_forms : List String
  pub updatable_fields_by_form : Dict String (List String)
  pub allow_all_sql_objects : Bool
  pub allowed_sql_objects : List String
  pub allow_form_reads : Bool
  pub allow_sql : Bool
  pub access_mode : AccessMode
  pub require_human_approval : Bool
  pub require_write_reason : Bool
  pub max_rows : ℕ
  pub query_timeout_seconds : ℕ
  pub rate_limit_per_minute : ℕ
  pub write_rate_limit_per_minute : ℕ
  pub sensitive_fields : List String
  pub sensitive_field_markers : List String
