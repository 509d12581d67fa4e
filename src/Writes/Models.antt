-- ===== src/Writes/Models.antt =====
-- src/helix_mcp/services/writes/models.py: values, operations, plan statuses and results.
use helix_mcp_gateway.Prelude.{ℕ, ◌≡◌, refl, ◌↔◌, Bool, true, false, Option, String}
use helix_mcp_gateway.Prelude.Equality.{Eq}
use helix_mcp_gateway.Prelude.Dict.{Dict}
use helix_mcp_gateway.Config.{Environment}

-- A Python float: a finite one by its text, or one that `math.isfinite` rejects.
pub data Float : Type 0 where
  finite : String → Float
  infinite not_a_number : Float

-- A Python int: its sign and its magnitude.
pub record JsonInt : Type 0 where
  pub negative : Bool
  pub magnitude : ℕ

-- `JsonScalar`
pub data JsonScalar : Type 0 where
  str : String → JsonScalar
  int : JsonInt → JsonScalar
  float : Float → JsonScalar
  bool : Bool → JsonScalar

abbrev pub Values : Type 0
Values = Dict String JsonScalar

pub data WriteOperation : Type 0 where
  create update : WriteOperation

unfoldable pub operation_beq : WriteOperation → WriteOperation → Bool
operation_beq create create = true
operation_beq update update = true
operation_beq _ _ = false

pub operation_beq_iff : (a b : WriteOperation) → (operation_beq a b ≡ true) ↔ (a ≡ b)
unfolding operation_beq
operation_beq_iff create create = (λ _. refl, λ _. refl)
operation_beq_iff update update = (λ _. refl, λ _. refl)
operation_beq_iff _ _ = (λ h. cc, λ h. cc)

instance abbrev pub operation_eq : Eq WriteOperation
operation_eq = record { equal = operation_beq; reflects = operation_beq_iff }

pub data WritePlanStatus : Type 0 where
  pending applying applied cancelled failed outcome_unknown : WritePlanStatus

-- A plan as it is shown for review; `expires_at` is a point in time here.
pub record WritePlanResult : Type 0 where
  pub plan_id : String
  pub plan_digest : String
  pub operation : WriteOperation
  pub environment : Environment
  pub form : String
  pub entry_id : Option String
  pub current_values : Option Values
  pub proposed_values : Values
  pub reason : String
  pub expires_at : ℕ
  pub status : WritePlanStatus

pub record ApplyWriteResult : Type 0 where
  pub plan_id : String
  pub operation : WriteOperation
  pub environment : Environment
  pub form : String
  pub status : WritePlanStatus
  pub entry_id : Option String
  pub reused_result : Bool
