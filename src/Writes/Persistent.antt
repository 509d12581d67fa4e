-- ===== src/Writes/Persistent.antt =====
-- src/helix_mcp/services/writes/persistent_store.py: `PersistentWritePlanStore`, whose plans are rows
-- of a table, by their primary key. Each method is one transaction. Whether SQLite fails in it, the
-- readings of the clock, and the random identifiers and nonces are arguments.
pub mod Table
pub mod Sim
pub mod Refines
pub mod Creates
pub mod Recovery
use helix_mcp_gateway.Prelude.{
  ℕ, ◌+◌, Bool, true, false, not, Option, none, some, List, [], ◌∷◌, String, leb, is_some, keep_if,
  if◌then◌else◌,
}
use helix_mcp_gateway.Prelude.Equality.{◌==◌, string_eq}
use helix_mcp_gateway.Prelude.Dict.{
  Dict, lookup, insert, erase, erase_all, keys_where, count_values,
}
use helix_mcp_gateway.Prelude.Action.{
  Result, ok, err, Action, pure, raise, raise_if, or_raise, lift, modify, gets, ◌>>=◌, ◌>>◌,
}
use helix_mcp_gateway.Errors.{
  Exn, from_write, write_plan_capacity, write_plan_not_found, write_plan_expired,
  write_plan_mismatch, write_plan_state, write_plan_persistence, write_outcome_unknown,
}
use helix_mcp_gateway.Config.{TargetKey, target_key_eq}
use helix_mcp_gateway.Writes.Models.{
  WriteOperation, WritePlanStatus, pending, applying, applied, cancelled, failed, outcome_unknown,
  WritePlanResult, ApplyWriteResult,
}
use helix_mcp_gateway.Writes.Store.{
  StoredWritePlan, AcquiredWritePlan, acquired_plan, reused, PlanContent, PlanRequest, new_plan,
  public, clear_payload, mismatched, is_applying, is_pending,
}
use helix_mcp_gateway.Writes.Rows.{
  Cipher, Row, row_of, fits, decode, plan_payload, status_text, aad,
}

module _ (C : Cipher) where
  open C use {encrypt}

  abbrev pub Table : Type 0
  Table = Dict String (Row C)

  abbrev pub TableAction : Type 0 → Type 0
  TableAction = Action Exn Table

  -- What `_execute` keeps of what the operation did to the table.
  abbrev settle : {A : Type 0} → Table → Result Exn A × Table → Result Exn A × Table
  settle table (ok a, table') = (ok a, table')
  settle table (err (from_write write_plan_expired), table') =
      (err (from_write write_plan_expired), table')
  settle table (err x, table') = (err x, table)

  -- `_execute`: commit after the operation and after `WritePlanExpiredError`, roll back after another
  -- error. SQLite fails before the commit, or not at all.
  unfoldable pub execute : {A : Type 0} → Bool → TableAction A → TableAction A
  execute true operation table = (err (from_write write_plan_persistence), table)
  execute false operation table = settle table (operation table)

  -- `_required` with `check_expiry=False`
  unfoldable pub required : String → TableAction StoredWritePlan
  required plan_id = do
    found ← gets (λ table. lookup plan_id table)
    row ← or_raise found (from_write write_plan_not_found)
    lift (decode C row)

  abbrev pub drop_if_expired : String → ℕ → StoredWritePlan → TableAction StoredWritePlan
  drop_if_expired plan_id now plan table =
      if leb plan.expires_at now
      then (err (from_write write_plan_expired), erase plan_id table)
      else (ok plan, table)

  -- `_required`
  unfoldable pub required_unexpired : String → ℕ → TableAction StoredWritePlan
  required_unexpired plan_id now = required plan_id >>= drop_if_expired plan_id now

  -- `_purge_expired`; `DELETE` takes the rows that expired, each by its primary key.
  unfoldable pub purge_expired : ℕ → Table → Table
  purge_expired now table =
      erase_all (keys_where (λ (row : Row C). leb row.expires_at now) table) table

  -- The columns that `UPDATE` sets.
  abbrev pub set_columns : String → StoredWritePlan → Row C → Row C
  set_columns nonce plan row = record row {
    status = status_text plan.status;
    nonce = nonce;
    payload = encrypt nonce (plan_payload plan) (aad C plan);
  }

  -- `_update`, which encrypts first
  unfoldable pub save : String → StoredWritePlan → TableAction (Unit {0})
  save nonce plan = do
    raise_if (not (fits C plan)) (from_write write_plan_persistence)
    found ← gets (λ table. lookup plan.plan_id table)
    row ← or_raise found (from_write write_plan_not_found)
    modify (insert plan.plan_id (set_columns nonce plan row))

  -- `SELECT COUNT(*)` of the rows that are pending or applying.
  abbrev pub row_is_open : Row C → Bool
  row_is_open row = if row.status == "pending" then true else row.status == "applying"

  -- `INSERT`, which fails on a key that is there.
  unfoldable pub add_row : String → Row C → TableAction (Unit {0})
  add_row plan_id row = do
    found ← gets (λ table. lookup plan_id table)
    raise_if (is_some found) (from_write write_plan_persistence)
    modify (insert plan_id row)

  unfoldable pub create :
      Bool
      → (PlanContent → String)
      → PlanRequest
      → ℕ
      → ℕ
      → String
      → String
      → ℕ
      → ℕ
      → TableAction WritePlanResult
  create fails sha256_json r ttl max_pending plan_id nonce purged_at created_at = execute fails do
    modify (purge_expired purged_at)
    open_plans ← gets (λ table. count_values row_is_open table)
    raise_if (leb max_pending open_plans) (from_write write_plan_capacity)
    let plan = new_plan sha256_json r plan_id (created_at + ttl)
    raise_if (not (fits C plan)) (from_write write_plan_persistence)
    add_row plan_id (row_of C nonce plan)
    pure (public plan)

  unfoldable pub reuse : Option ApplyWriteResult → TableAction AcquiredWritePlan
  reuse none = raise (from_write write_plan_persistence)
  reuse (some result) = pure (reused (record result { reused_result = true }))

  unfoldable pub acquire_by_status :
      String → StoredWritePlan → WritePlanStatus → TableAction AcquiredWritePlan
  acquire_by_status nonce plan applied = reuse plan.result
  acquire_by_status nonce plan outcome_unknown = raise (from_write write_outcome_unknown)
  acquire_by_status nonce plan pending = do
    save nonce (record plan { status = applying })
    pure (acquired_plan (record plan { status = applying }))
  acquire_by_status nonce plan _ = raise (from_write write_plan_state)

  unfoldable pub acquire :
      Bool
      → String
      → String
      → WriteOperation
      → TargetKey
      → ℕ
      → String
      → TableAction AcquiredWritePlan
  acquire fails plan_id plan_digest operation target now nonce = execute fails do
    plan ← required_unexpired plan_id now
    raise_if (mismatched plan operation target plan_digest) (from_write write_plan_mismatch)
    acquire_by_status nonce plan plan.status

  unfoldable pub complete : Bool → String → ApplyWriteResult → String → TableAction ApplyWriteResult
  complete fails plan_id result nonce = execute fails do
    plan ← required plan_id
    raise_if (not (is_applying plan.status)) (from_write write_plan_state)
    save nonce (clear_payload (record plan { status = applied; result = some result }))
    pure result

  unfoldable pub fail : Bool → String → Bool → String → TableAction (Unit {0})
  fail fails plan_id unknown nonce = execute fails do
    plan ← required plan_id
    save nonce
        (clear_payload (record plan { status = if unknown then outcome_unknown else failed }))

  unfoldable pub get : Bool → String → TargetKey → ℕ → TableAction WritePlanResult
  get fails plan_id target now = execute fails do
    plan ← required_unexpired plan_id now
    raise_if (not (plan.target == target)) (from_write write_plan_mismatch)
    pure (public plan)

  unfoldable pub cancel : Bool → String → TargetKey → ℕ → String → TableAction WritePlanResult
  cancel fails plan_id target now nonce = execute fails do
    plan ← required_unexpired plan_id now
    raise_if (not (plan.target == target)) (from_write write_plan_mismatch)
    raise_if (not (is_pending plan.status)) (from_write write_plan_state)
    let plan' = clear_payload (record plan { status = cancelled })
    save nonce plan'
    pure (public plan')

  -- The loop of `_initialize` over the rows that were applying; each plan gets a nonce.
  unfoldable pub recover_rows : List (Row C) → (String → String) → TableAction (Unit {0})
  recover_rows [] nonce_for = pure tt
  recover_rows (row ∷ rows) nonce_for = do
    plan ← lift (decode C row)
    save (nonce_for plan.plan_id) (clear_payload (record plan { status = outcome_unknown }))
    recover_rows rows nonce_for

  abbrev pub applying_rows : Table → List (Row C)
  applying_rows [] = []
  applying_rows ((key, row) ∷ table) =
      let rest = applying_rows table in if row.status == "applying" then row ∷ rest else rest

  -- `_initialize` of a database whose schema is there.
  unfoldable pub initialize : Bool → Bool → ℕ → (String → String) → TableAction (Unit {0})
  initialize fails recover_interrupted now nonce_for = execute fails do
    modify (purge_expired now)
    rows ← gets applying_rows
    if recover_interrupted then recover_rows rows nonce_for else pure tt
