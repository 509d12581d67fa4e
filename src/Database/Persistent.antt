-- ===== src/Database/Persistent.antt =====
-- src/helix_mcp/services/database/persistent_plans.py: `PersistentSqlQueryPlanStore`, whose plans are
-- rows of a table, by their primary key. Each method is one transaction. Whether SQLite fails in it, the
-- readings of the clock, and the random identifiers and nonces are arguments.
pub mod Steps
pub mod Refines
pub mod Recovery
use helix_mcp_gateway.Prelude.{
  ℕ, ◌+◌, Bool, true, false, not, Option, none, some, List, [], ◌∷◌, String, leb, is_some,
  if◌then◌else◌,
}
use helix_mcp_gateway.Prelude.Equality.{◌==◌, string_eq}
use helix_mcp_gateway.Prelude.Dict.{
  Dict, lookup, insert, erase, erase_all, keys_where, count_values,
}
use helix_mcp_gateway.Prelude.Action.{
  Result, ok, err, Action, pure, raise_if, or_raise, lift, modify, gets, ◌>>=◌, ◌>>◌,
}
use helix_mcp_gateway.Errors.{
  Exn, from_database, sql_query_plan_capacity, sql_query_plan_not_found, sql_query_plan_expired,
  sql_query_plan_mismatch, sql_query_plan_state, sql_query_plan_persistence,
}
use helix_mcp_gateway.Config.{TargetKey, target_key_eq}
use helix_mcp_gateway.Database.Plans.{
  SqlQueryPlanStatus, pending, executing, executed, cancelled, failed, DatabaseQuery,
  StoredSqlQueryPlan, SqlQueryPlanResult, QueryContent, digest, public, is_pending, is_executing,
  mismatched,
}
use helix_mcp_gateway.Database.Rows.{
  QueryCipher, QueryRow, query_row_of, query_fits, query_payload, query_aad, decode_query,
  status_text,
}

module _ (C : QueryCipher) where
  open C use {encrypt}

  abbrev pub QueryTable : Type 0
  QueryTable = Dict String (QueryRow C)

  abbrev pub TableAction : Type 0 → Type 0
  TableAction = Action Exn QueryTable

  -- What `_execute` keeps of what the operation did to the table.
  abbrev pub settle :
      {A : Type 0} → QueryTable → Result Exn A × QueryTable → Result Exn A × QueryTable
  settle table (ok a, table') = (ok a, table')
  settle table (err (from_database sql_query_plan_expired), table') =
      (err (from_database sql_query_plan_expired), table')
  settle table (err x, table') = (err x, table)

  -- `_execute`: commit after the operation and after `SqlQueryPlanExpiredError`, roll back after another
  -- error. SQLite fails before the commit, or not at all.
  unfoldable pub execute : {A : Type 0} → Bool → TableAction A → TableAction A
  execute true operation table = (err (from_database sql_query_plan_persistence), table)
  execute false operation table = settle table (operation table)

  -- `_required` with `check_expiry=False`
  unfoldable pub required : String → TableAction StoredSqlQueryPlan
  required plan_id = do
    found ← gets (λ table. lookup plan_id table)
    row ← or_raise found (from_database sql_query_plan_not_found)
    lift (decode_query C row)

  abbrev pub drop_if_expired : String → ℕ → StoredSqlQueryPlan → TableAction StoredSqlQueryPlan
  drop_if_expired plan_id now plan table =
      if leb plan.expires_at now
      then (err (from_database sql_query_plan_expired), erase plan_id table)
      else (ok plan, table)

  -- `_required`
  unfoldable pub required_unexpired : String → ℕ → TableAction StoredSqlQueryPlan
  required_unexpired plan_id now = required plan_id >>= drop_if_expired plan_id now

  -- `_purge_expired`; `DELETE` takes the rows that expired, each by its primary key.
  unfoldable pub purge_expired : ℕ → QueryTable → QueryTable
  purge_expired now table =
      erase_all (keys_where (λ (row : QueryRow C). leb row.expires_at now) table) table

  -- The columns that `UPDATE` sets.
  abbrev pub set_columns : String → StoredSqlQueryPlan → QueryRow C → QueryRow C
  set_columns nonce plan row = record row {
    status = status_text plan.status;
    nonce = nonce;
    payload = encrypt nonce (query_payload C plan) (query_aad C plan);
  }

  -- `_update`, which encrypts first
  unfoldable pub save : String → StoredSqlQueryPlan → TableAction (Unit {0})
  save nonce plan = do
    raise_if (not (query_fits C plan)) (from_database sql_query_plan_persistence)
    found ← gets (λ table. lookup plan.plan_id table)
    row ← or_raise found (from_database sql_query_plan_not_found)
    modify (insert plan.plan_id (set_columns nonce plan row))

  -- `SELECT COUNT(*)` of the rows that are pending or executing.
  abbrev pub row_is_open : QueryRow C → Bool
  row_is_open row = if row.status == "pending" then true else row.status == "executing"

  -- `INSERT`, which fails on a key that is there.
  unfoldable pub add_row : String → QueryRow C → TableAction (Unit {0})
  add_row plan_id row = do
    found ← gets (λ table. lookup plan_id table)
    raise_if (is_some found) (from_database sql_query_plan_persistence)
    modify (insert plan_id row)

  -- The clock is read by the purge, for `expires_at`, and for the result.
  unfoldable pub create :
      Bool
      → (QueryContent → String)
      → TargetKey
      → DatabaseQuery
      → ℕ
      → ℕ
      → String
      → String
      → ℕ
      → ℕ
      → ℕ
      → TableAction SqlQueryPlanResult
  create fails sha256_json target query ttl max_pending plan_id nonce purged_at created_at
        shown_at =
      execute fails do
        modify (purge_expired purged_at)
        waiting ← gets (λ table. count_values row_is_open table)
        raise_if (leb max_pending waiting) (from_database sql_query_plan_capacity)
        let plan : StoredSqlQueryPlan = record {
          plan_id = plan_id;
          plan_digest = digest sha256_json target query;
          target = target;
          query = query;
          expires_at = created_at + ttl;
          status = pending;
        }
        raise_if (not (query_fits C plan)) (from_database sql_query_plan_persistence)
        add_row plan_id (query_row_of C nonce plan)
        pure (public plan shown_at)

  unfoldable pub acquire :
      Bool → String → String → TargetKey → ℕ → String → TableAction StoredSqlQueryPlan
  acquire fails plan_id plan_digest target now nonce = execute fails do
    plan ← required_unexpired plan_id now
    raise_if (mismatched plan target plan_digest) (from_database sql_query_plan_mismatch)
    raise_if (not (is_pending plan.status)) (from_database sql_query_plan_state)
    save nonce (record plan { status = executing })
    pure (record plan { status = executing })

  -- `_transition`, from executing
  unfoldable pub transition : Bool → String → SqlQueryPlanStatus → String → TableAction (Unit {0})
  transition fails plan_id status nonce = execute fails do
    plan ← required plan_id
    raise_if (not (is_executing plan.status)) (from_database sql_query_plan_state)
    save nonce (record plan { status = status })

  unfoldable pub complete : Bool → String → String → TableAction (Unit {0})
  complete fails plan_id nonce = transition fails plan_id executed nonce

  unfoldable pub fail : Bool → String → String → TableAction (Unit {0})
  fail fails plan_id nonce = transition fails plan_id pending nonce

  unfoldable pub get : Bool → String → TargetKey → ℕ → ℕ → TableAction SqlQueryPlanResult
  get fails plan_id target checked_at shown_at = execute fails do
    plan ← required_unexpired plan_id checked_at
    raise_if (not (plan.target == target)) (from_database sql_query_plan_mismatch)
    pure (public plan shown_at)

  unfoldable pub cancel :
      Bool → String → TargetKey → ℕ → ℕ → String → TableAction SqlQueryPlanResult
  cancel fails plan_id target checked_at shown_at nonce = execute fails do
    plan ← required_unexpired plan_id checked_at
    raise_if (not (plan.target == target)) (from_database sql_query_plan_mismatch)
    raise_if (not (is_pending plan.status)) (from_database sql_query_plan_state)
    let plan' = record plan { status = cancelled }
    save nonce plan'
    pure (public plan' shown_at)

  -- The loop of `_initialize` over the rows that were executing; each plan gets a nonce.
  unfoldable pub recover_rows : List (QueryRow C) → (String → String) → TableAction (Unit {0})
  recover_rows [] nonce_for = pure tt
  recover_rows (row ∷ rows) nonce_for = do
    plan ← lift (decode_query C row)
    save (nonce_for plan.plan_id) (record plan { status = pending })
    recover_rows rows nonce_for

  abbrev pub executing_rows : QueryTable → List (QueryRow C)
  executing_rows [] = []
  executing_rows ((key, row) ∷ table) =
      let rest = executing_rows table in if row.status == "executing" then row ∷ rest else rest

  -- `_initialize`; the table and its index are made if they are not there.
  unfoldable pub initialize : Bool → Bool → ℕ → (String → String) → TableAction (Unit {0})
  initialize fails recover_interrupted now nonce_for = execute fails do
    modify (purge_expired now)
    rows ← gets executing_rows
    if recover_interrupted then recover_rows rows nonce_for else pure tt
