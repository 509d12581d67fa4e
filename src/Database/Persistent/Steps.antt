-- ===== src/Database/Persistent/Steps.antt =====
-- The steps of the methods of src/helix_mcp/services/database/persistent_plans.py, on a table and on the
-- store in memory side by side.
use helix_mcp_gateway.Prelude.{
  ℕ, ◌≡◌, refl, inl, inr, ◌⊎◌, true, none, some, String, arith, leb, Bool-cases, Option-cases,
}
use helix_mcp_gateway.Prelude.Equality.{string_eq}
use helix_mcp_gateway.Prelude.Dict.{lookup, insert, erase}
use helix_mcp_gateway.Prelude.Action.{
  Result, ok, err, pure, ◌>>=◌, ◌>>◌, bind_ok, bind_err, bind_assoc,
}
use helix_mcp_gateway.Prelude.Mirror.{
  Mirrors, lookup_unmirrored, lookup_mirrored, insert-Mirrors, erase-Mirrors,
}
use helix_mcp_gateway.Prelude.Simulation.{Sim, refused, raised, lapsed, returned}
use helix_mcp_gateway.Errors.{
  Exn, from_database, sql_query_plan_not_found, sql_query_plan_expired, sql_query_plan_persistence,
}
use helix_mcp_gateway.Database.Plans
use helix_mcp_gateway.Database.Plans.{
  StoredSqlQueryPlan, SqlQueryPlanStatus, SqlQueryPlanStore, StoreAction,
}
use helix_mcp_gateway.Database.Plans.Retry
use helix_mcp_gateway.Database.Rows.{QueryCipher, QueryRow, query_row_of, query_fits, decode_query}
use helix_mcp_gateway.Database.Rows.RoundTrip.{
  IsQueryCipher, IsNormalized, decode_query-query_row_of,
}
use helix_mcp_gateway.Database.Persistent.{
  QueryTable, TableAction, required, drop_if_expired, required_unexpired, save, set_columns,
}

abbrev pub refusal : Exn
refusal = from_database sql_query_plan_persistence

abbrev pub expiry : Exn
expiry = from_database sql_query_plan_expired

module _ (C : QueryCipher) where
  -- The row is that of the plan, whose query is normalized, and which stands under its own identifier.
  pub record HoldsQuery (key : String) (row : QueryRow C) (p : StoredSqlQueryPlan) : Type 0 where
    pub nonce : String
    pub is_row : row ≡ query_row_of C nonce p
    pub normalized : IsNormalized p
    pub fitting : query_fits C p ≡ true
    pub own_id : p.plan_id ≡ key

  -- The table holds the plans of the store in memory.
  abbrev pub HoldsPlans : QueryTable C → SqlQueryPlanStore → Type 0
  HoldsPlans t s = Mirrors HoldsQuery t s.plans

  required_no_row :
      (t : QueryTable C) (id : String)
      → lookup id t ≡ none
      → required C id t ≡ (err (from_database sql_query_plan_not_found), t)
  unfolding required ◌>>=◌
  required_no_row t id e = ground (arith, e)

  set_columns-HoldsQuery :
      (id nonce : String) (row : QueryRow C) (p : StoredSqlQueryPlan) (st : SqlQueryPlanStatus)
      → HoldsQuery id row p
      → query_fits C (record p { status = st }) ≡ true
      → HoldsQuery id
          (set_columns C nonce (record p { status = st }) row)
          (record p { status = st })
  unfolding query_row_of
  set_columns-HoldsQuery id nonce row p st h fitting = record {
    nonce = nonce;
    is_row = rw h.is_row refl;
    normalized = h.normalized;
    fitting = fitting;
    own_id = h.own_id;
  }

  -- `_update` refuses what does not fit; else the row is that of the plan.
  pub save_cases :
      (t : QueryTable C) (id nonce : String) (row : QueryRow C) (p : StoredSqlQueryPlan)
      (st : SqlQueryPlanStatus)
      → lookup id t ≡ some row
      → HoldsQuery id row p
      → (save C nonce (record p { status = st }) t ≡ (err refusal, t))
        ⊎ ((row' : QueryRow C) × HoldsQuery id row' (record p { status = st })
            × (save C nonce (record p { status = st }) t ≡ (ok tt, insert id row' t)))
  unfolding save ◌>>=◌
  save_cases t id nonce row p st found h =
      elim (Bool-cases (query_fits C (record p { status = st }))) [
        | inr small ↦ inl (rw small refl)
        | inl fitting ↦ inr (
          set_columns C nonce (record p { status = st }) row,
          set_columns-HoldsQuery id nonce row p st h fitting,
          rw (fitting, h.own_id, found) refl,
        )
      ]

  -- A row has a size that does not depend on the status of its plan: `_update` of a row that is there
  -- succeeds.
  pub save_status :
      (t : QueryTable C) (id nonce : String) (row : QueryRow C) (p : StoredSqlQueryPlan)
      (st : SqlQueryPlanStatus)
      → lookup id t ≡ some row
      → HoldsQuery id row p
      → (row' : QueryRow C) × HoldsQuery id row' (record p { status = st })
        × (save C nonce (record p { status = st }) t ≡ (ok tt, insert id row' t))
  unfolding save ◌>>=◌ query_fits
  save_status t id nonce row p st found h = (
    set_columns C nonce (record p { status = st }) row,
    set_columns-HoldsQuery id nonce row p st h h.fitting,
    rw (h.fitting, h.own_id, found) refl,
  )

module _ (C : QueryCipher) (law : IsQueryCipher C) (t : QueryTable C) where
  required_row :
      (id : String) (p : StoredSqlQueryPlan) (row : QueryRow C)
      → lookup id t ≡ some row
      → HoldsQuery C id row p
      → required C id t ≡ (ok p, t)
  unfolding required ◌>>=◌
  required_row id p row e h =
      let read : decode_query C row ≡ ok p =
        rw h.is_row (decode_query-query_row_of C law h.nonce p h.normalized h.fitting) in
      ground (arith, e, read)

saved_in_memory :
    {A : Type 0} (s : SqlQueryPlanStore) (id : String) (p : StoredSqlQueryPlan) (a : A)
    → (Plans.save id p >> pure a) s ≡ (ok a, record s { plans = insert id p s.plans })
unfolding Plans.save ◌>>=◌
saved_in_memory s id p a = refl

module _ (C : QueryCipher) (law : IsQueryCipher C) {A : Type 0} (t : QueryTable C)
    (s : SqlQueryPlanStore) (rep : HoldsPlans C t s) where
  abbrev pub Agrees : Result Exn A × QueryTable C → Result Exn A × SqlQueryPlanStore → Type 0
  Agrees = Sim refusal expiry (HoldsPlans C) t s

  pub required-Agrees :
      (id : String) (m : StoredSqlQueryPlan → TableAction C A)
      (n : StoredSqlQueryPlan → StoreAction A)
      → ((p : StoredSqlQueryPlan) (row : QueryRow C)
          → lookup id t ≡ some row
          → HoldsQuery C id row p
          → Agrees (m p t) (n p s))
      → Agrees ((required C id >>= m) t) ((Plans.required id >>= n) s)
  required-Agrees id m n h = elim (Option-cases (lookup id t)) [
    | inl e ↦
        rw
          (
            bind_err (required C id) m t _ _ (required_no_row C t id e),
            bind_err (Plans.required id) n s _ _
                (Retry.required_missing id s (lookup_unmirrored (HoldsQuery C) id rep e)),
          )
          (raised (from_database sql_query_plan_not_found))
    | inr (row, e) ↦
        let (p, found, held) = lookup_mirrored (HoldsQuery C) id rep e in
        rw
          (
            bind_ok (required C id) m t p t (required_row C law t id p row e held),
            bind_ok (Plans.required id) n s p s (Retry.required_found id p s found),
          )
          (h p row e held)
  ]

  unexpired-Agrees :
      (id : String) (now : ℕ) (m : StoredSqlQueryPlan → TableAction C A)
      (n : StoredSqlQueryPlan → StoreAction A) (p : StoredSqlQueryPlan)
      → Agrees (m p t) (n p s)
      → Agrees ((drop_if_expired C id now p >>= m) t) ((Plans.drop_if_expired id now p >>= n) s)
  unexpired-Agrees id now m n p h = elim (Bool-cases (leb p.expires_at now)) [
    | inl x ↦
        rw
          (
            bind_err (drop_if_expired C id now p) m t expiry (erase id t) (rw x refl),
            bind_err (Plans.drop_if_expired id now p) n s expiry
                (record s { plans = erase id s.plans }) (rw x refl),
          )
          (lapsed (erase id t) (record s { plans = erase id s.plans })
            (erase-Mirrors (HoldsQuery C) id rep))
    | inr x ↦
        rw
          (
            bind_ok (drop_if_expired C id now p) m t p t (rw x refl),
            bind_ok (Plans.drop_if_expired id now p) n s p s (rw x refl),
          )
          h
  ]

  pub required_unexpired-Agrees :
      (id : String) (now : ℕ) (m : StoredSqlQueryPlan → TableAction C A)
      (n : StoredSqlQueryPlan → StoreAction A)
      → ((p : StoredSqlQueryPlan) (row : QueryRow C)
          → lookup id t ≡ some row
          → HoldsQuery C id row p
          → Agrees (m p t) (n p s))
      → Agrees ((required_unexpired C id now >>= m) t) ((Plans.required_unexpired id now >>= n) s)
  unfolding required_unexpired Plans.required_unexpired
  required_unexpired-Agrees id now m n h =
      rw
        (
          bind_assoc (drop_if_expired C id now) m (required C id) t,
          bind_assoc (Plans.drop_if_expired id now) n (Plans.required id) s,
        )
        (required-Agrees id (λ p. drop_if_expired C id now p >>= m)
          (λ p. Plans.drop_if_expired id now p >>= n)
          (λ p row e held. unexpired-Agrees id now m n p (h p row e held)))

  pub save-Agrees :
      (id nonce : String) (row : QueryRow C) (p : StoredSqlQueryPlan) (st : SqlQueryPlanStatus)
      (a : A)
      → lookup id t ≡ some row
      → HoldsQuery C id row p
      → Agrees
          ((save C nonce (record p { status = st }) >> pure a) t)
          ((Plans.save id (record p { status = st }) >> pure a) s)
  unfolding pure
  save-Agrees id nonce row p st a found h =
      let p' = record p { status = st } in
      elim (save_cases C t id nonce row p st found h) [
        | inl refuses ↦ rw (bind_err (save C nonce p') (λ _. pure a) t _ _ refuses) (refused t _)
        | inr (row', held, saves) ↦
            rw
              (
                bind_ok (save C nonce p') (λ _. pure a) t tt (insert id row' t) saves,
                saved_in_memory s id p' a,
              )
              (returned a (insert id row' t) (record s { plans = insert id p' s.plans })
                (insert-Mirrors (HoldsQuery C) id row' p' held rep))
      ]

module _ (C : QueryCipher) (law : IsQueryCipher C) (t : QueryTable C) (s : SqlQueryPlanStore)
    (rep : HoldsPlans C t s) where
  pub save_last-Agrees :
      (id nonce : String) (row : QueryRow C) (p : StoredSqlQueryPlan) (st : SqlQueryPlanStatus)
      → lookup id t ≡ some row
      → HoldsQuery C id row p
      → Agrees C law t s rep
          (save C nonce (record p { status = st }) t)
          (Plans.save id (record p { status = st }) s)
  unfolding Plans.save ◌>>=◌
  save_last-Agrees id nonce row p st found h = elim (save_cases C t id nonce row p st found h) [
    | inl refuses ↦ rw refuses (refused t _)
    | inr (row', held, saves) ↦ rw saves (
        returned tt (insert id row' t)
          (record s { plans = insert id (record p { status = st }) s.plans })
          (insert-Mirrors (HoldsQuery C) id row' (record p { status = st }) held rep))
  ]
