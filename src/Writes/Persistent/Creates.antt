-- ===== src/Writes/Persistent/Creates.antt =====
-- `create` of the persistent store against that of the store in memory.
use helix_mcp_gateway.Prelude.{
  ℕ, ◌+◌, ◌≡◌, refl, inl, inr, ◌⊎◌, Bool, true, false, none, some, String, leb, Bool-cases,
  Option-cases,
}
use helix_mcp_gateway.Prelude.Equality.{string_eq}
use helix_mcp_gateway.Prelude.Dict.{lookup, insert, count_values}
use helix_mcp_gateway.Prelude.Action.{Result, ok, err, ◌>>=◌}
use helix_mcp_gateway.Prelude.Mirror.{insert-Mirrors}
use helix_mcp_gateway.Errors.{Exn, from_write, write_plan_persistence, write_plan_capacity}
use helix_mcp_gateway.Writes.Models.{WritePlanResult}
use helix_mcp_gateway.Writes.Store
use helix_mcp_gateway.Writes.Store.{
  StoredWritePlan, WritePlanStore, PlanContent, PlanRequest, new_plan, public, plan_is_open,
}
use helix_mcp_gateway.Writes.Rows.{Cipher, Row, row_of, fits}
use helix_mcp_gateway.Writes.Rows.RoundTrip.{IsStorable}
use helix_mcp_gateway.Writes.Persistent.{
  Table, execute, create, add_row, purge_expired, row_is_open,
}
use helix_mcp_gateway.Writes.Persistent.Table.{
  Holds, Represents, purge-Represents, count-Represents,
}

module _ (C : Cipher) (t : Table C) (s : WritePlanStore) (sha256_json : PlanContent → String)
    (r : PlanRequest) (id nonce : String) (purged_at created_at : ℕ) where
  abbrev pub created_in_table : Result Exn WritePlanResult × Table C
  created_in_table =
      create C false sha256_json r s.ttl s.max_pending id nonce purged_at created_at t

  abbrev pub created_in_memory : Result Exn WritePlanResult × WritePlanStore
  created_in_memory = Store.create sha256_json r id purged_at created_at s

  abbrev t₁ : Table C
  t₁ = purge_expired C purged_at t

  abbrev s₁ : WritePlanStore
  s₁ = Store.purge_expired purged_at s

  abbrev plan : StoredWritePlan
  plan = new_plan sha256_json r id (created_at + s.ttl)

  settings : (s₁.max_pending ≡ s.max_pending) × (s₁.ttl ≡ s.ttl)
  unfolding Store.purge_expired
  settings = (refl, refl)

  memory_full :
      leb s₁.max_pending (count_values plan_is_open s₁.plans) ≡ true
      → created_in_memory.0 ≡ err (from_write write_plan_capacity)
  unfolding Store.create ◌>>=◌
  memory_full e = rw e refl

  memory_room :
      leb s₁.max_pending (count_values plan_is_open s₁.plans) ≡ false
      → created_in_memory ≡ (ok (public plan), record s₁ { plans = insert id plan s₁.plans })
  unfolding Store.create Store.save ◌>>=◌ Store.purge_expired
  memory_room e = rw e refl

  table_full :
      leb s.max_pending (count_values (row_is_open C) t₁) ≡ true
      → created_in_table ≡ (err (from_write write_plan_capacity), t)
  unfolding create execute ◌>>=◌
  table_full e = rw e refl

  table_big :
      leb s.max_pending (count_values (row_is_open C) t₁) ≡ false
      → fits C plan ≡ false
      → created_in_table ≡ (err (from_write write_plan_persistence), t)
  unfolding create execute ◌>>=◌
  table_big e f = rw (e, f) refl

  table_taken :
      {row : Row C}
      → leb s.max_pending (count_values (row_is_open C) t₁) ≡ false
      → fits C plan ≡ true
      → lookup id t₁ ≡ some row
      → created_in_table ≡ (err (from_write write_plan_persistence), t)
  unfolding create execute add_row ◌>>=◌
  table_taken e f g = rw (e, f, g) refl

  table_room :
      leb s.max_pending (count_values (row_is_open C) t₁) ≡ false
      → fits C plan ≡ true
      → lookup id t₁ ≡ none
      → created_in_table ≡ (ok (public plan), insert id (row_of C nonce plan) t₁)
  unfolding create execute add_row ◌>>=◌
  table_room e f g = rw (e, f, g) refl

  own_id : plan.plan_id ≡ id
  unfolding new_plan
  own_id = refl

  -- How `create` may end: refused as a failure of persistence, with the table as it was; at the
  -- capacity, as in memory, with the table as it was; or as in memory, with what that store then holds.
  abbrev pub CreateRefines : Result Exn WritePlanResult × Table C → Type 0
  CreateRefines r' =
      (r' ≡ (err (from_write write_plan_persistence), t))
      ⊎ (((r' ≡ (err (from_write write_plan_capacity), t))
            × (created_in_memory.0 ≡ err (from_write write_plan_capacity)))
          ⊎ ((r'.0 ≡ created_in_memory.0) × Represents C r'.1 created_in_memory.1.plans))

  create-Represents : Represents C t s.plans → IsStorable plan → CreateRefines created_in_table
  create-Represents rep storable =
      let rep₁ = purge-Represents C purged_at t s rep in
      let counts = count-Represents C rep₁ in
      elim (Bool-cases (leb s.max_pending (count_values (row_is_open C) t₁))) [
        | inl e ↦
            let in_memory : leb s₁.max_pending (count_values plan_is_open s₁.plans) ≡ true =
              rw (settings.0, ← counts) e in
            inr (inl (table_full e, memory_full in_memory))
        | inr e ↦
            let in_memory : leb s₁.max_pending (count_values plan_is_open s₁.plans) ≡ false =
              rw (settings.0, ← counts) e in
            elim (Bool-cases (fits C plan)) [
              | inr f ↦ inl (table_big e f)
              | inl f ↦ elim (Option-cases (lookup id t₁)) [
                | inr (row, g) ↦ inl (table_taken e f g)
                | inl g ↦
                    let held : Holds C id (row_of C nonce plan) plan = record {
                      nonce = nonce;
                      is_row = refl;
                      storable = storable;
                      fitting = f;
                      own_id = own_id;
                    } in
                    inr (
                      inr (
                        rw (table_room e f g, memory_room in_memory)
                          (refl, insert-Mirrors (Holds C) id (row_of C nonce plan) plan held rep₁)))
              ]
            ]
      ]

module _ (C : Cipher) (t : Table C) (s : WritePlanStore) where
  -- `create` of the persistent store, from a table that holds the plans of the store in memory, and for
  -- a request with a form and no empty name, whose fields, those of the values before and of the values
  -- proposed, are already in the order of their names, as a row keeps them: it is refused as a failure of
  -- persistence, or refuses at the capacity as the store in memory does, and changes nothing; or it shows
  -- the plan that the store in memory shows, and leaves what that leaves. Requests with fields in another
  -- order are not covered.
  pub create-Refines :
      (fails : Bool) (sha256_json : PlanContent → String) (r : PlanRequest) (id nonce : String)
      (purged_at created_at : ℕ)
      → Represents C t s.plans
      → IsStorable (new_plan sha256_json r id (created_at + s.ttl))
      → CreateRefines C t s sha256_json r id nonce purged_at created_at
          (create C fails sha256_json r s.ttl s.max_pending id nonce purged_at created_at t)
  unfolding create execute
  create-Refines true sha256_json r id nonce purged_at created_at rep storable = inl refl
  create-Refines false sha256_json r id nonce purged_at created_at rep storable =
      create-Represents C t s sha256_json r id nonce purged_at created_at rep storable
