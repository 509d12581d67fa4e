-- ===== src/Writes/Persistent/Table.antt =====
-- A table that holds the plans of a store in memory.
use helix_mcp_gateway.Prelude.{ℕ, ◌≡◌, refl, ap, true, String, leb, if◌then◌else◌}
use helix_mcp_gateway.Prelude.Equality.{◌==◌, string_eq}
use helix_mcp_gateway.Prelude.Dict.{Dict, count_values}
use helix_mcp_gateway.Prelude.Mirror.{Mirrors, count-Mirrors, purge-Mirrors}
use helix_mcp_gateway.Writes.Models.{
  WritePlanStatus, pending, applying, applied, cancelled, failed, outcome_unknown,
}
use helix_mcp_gateway.Writes.Store
use helix_mcp_gateway.Writes.Store.{StoredWritePlan, WritePlanStore, plan_is_open, is_open}
use helix_mcp_gateway.Writes.Rows.{Cipher, Row, row_of, fits, status_text}
use helix_mcp_gateway.Writes.Rows.RoundTrip.{IsStorable}
use helix_mcp_gateway.Writes.Persistent.{Table, row_is_open, purge_expired}

abbrev pub Plans : Type 0
Plans = Dict String StoredWritePlan

module _ (C : Cipher) where
  -- The row is that of the plan, which stands under its own identifier.
  pub record Holds (key : String) (row : Row C) (p : StoredWritePlan) : Type 0 where
    pub nonce : String
    pub is_row : row ≡ row_of C nonce p
    pub storable : IsStorable p
    pub fitting : fits C p ≡ true
    pub own_id : p.plan_id ≡ key

  abbrev pub Represents : Table C → Plans → Type 0
  Represents = Mirrors Holds

  row_is_open-of :
      (s : WritePlanStatus)
      → (if status_text s == "pending" then true else status_text s == "applying") ≡ is_open s
  unfolding status_text
  row_is_open-of pending = refl
  row_is_open-of applying = refl
  row_is_open-of applied = refl
  row_is_open-of cancelled = refl
  row_is_open-of failed = refl
  row_is_open-of outcome_unknown = refl

  row_open :
      {k : String} (row : Row C) (p : StoredWritePlan)
      → Holds k row p
      → row_is_open C row ≡ plan_is_open p
  unfolding row_of
  row_open row p h = rw h.is_row (row_is_open-of p.status)

  pub count-Represents :
      {t : Table C} {d : Plans}
      → Represents t d
      → count_values (row_is_open C) t ≡ count_values plan_is_open d
  count-Represents =
      count-Mirrors Holds (row_is_open C) plan_is_open (λ k row p h. row_open row p h)

  row_expiry :
      {k : String} (row : Row C) (p : StoredWritePlan)
      → Holds k row p
      → row.expires_at ≡ p.expires_at
  unfolding row_of
  row_expiry row p h = rw h.is_row refl

  pub purge-Represents :
      (now : ℕ) (t : Table C) (s : WritePlanStore)
      → Represents t s.plans
      → Represents (purge_expired C now t) (Store.purge_expired now s).plans
  unfolding purge_expired Store.purge_expired
  purge-Represents now t s rep =
      purge-Mirrors Holds (λ row. leb row.expires_at now) (λ p. leb p.expires_at now)
        (λ k row p h. ap (λ x. leb x now) (row_expiry row p h)) rep
