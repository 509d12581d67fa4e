-- ===== src/Client/Encode/Keys.antt =====
-- The names of the fields of the form that `_encode_write_values` of
-- src/helix_mcp/clients/arapi/client.py makes: no two are the same.
use helix_mcp_gateway.Prelude.{ℕ, suc, ◌≡◌, sym, ap, ◌≢◌, ◌≤◌, String, arith}
use helix_mcp_gateway.Text.{append}
use helix_mcp_gateway.Client.Decimal.{
  natural_text, natural_text-injective, natural_text-first, first_code,
}
use helix_mcp_gateway.Client.Encode.{key}

tail_of : String → String
tail_of String.[] = ""
tail_of (String.◌∷◌ c s) = s

append-injective : (prefix s t : String) → append prefix s ≡ append prefix t → s ≡ t
unfolding tail_of
append-injective String.[] s t h = h
append-injective (String.◌∷◌ c prefix) s t h = append-injective prefix s t (ap tail_of h)

pub key-injective : (prefix : String) (i j : ℕ) → key prefix i ≡ key prefix j → i ≡ j
unfolding key
key-injective prefix i j h =
    natural_text-injective i j (append-injective prefix (natural_text i) (natural_text j) h)

pub field_key-value_key : (i j : ℕ) → key "field_" i ≢ key "value_" j
unfolding key
field_key-value_key i j h = omega (arith, ap first_code h)

pub field_key-type_key : (i j : ℕ) → key "field_" i ≢ key "value_type_" j
unfolding key
field_key-type_key i j h = omega (arith, ap first_code h)

pub value_key-type_key : (i j : ℕ) → key "value_" i ≢ key "value_type_" j
unfolding key
value_key-type_key i j h =
    let rest : natural_text i ≡ append "type_" (natural_text j) =
      append-injective "value_" (natural_text i) (append "type_" (natural_text j)) h in
    omega (arith, ap first_code rest, natural_text-first i)

-- A key that none of the fields from an index on has.
pub record IsBefore (index : ℕ) (k : String) : Type 0 where
  pub no_field : (j : ℕ) → index ≤ j → k ≢ key "field_" j
  pub no_type : (j : ℕ) → index ≤ j → k ≢ key "value_type_" j
  pub no_value : (j : ℕ) → index ≤ j → k ≢ key "value_" j

pub field_key-IsBefore : (index : ℕ) → IsBefore (suc index) (key "field_" index)
field_key-IsBefore index = record {
  no_field = λ j later h. omega (arith, later, key-injective "field_" index j h);
  no_type = λ j later h. field_key-type_key index j h;
  no_value = λ j later h. field_key-value_key index j h;
}

pub type_key-IsBefore : (index : ℕ) → IsBefore (suc index) (key "value_type_" index)
type_key-IsBefore index = record {
  no_field = λ j later h. field_key-type_key j index (sym h);
  no_type = λ j later h. omega (arith, later, key-injective "value_type_" index j h);
  no_value = λ j later h. value_key-type_key j index (sym h);
}

pub value_key-IsBefore : (index : ℕ) → IsBefore (suc index) (key "value_" index)
value_key-IsBefore index = record {
  no_field = λ j later h. field_key-value_key j index (sym h);
  no_type = λ j later h. value_key-type_key index j h;
  no_value = λ j later h. omega (arith, later, key-injective "value_" index j h);
}

pub count_key-IsBefore : IsBefore 0 "value_count"
unfolding key
count_key-IsBefore = record {
  no_field = λ j later h. omega (arith, ap first_code h);
  no_type = λ j later h. omega (
    arith,
    ap first_code (append-injective "value_" "count" (append "type_" (natural_text j)) h),
  );
  no_value = λ j later h. omega (
    arith,
    ap first_code (append-injective "value_" "count" (natural_text j) h),
    natural_text-first j,
  );
}

pub IsBefore-suc : (index : ℕ) (k : String) → IsBefore index k → IsBefore (suc index) k
IsBefore-suc index k h = record {
  no_field = λ j later. h.no_field j (omega (arith, later));
  no_type = λ j later. h.no_type j (omega (arith, later));
  no_value = λ j later. h.no_value j (omega (arith, later));
}
