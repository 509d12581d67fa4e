-- ===== src/Database/Service/Rows.antt =====
-- The rows that the service of src/helix_mcp/services/database/service.py makes of the bridge's answer.
use mathlib.Core.List.{append-nil, append_assoc}
use helix_mcp_gateway.Prelude.{
  ◌≡◌, refl, sym, ap, subst, suc, ◌∙◌, inl, inr, true, false, ◌||◌, some, List, [], ◌∷◌, ◌++◌,
  String, map, any_of-none, All, length, arith, Bool-cases, Option-cases,
}
use helix_mcp_gateway.Prelude.Equality.{◌==◌, string_eq}
use helix_mcp_gateway.Prelude.Dict.{Dict, insert}
use helix_mcp_gateway.Prelude.Distinct.{is_in, has_duplicates}
use helix_mcp_gateway.Config.Allowlists.{keys_of}
use helix_mcp_gateway.Database.Service.{zip_row, zip_rows, value_in_model, row_in_model}
use helix_mcp_gateway.Client.Sql.{ArapiSqlValue}

is_in-last :
    (s c : String) (items : List String) → is_in (items ++ c ∷ []) s ≡ (is_in items s || (c == s))
is_in-last s c [] = ground arith
is_in-last s c (item ∷ items) = ground (arith, is_in-last s c items)

still_fresh :
    (c : String) (items columns : List String)
    → All (λ later. (later == c) ≡ false) columns
    → All (λ later. is_in items later ≡ false) columns
    → All (λ later. is_in (items ++ c ∷ []) later ≡ false) columns
still_fresh c items [] differ fresh = tt
still_fresh c items (later ∷ columns) differ fresh = (
  is_in-last later c items
      ∙ ground (arith, differ.0, fresh.0, string_eq.reflects later c, string_eq.reflects c later),
  still_fresh c items columns differ.1 fresh.1,
)

none_fresh : (columns : List String) → All (λ column. is_in [] column ≡ false) columns
none_fresh [] = tt
none_fresh (column ∷ columns) = (refl, none_fresh columns)

abbrev pub values_of : {V : Type 0} → Dict String V → List V
values_of = map (λ entry. entry.1)

module _ {V : Type 0} where
  keys-insert :
      (k : String) (v : V) (d : Dict String V)
      → is_in (keys_of d) k ≡ false
      → keys_of (insert k v d) ≡ keys_of d ++ k ∷ []
  unfolding insert
  keys-insert k v [] h = refl
  keys-insert k v ((j, w) ∷ d) h = elim (Bool-cases (j == k)) [
    | inl e ↦ absurd (ground (arith, h, e))
    | inr e ↦ rw e (ap (λ ks. j ∷ ks) (keys-insert k v d (ground (arith, h, e))))
  ]

  values-insert :
      (k : String) (v : V) (d : Dict String V)
      → is_in (keys_of d) k ≡ false
      → values_of (insert k v d) ≡ values_of d ++ v ∷ []
  unfolding insert
  values-insert k v [] h = refl
  values-insert k v ((j, w) ∷ d) h = elim (Bool-cases (j == k)) [
    | inl e ↦ absurd (ground (arith, h, e))
    | inr e ↦ rw e (ap (λ vs. w ∷ vs) (values-insert k v d (ground (arith, h, e))))
  ]

  zip_row-keys :
      (columns : List String) (row : List V) (d d' : Dict String V)
      → zip_row columns row d ≡ some d'
      → has_duplicates columns ≡ false
      → All (λ column. is_in (keys_of d) column ≡ false) columns
      → (keys_of d' ≡ keys_of d ++ columns) × (values_of d' ≡ values_of d ++ row)
  unfolding zip_row
  zip_row-keys [] [] d d' h distinct fresh = (
    ap keys_of (cc h) ∙ sym (append-nil (keys_of d)),
    ap values_of (cc h) ∙ sym (append-nil (values_of d)),
  )
  zip_row-keys [] (value ∷ row) d d' h distinct fresh = absurd (cc h)
  zip_row-keys (c ∷ columns) [] d d' h distinct fresh = absurd (cc h)
  zip_row-keys (c ∷ columns) (value ∷ row) d d' h distinct fresh =
      let added = keys-insert c value d fresh.0 in
      let valued = values-insert c value d fresh.0 in
      let differ : All (λ later. (later == c) ≡ false) columns =
        any_of-none (λ item. item == c) columns (ground (arith, distinct)) in
      let (keys, values) =
        zip_row-keys columns row (insert c value d) d' h (ground (arith, distinct))
          (rw added (still_fresh c (keys_of d) columns differ fresh.1)) in
      (
        keys ∙ rw added (append_assoc (keys_of d) (c ∷ []) columns),
        values ∙ rw valued (append_assoc (values_of d) (value ∷ []) row),
      )

  pub zip_rows-keys :
      (columns : List String) (raw : List (List V)) (rows : List (Dict String V))
      → has_duplicates columns ≡ false
      → zip_rows columns raw ≡ some rows
      → All (λ row. keys_of row ≡ columns) rows × (map values_of rows ≡ raw)
  unfolding zip_rows
  zip_rows-keys columns [] [] distinct h = (tt, refl)
  zip_rows-keys columns [] (row ∷ rows) distinct h = absurd (cc h)
  zip_rows-keys columns (row ∷ raw) rows distinct h = elim (Option-cases (zip_row columns row [])) [
    | inl e ↦ absurd (ground (arith, h, e))
    | inr (d, e) ↦ elim (Option-cases (zip_rows columns raw)) [
      | inl f ↦ absurd (ground (arith, h, e, f))
      | inr (ds, f) ↦
          let (keys, values) = zip_rows-keys columns raw ds distinct f in
          let (key, value) = zip_row-keys columns row [] d e distinct (none_fresh columns) in
          let same : d ∷ ds ≡ rows = ground (arith, h, e, f) in
          subst (λ rs. All (λ r. keys_of r ≡ columns) rs × (map values_of rs ≡ row ∷ raw)) same
            ((key, keys), cc (value, values))
    ]
  ]

in_folded :
    (casefold : String → String) (s : String) (items : List String)
    → is_in (map casefold items) (casefold s) ≡ false
    → is_in items s ≡ false
in_folded casefold s [] h = refl
in_folded casefold s (item ∷ items) h = elim (Bool-cases (item == s)) [
  | inl e ↦
      let folded : (casefold item == casefold s) ≡ true =
        (string_eq.reflects (casefold item) (casefold s)).1
          (ap casefold ((string_eq.reflects item s).0 e)) in
      absurd (ground (arith, h, folded))
  | inr e ↦ rw e (in_folded casefold s items (ground (arith, h)))
]

pub distinct_unfolded :
    (casefold : String → String) (items : List String)
    → has_duplicates (map casefold items) ≡ false
    → has_duplicates items ≡ false
distinct_unfolded casefold [] h = refl
distinct_unfolded casefold (item ∷ items) h =
    rw
      (
        in_folded casefold item items (ground (arith, h)),
        distinct_unfolded casefold items (ground (arith, h)),
      )
      refl

row_in_model-keys : (row : Dict String ArapiSqlValue) → keys_of (row_in_model row) ≡ keys_of row
unfolding row_in_model
row_in_model-keys [] = refl
row_in_model-keys ((column, value) ∷ row) = ap (λ ks. column ∷ ks) (row_in_model-keys row)

row_in_model-values :
    (row : Dict String ArapiSqlValue)
    → values_of (row_in_model row) ≡ map value_in_model (values_of row)
unfolding row_in_model
row_in_model-values [] = refl
row_in_model-values ((column, value) ∷ row) =
    ap (λ vs. value_in_model value ∷ vs) (row_in_model-values row)

-- In the model the rows have the keys and the values that they had, with the texts stripped.
pub rows_in_model :
    (columns : List String) (rows : List (Dict String ArapiSqlValue))
    → All (λ row. keys_of row ≡ columns) rows
    → All (λ row. keys_of row ≡ columns) (map row_in_model rows)
      × (map values_of (map row_in_model rows) ≡ map (map value_in_model) (map values_of rows))
      × (length (map row_in_model rows) ≡ length rows)
rows_in_model columns [] h = (tt, refl, refl)
rows_in_model columns (row ∷ rows) h =
    let (keys, values, lengths) = rows_in_model columns rows h.1 in
    ((row_in_model-keys row ∙ h.0, keys), cc (row_in_model-values row, values), ap suc lengths)

pub length-values :
    {V : Type 0} (rows : List (Dict String V)) (raw : List (List V))
    → map values_of rows ≡ raw
    → length rows ≡ length raw
length-values [] raw h = ap length h
length-values (row ∷ rows) raw h =
    ap suc (length-values rows (map values_of rows) refl) ∙ ap length h
