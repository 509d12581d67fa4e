-- ===== src/Forms/Qualification/Quoting.antt =====
-- Quoting by doubled delimiters, and the scanner against it.
use helix_mcp_gateway.Prelude.{
  ℕ, zero, suc, ◌≤◌, ◌<◌, ◌≡◌, refl, subst, ap, ◌∙◌, inl, inr, Bool, true, false, List, [], ◌∷◌,
  length, eqb, arith, Bool-cases, All, if◌then◌else◌,
}
use helix_mcp_gateway.Prelude.Action.{ok, err, Result-cases}
use helix_mcp_gateway.Forms.Qualification.{
  Text, single, double, is_delimiter, ScanError, out_of_fuel, prepend, read_quoted_token, add_field,
  is_empty, scan, referenced_fields, Scanned,
}

-- The rest of a quoted token with this value, its closing delimiter included, before a text.
abbrev pub quoted : ℕ → Text → Text → Text
quoted delimiter [] tail = delimiter ∷ tail
quoted delimiter (c ∷ value) tail =
    let rest = quoted delimiter value tail in
    if eqb c delimiter then delimiter ∷ delimiter ∷ rest else c ∷ rest

-- The parts of a qualification: a field reference and a character value, each with a blank after
-- it, and any other character.
pub data Piece : Type 0 where
  reference literal : Text → Piece
  other : ℕ → Piece

abbrev pub blank : ℕ
blank = 32

unfoldable pub write : List Piece → Text
write [] = []
write (reference value ∷ pieces) = single ∷ quoted single value (blank ∷ write pieces)
write (literal value ∷ pieces) = double ∷ quoted double value (blank ∷ write pieces)
write (other c ∷ pieces) = c ∷ write pieces

abbrev pub references : List Piece → List Text
references [] = []
references (reference value ∷ pieces) = value ∷ references pieces
references (_ ∷ pieces) = references pieces

abbrev pub IsPiece : Piece → Type 0
IsPiece (reference value) = is_empty value ≡ false
IsPiece (literal value) = Unit
IsPiece (other c) = is_delimiter c ≡ false

read-other :
    (delimiter c : ℕ) (text : Text)
    → eqb c delimiter ≡ false
    → read_quoted_token delimiter (c ∷ text) ≡ prepend c (read_quoted_token delimiter text)
unfolding read_quoted_token
read-other delimiter c [] h = rw h
read-other delimiter c (d ∷ text) h = rw h

eqb_self : (c : ℕ) → eqb c c ≡ true
eqb_self c = ground arith

eqb→ : (c d : ℕ) → eqb c d ≡ true → c ≡ d
eqb→ c d h = ground arith

read-quoted :
    (delimiter : ℕ) (value : Text) (c : ℕ) (text : Text)
    → eqb c delimiter ≡ false
    → read_quoted_token delimiter (quoted delimiter value (c ∷ text)) ≡ ok (value, c ∷ text)
unfolding read_quoted_token
read-quoted delimiter [] c text h = rw (eqb_self delimiter, h)
read-quoted delimiter (x ∷ value) c text h = elim (Bool-cases (eqb x delimiter)) [
  | inl same ↦
      rw (same, eqb_self delimiter, read-quoted delimiter value c text h)
        (rw (eqb→ x delimiter same))
  | inr differs ↦
      rw differs
        (read-other delimiter x _ differs ∙ ap (prepend x) (read-quoted delimiter value c text h))
]

length-quoted :
    (delimiter : ℕ) (value tail : Text) → length tail < length (quoted delimiter value tail)
length-quoted delimiter [] tail = omega arith
length-quoted delimiter (c ∷ value) tail = elim (Bool-cases (eqb c delimiter)) [
  | inl same ↦ rw same (omega (arith, length-quoted delimiter value tail))
  | inr differs ↦ rw differs (omega (arith, length-quoted delimiter value tail))
]

scan-write :
    (pieces : List Piece) (fuel : ℕ)
    → All IsPiece pieces
    → length (write pieces) ≤ fuel
    → scan fuel (write pieces) ≡ ok (references pieces)
unfolding scan write
scan-write [] fuel h enough = refl
scan-write (other c ∷ pieces) zero h enough = absurd (omega arith)
scan-write (other c ∷ pieces) (suc fuel) h enough =
    rw h.0 (scan-write pieces fuel h.1 (omega arith))
scan-write (reference value ∷ pieces) zero h enough = absurd (omega arith)
scan-write (reference value ∷ pieces) (suc zero) h enough =
    let shorter = length-quoted single value (blank ∷ write pieces) in
    absurd (omega (arith, shorter))
scan-write (reference value ∷ pieces) (suc (suc fuel)) h enough =
    let shorter = length-quoted single value (blank ∷ write pieces) in
    let read = read-quoted single value blank (write pieces) refl in
    rw (read, h.0) (ap (add_field value) (scan-write pieces fuel h.1 (omega (arith, shorter))))
scan-write (literal value ∷ pieces) zero h enough = absurd (omega arith)
scan-write (literal value ∷ pieces) (suc zero) h enough =
    let shorter = length-quoted double value (blank ∷ write pieces) in
    absurd (omega (arith, shorter))
scan-write (literal value ∷ pieces) (suc (suc fuel)) h enough =
    let shorter = length-quoted double value (blank ∷ write pieces) in
    let read = read-quoted double value blank (write pieces) refl in
    rw (read) (ap (λ r. r) (scan-write pieces fuel h.1 (omega (arith, shorter))))

-- The scanner finds the fields: a qualification that is written from field references, character
-- values and other characters, each token with its delimiters doubled inside it and a blank after
-- it, is scanned to its field references in their order, if none of them is empty and no other
-- character is a delimiter.
pub referenced_fields-write :
    (pieces : List Piece)
    → All IsPiece pieces
    → referenced_fields (write pieces) ≡ ok (references pieces)
unfolding referenced_fields
referenced_fields-write pieces h = scan-write pieces (length (write pieces)) h (omega arith)

abbrev pub is_fuel : ScanError → Bool
is_fuel out_of_fuel = true
is_fuel _ = false

-- A token was read and less than `n` characters are left, or the error is one of the source's.
abbrev Progress : ℕ → Scanned (Text × Text) → Type 0
Progress n (ok (value, rest)) = length rest < n
Progress n (err x) = is_fuel x ≡ false

prepend-Progress :
    (n m c : ℕ) (r : Scanned (Text × Text)) → n ≤ m → Progress n r → Progress m (prepend c r)
prepend-Progress n m c (ok (value, rest)) le h = omega (arith, le, h)
prepend-Progress n m c (err x) le h = h

read-Progress :
    (delimiter : ℕ) (text : Text) → Progress (length text) (read_quoted_token delimiter text)
unfolding read_quoted_token
read-Progress delimiter [] = refl
read-Progress delimiter (c ∷ []) = elim (Bool-cases (eqb c delimiter)) [
  | inl same ↦ rw same (omega arith)
  | inr differs ↦ rw differs refl
]
read-Progress delimiter (c ∷ d ∷ text) = elim (Bool-cases (eqb c delimiter)) [
  | inl same ↦ elim (Bool-cases (eqb d delimiter)) [
    | inl same' ↦
        rw (same, same')
          (prepend-Progress (length text) _ delimiter _ (omega arith)
            (read-Progress delimiter text))
    | inr differs ↦ rw (same, differs) (omega arith)
  ]
  | inr differs ↦ rw differs (
      prepend-Progress (suc (length text)) _ c _ (omega arith) (read-Progress delimiter (d ∷ text)))
]

abbrev pub ran_out : {A : Type 0} → Scanned A → Bool
ran_out (ok a) = false
ran_out (err x) = is_fuel x

add_field-ran_out :
    (value : Text) (r : Scanned (List Text)) → ran_out (add_field value r) ≡ ran_out r
add_field-ran_out value (ok fields) = refl
add_field-ran_out value (err x) = refl

scan-ran_out : (fuel : ℕ) (text : Text) → length text ≤ fuel → ran_out (scan fuel text) ≡ false
unfolding scan
scan-ran_out fuel [] h = refl
scan-ran_out zero (c ∷ text) h = absurd (omega arith)
scan-ran_out (suc fuel) (c ∷ text) h = elim (Bool-cases (is_delimiter c)) [
  | inr differs ↦ rw differs (scan-ran_out fuel text (omega arith))
  | inl same ↦ elim (Result-cases (read_quoted_token c text)) [
    | inl (x, e) ↦ rw (same, e) (subst (Progress (length text)) e (read-Progress c text))
    | inr ((value, rest), e) ↦
        let shorter = subst (Progress (length text)) e (read-Progress c text) in
        let later = scan-ran_out fuel rest (omega (arith, shorter)) in
        elim (Bool-cases (eqb c single)) [
          | inr quoted_value ↦ rw (same, e, quoted_value) later
          | inl field ↦ elim (Bool-cases (is_empty value)) [
            | inl empty ↦ rw (same, e, field, empty) refl
            | inr full ↦
                rw (same, e, field, full) (add_field-ran_out value (scan fuel rest) ∙ later)
          ]
        ]
  ]
]

-- On every text, the fuel that the scanner starts with, the length of the text, is enough.
pub referenced_fields-ran_out : (text : Text) → ran_out (referenced_fields text) ≡ false
unfolding referenced_fields
referenced_fields-ran_out text = scan-ran_out (length text) text (omega arith)
