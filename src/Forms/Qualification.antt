-- ===== src/Forms/Qualification.antt =====
-- src/helix_mcp/services/forms/qualification.py: the field references of a qualification. A text is
-- the list of its code points, and an index into it is the rest of the text from there. The loops
-- run on fuel, and `referenced_fields` starts with the length of the text.
pub mod Quoting
use helix_mcp_gateway.Prelude.{
  ℕ, zero, suc, ◌+◌, Bool, true, false, ◌||◌, Option, none, some, List, [], ◌∷◌, ◌++◌, length, eqb,
  if◌then◌else◌,
}
use helix_mcp_gateway.Prelude.Action.{Result, ok, err}

abbrev pub Text : Type 0
Text = List ℕ

-- The two delimiters, `'` and `"`.
abbrev pub single : ℕ
single = 39

abbrev pub double : ℕ
double = 34

abbrev pub is_delimiter : ℕ → Bool
is_delimiter c = eqb c single || eqb c double

-- `QualificationSyntaxError`, by its message; `out_of_fuel` is no error of the source.
pub data ScanError : Type 0 where
  unterminated empty_reference out_of_fuel : ScanError

abbrev pub Scanned : Type 0 → Type 0
Scanned = Result ScanError

-- A character of the token before what was read after it.
abbrev pub prepend : ℕ → Scanned (Text × Text) → Scanned (Text × Text)
prepend c (ok (value, rest)) = ok (c ∷ value, rest)
prepend c (err x) = err x

-- `_read_quoted_token`, from the character after the delimiter: the value of the token, and the
-- rest of the text after the closing delimiter. By structural recursion on the text.
unfoldable pub read_quoted_token : ℕ → Text → Scanned (Text × Text)
read_quoted_token delimiter [] = err unterminated
read_quoted_token delimiter (c ∷ []) = if eqb c delimiter then ok ([], []) else err unterminated
read_quoted_token delimiter (c ∷ d ∷ text) =
    let after_one = read_quoted_token delimiter (d ∷ text) in
    let after_two = read_quoted_token delimiter text in
    if eqb c delimiter
    then if eqb d delimiter then prepend delimiter after_two else ok ([], d ∷ text)
    else prepend c after_one

-- A field before the fields that the rest of the text refers to.
abbrev pub add_field : Text → Scanned (List Text) → Scanned (List Text)
add_field value (ok fields) = ok (value ∷ fields)
add_field value (err x) = err x

abbrev pub is_empty : Text → Bool
is_empty [] = true
is_empty (c ∷ text) = false

-- The loop of `referenced_fields`.
unfoldable pub scan : ℕ → Text → Scanned (List Text)
scan fuel [] = ok []
scan zero (c ∷ text) = err out_of_fuel
scan (suc fuel) (c ∷ text) =
    if is_delimiter c
    then elim (read_quoted_token c text) [
      | err x ↦ err x
      | ok (value, rest) ↦
          let later = scan fuel rest in
          if eqb c single
          then if is_empty value then err empty_reference else add_field value later
          else later
    ]
    else scan fuel text

unfoldable pub referenced_fields : Text → Scanned (List Text)
unfolding scan
referenced_fields text = scan (length text) text
