-- ===== src/Database/Sql/Names.antt =====
-- The names that src/helix_mcp/services/database/service.py accepts: `_COLUMN_PATTERN`,
-- `_OBJECT_PATTERN` with `_normalize_allowed_object`, and the allowlists of functions.
use Prim.Native.String
use helix_mcp_gateway.Prelude.{
  ℕ, Bool, false, ◌&&◌, ◌||◌, List, [], ◌∷◌, String, all_of, eqb, leb, length, if◌then◌else◌,
}
use helix_mcp_gateway.Prelude.Equality.{string_eq}
use helix_mcp_gateway.Prelude.Action.{Result, ok, err}
use helix_mcp_gateway.Errors.{Exn, from_database, database_object_not_allowed}
use helix_mcp_gateway.Prelude.Distinct.{is_in}
use helix_mcp_gateway.Text.{codes, text_of, strip, between}

-- `[A-Za-z_]`
abbrev is_letter : ℕ → Bool
is_letter c = between 65 90 c || between 97 122 c || eqb c 95

-- `[A-Za-z0-9_]`
abbrev is_word : ℕ → Bool
is_word c = is_letter c || between 48 57 c

abbrev matches_column : List ℕ → Bool
matches_column [] = false
matches_column (c ∷ cs) = is_letter c && all_of is_word cs && leb (length cs) 127

-- `_COLUMN_PATTERN.fullmatch`
unfoldable pub is_column_name : String → Bool
is_column_name s = matches_column (codes s)

abbrev put_before : ℕ → List (List ℕ) → List (List ℕ)
put_before c [] = (c ∷ []) ∷ []
put_before c (part ∷ parts) = (c ∷ part) ∷ parts

-- The parts between the full stops.
unfoldable pub split_parts : List ℕ → List (List ℕ)
split_parts [] = [] ∷ []
split_parts (c ∷ cs) =
    let rest = split_parts cs in if eqb c 46 then [] ∷ rest else put_before c rest

-- `[A-Za-z_][A-Za-z0-9_$]*`
abbrev is_part : List ℕ → Bool
is_part [] = false
is_part (c ∷ cs) = is_letter c && all_of (λ d. is_word d || eqb d 36) cs

-- `_OBJECT_PATTERN.fullmatch`
unfoldable pub is_object_name : List ℕ → Bool
unfolding split_parts
is_object_name cs = let parts = split_parts cs in all_of is_part parts && leb (length parts) 3

-- `_normalize_allowed_object`
unfoldable pub normalize_allowed_object : (String → String) → String → Result Exn String
unfolding strip
normalize_allowed_object casefold value =
    let normalized = strip (codes value) in
    if is_object_name normalized
    then ok (casefold (text_of normalized))
    else err (from_database database_object_not_allowed)

-- `_ALLOWED_FUNCTIONS`
abbrev pub allowed_functions : List String
allowed_functions =
    "abs" ∷ "avg" ∷ "ceil" ∷ "ceiling" ∷ "char_length" ∷ "coalesce" ∷ "count" ∷ "date_part"
    ∷ "extract" ∷ "floor" ∷ "greatest" ∷ "least" ∷ "length" ∷ "lower" ∷ "max" ∷ "min" ∷ "nullif"
    ∷ "round" ∷ "string_agg" ∷ "substring" ∷ "sum" ∷ "trim" ∷ "upper" ∷ []

unfoldable pub is_allowed_function : String → Bool
is_allowed_function name = is_in allowed_functions name

-- `".".join(parts)`
unfoldable pub join_parts : List String → String
join_parts [] = ""
join_parts (part ∷ []) = part
join_parts (part ∷ other ∷ parts) = String.◌++◌ part (String.◌++◌ "." (join_parts (other ∷ parts)))
