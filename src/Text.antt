-- ===== src/Text.antt =====
-- What the program uses of Python's `str`: white space, and the test `needle in text`.
use Prim.Native.Char.{Char, char, nul, code}
use Prim.Native.Nat.{compare, Ordering}
use text.Mathlib.Text.{find?}
use helix_mcp_gateway.Prelude.{
  ◌≡◌, refl, ℕ, Bool, ◌||◌, ◌&&◌, List, [], ◌∷◌, String, leb, all_of, is_some, if◌then◌else◌,
}

-- The code points of a text.
abbrev pub codes : String → List ℕ
codes String.[] = []
codes (String.◌∷◌ c s) = code c ∷ codes s

abbrev pub between : ℕ → ℕ → ℕ → Bool
between low high c = leb low c && leb c high

-- `str.isspace` of one character, the characters that `strip` takes off.
unfoldable pub is_space : ℕ → Bool
is_space c =
    between 0x09 0x0d c
    || between 0x1c 0x20 c
    || between 0x85 0x85 c
    || between 0xa0 0xa0 c
    || between 0x1680 0x1680 c
    || between 0x2000 0x200a c
    || between 0x2028 0x2029 c
    || between 0x202f 0x202f c
    || between 0x205f 0x205f c
    || between 0x3000 0x3000 c

-- `not text.strip()`
unfoldable pub is_blank : String → Bool
unfolding is_space
is_blank s = all_of is_space (codes s)

-- `first + second`
abbrev pub append : String → String → String
append String.[] second = second
append (String.◌∷◌ c first) second = String.◌∷◌ c (append first second)

-- `separator.join(texts)`
abbrev pub join : String → List String → String
join separator [] = ""
join separator (s ∷ texts) = append s (joined separator texts)
  where
    joined : String → List String → String
    joined separator [] = ""
    joined separator (s ∷ texts) = append separator (append s (joined separator texts))

-- `needle in text`
unfoldable pub contains : String → String → Bool
contains needle text = is_some (find? text needle)

-- The character of a code point; of a number that is none, the null character.
char_of : ℕ → Char
char_of n = below (compare n 55296) refl
  where
    below : (o : Ordering) → compare n 55296 ≡ o → Char
    below Ordering.lt e = char n (rw e tt)
    below o e = above o (compare 57343 n) (compare n 1114112) e refl refl
      where
        above :
            (o p q : Ordering)
            → compare n 55296 ≡ o
            → compare 57343 n ≡ p
            → compare n 1114112 ≡ q
            → Char
        above Ordering.gt Ordering.lt Ordering.lt e f g = char n (rw (e, f, g) tt)
        above _ _ _ e f g = nul

-- The text of code points.
unfoldable pub text_of : List ℕ → String
unfolding char_of
text_of [] = String.[]
text_of (n ∷ ns) = String.◌∷◌ (char_of n) (text_of ns)

abbrev strip_left : List ℕ → List ℕ
strip_left [] = []
strip_left (c ∷ cs) = let rest = strip_left cs in if is_space c then rest else c ∷ cs

-- White space at the end goes: what is left after each character is known first.
abbrev strip_right : List ℕ → List ℕ
strip_right [] = []
strip_right (c ∷ cs) = keep_first c (strip_right cs)
  where
    keep_first : ℕ → List ℕ → List ℕ
    keep_first c [] = if is_space c then [] else c ∷ []
    keep_first c (d ∷ ds) = c ∷ d ∷ ds

-- `str.strip`
unfoldable pub strip : List ℕ → List ℕ
unfolding is_space
strip cs = strip_right (strip_left cs)

-- `text.strip()`
unfoldable pub stripped : String → String
unfolding strip text_of
stripped s = text_of (strip (codes s))
