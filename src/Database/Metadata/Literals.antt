-- ===== src/Database/Metadata/Literals.antt =====
-- How the SQL of src/helix_mcp/services/database/metadata.py is read: the values that a caller gives stay
-- literals of it.
use Prim.Native.Char.{code}
use mathlib.Core.List.{append-nil, append_assoc}
use helix_mcp_gateway.Prelude.{
  ℕ, ◌≡◌, refl, sym, ap, subst, ◌∙◌, Bool, true, false, List, [], ◌∷◌, ◌++◌, String, eqb,
  if◌then◌else◌, Bool-cases, inl, inr, arith, not,
}
use helix_mcp_gateway.Text.{append, codes}
use helix_mcp_gateway.Database.Metadata.{doubled, sql_literal, object_select, object_sql}

-- What a reader of SQL sees: characters outside of literals, and the values of literals.
pub data Token : Type 0 where
  outside : ℕ → Token
  literal : List ℕ → Token
  unfinished : Token

-- Where the reader is: outside, in a literal, or after a quote in a literal, which ends it or is doubled.
pub data Place : Type 0 where
  out : Place
  within after_quote : List ℕ → Place

abbrev pub next : Place → ℕ → Place
next out c = if eqb c 39 then within [] else out
next (within value) c = if eqb c 39 then after_quote value else within (value ++ (c ∷ []))
next (after_quote value) c = if eqb c 39 then within (value ++ (39 ∷ [])) else out

abbrev pub seen : Place → ℕ → List Token
seen out c = if eqb c 39 then [] else outside c ∷ []
seen (within value) c = []
seen (after_quote value) c = if eqb c 39 then [] else literal value ∷ outside c ∷ []

abbrev pub at_end : Place → List Token
at_end out = []
at_end (within value) = unfinished ∷ []
at_end (after_quote value) = literal value ∷ []

-- The tokens of a text, read from a place on.
unfoldable pub tokens : Place → List ℕ → List Token
tokens place [] = at_end place
tokens place (c ∷ cs) = seen place c ++ tokens (next place c) cs

unfoldable pub place_after : Place → List ℕ → Place
place_after place [] = place
place_after place (c ∷ cs) = place_after (next place c) cs

pub codes-append : (s t : String) → codes (append s t) ≡ codes s ++ codes t
codes-append String.[] t = refl
codes-append (String.◌∷◌ c s) t = ap (λ cs. code c ∷ cs) (codes-append s t)

-- A text that ends outside of literals is read on its own.
pub tokens-append :
    (place : Place) (xs ys : List ℕ)
    → place_after place xs ≡ out
    → tokens place (xs ++ ys) ≡ tokens place xs ++ tokens out ys
unfolding tokens place_after
tokens-append place [] ys h = subst (λ p. tokens p ys ≡ at_end p ++ tokens out ys) (sym h) refl
tokens-append place (x ∷ xs) ys h =
    ap (λ l. seen place x ++ l) (tokens-append (next place x) xs ys h)
    ∙ sym (append_assoc (seen place x) (tokens (next place x) xs) (tokens out ys))

tokens_of_quotes :
    (value : List ℕ) (c : ℕ) (rest : List ℕ)
    → 39 ≡ c
    → tokens (within value) (c ∷ c ∷ rest) ≡ tokens (within (value ++ (39 ∷ []))) rest
unfolding tokens
tokens_of_quotes value c rest h =
    subst (λ c. tokens (within value) (c ∷ c ∷ rest) ≡ tokens (within (value ++ (39 ∷ []))) rest) h
      refl

tokens_of_other :
    (value : List ℕ) (c : ℕ) (rest : List ℕ)
    → eqb c 39 ≡ false
    → tokens (within value) (c ∷ rest) ≡ tokens (within (value ++ (c ∷ []))) rest
unfolding tokens
tokens_of_other value c rest h = rw h refl

-- A doubled text is read as the text.
tokens-doubled :
    (value : List ℕ) (s : String) (rest : List ℕ)
    → tokens (within value) (codes (doubled s) ++ rest) ≡ tokens (within (value ++ codes s)) rest
unfolding tokens
tokens-doubled value String.[] rest = ap (λ v. tokens (within v) rest) (sym (append-nil value))
tokens-doubled value (String.◌∷◌ c s) rest = elim (Bool-cases (eqb (code c) 39)) [
  | inl e ↦
      let quote : 39 ≡ code c = ground (arith, e) in
      rw e (
        tokens_of_quotes value (code c) (codes (doubled s) ++ rest) quote
        ∙ tokens-doubled (value ++ (39 ∷ [])) s rest
        ∙ ap (λ v. tokens (within v) rest)
            (append_assoc value (39 ∷ []) (codes s) ∙ ap (λ d. value ++ (d ∷ codes s)) quote))
  | inr e ↦ rw e (
      tokens_of_other value (code c) (codes (doubled s) ++ rest) e
      ∙ tokens-doubled (value ++ (code c ∷ [])) s rest
      ∙ ap (λ v. tokens (within v) rest) (append_assoc value (code c ∷ []) (codes s)))
]

-- What follows a literal begins with another character than a quote, or there is nothing more.
unfoldable pub is_plain : List ℕ → Bool
is_plain [] = true
is_plain (c ∷ cs) = not (eqb c 39)

tokens-after_quote :
    (value rest : List ℕ)
    → is_plain rest ≡ true
    → tokens (after_quote value) rest ≡ literal value ∷ tokens out rest
unfolding tokens is_plain
tokens-after_quote value [] h = refl
tokens-after_quote value (c ∷ rest) h =
    let other : eqb c 39 ≡ false = ground (arith, h) in rw other refl

-- A literal is read as its value, whatever the value is, and what follows is read on its own.
pub tokens-sql_literal :
    (value : String) (rest : List ℕ)
    → is_plain rest ≡ true
    → tokens out (codes (sql_literal value) ++ rest) ≡ literal (codes value) ∷ tokens out rest
unfolding tokens sql_literal
tokens-sql_literal value rest h =
    ap (λ cs. tokens (within []) (cs ++ rest)) (codes-append (doubled value) "'")
    ∙ ap (λ cs. tokens (within []) cs) (append_assoc (codes (doubled value)) (39 ∷ []) rest)
    ∙ tokens-doubled [] value (39 ∷ rest)
    ∙ tokens-after_quote (codes value) rest h

-- Fixed text that ends outside of literals, before a literal.
tokens_before :
    (fixed : String) (value : String) (rest : List ℕ)
    → place_after out (codes fixed) ≡ out
    → is_plain rest ≡ true
    → tokens out (codes fixed ++ (codes (sql_literal value) ++ rest))
      ≡ tokens out (codes fixed) ++ (literal (codes value) ∷ tokens out rest)
tokens_before fixed value rest ends plain =
    tokens-append out (codes fixed) (codes (sql_literal value) ++ rest) ends
    ∙ ap (λ ts. tokens out (codes fixed) ++ ts) (tokens-sql_literal value rest plain)

-- The fixed text before the schema in the SQL of `_resolve_object`, and the text before the name.
abbrev pub before_schema : String
unfolding object_select
before_schema = append object_select "\n  AND n.nspname = "

abbrev pub before_name : String
before_name = "\n  AND c.relname = "

object_sql-codes :
    (schema object_name : String)
    → codes (object_sql schema object_name)
      ≡ codes before_schema
        ++ (codes (sql_literal schema)
            ++ (codes before_name ++ (codes (sql_literal object_name) ++ [])))
unfolding object_sql before_schema
object_sql-codes schema object_name =
    let name_line = append before_name (append (sql_literal object_name) "") in
    ap (λ cs. codes before_schema ++ cs)
      (codes-append (sql_literal schema) name_line
        ∙ ap (λ cs. codes (sql_literal schema) ++ (codes before_name ++ cs))
            (codes-append (sql_literal object_name) ""))

before_schema-out : place_after out (codes before_schema) ≡ out
unfolding place_after before_schema
before_schema-out = refl

before_name-out : place_after out (codes before_name) ≡ out
unfolding place_after
before_name-out = refl

nothing_left : tokens out [] ≡ []
unfolding tokens
nothing_left = refl

-- Whatever schema and name a caller gives, a reader of the SQL of `_resolve_object` sees the same fixed text,
-- and between its parts the schema and the name as the values of two literals.
pub object_sql-tokens :
    (schema object_name : String)
    → tokens out (codes (object_sql schema object_name))
      ≡ tokens out (codes before_schema)
        ++ (literal (codes schema)
            ∷ (tokens out (codes before_name) ++ (literal (codes object_name) ∷ [])))
unfolding is_plain
object_sql-tokens schema object_name =
    ap (tokens out) (object_sql-codes schema object_name)
    ∙ tokens_before before_schema schema
        (codes before_name ++ (codes (sql_literal object_name) ++ [])) before_schema-out refl
    ∙ ap (λ ts. tokens out (codes before_schema) ++ (literal (codes schema) ∷ ts))
        (tokens_before before_name object_name [] before_name-out refl
          ∙ ap (λ ts. tokens out (codes before_name) ++ (literal (codes object_name) ∷ ts))
              nothing_left)
