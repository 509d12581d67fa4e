-- ===== src/Client/Entries.antt =====
-- The answers about entries: `_parse_query_page`, `_parse_entry_result`, `_parse_prepared_update`,
-- `_parse_write_result`, `_parse_create_result` and `_parse_entry` of
-- src/helix_mcp/clients/arapi/client.py. `str.casefold` is an argument.
pub mod Names
pub mod Pages
use helix_mcp_gateway.Prelude.{
  ℕ, Bool, true, false, ◌&&◌, Option, none, some, List, [], ◌∷◌, String, eqb, leb, length, map,
  all_of, is_some, not,
}
use helix_mcp_gateway.Prelude.Equality.{◌==◌, string_eq}
use helix_mcp_gateway.Prelude.Distinct.{is_in}
use helix_mcp_gateway.Prelude.Dict.{Dict, lookup}
use helix_mcp_gateway.Prelude.Collect.{collect, collect_distinct}
use helix_mcp_gateway.Prelude.Attempt.{◌>>=◌, require}
use helix_mcp_gateway.Text.{codes}
use helix_mcp_gateway.Client.Decimal.{decimal_value}
use helix_mcp_gateway.Client.Json.{
  JsonValue, null, as_object, as_array, as_natural, as_text, as_safe, is_safe, get, has_exactly,
}

-- `ArapiEntry`, `ArapiQueryPage`, `ArapiEntryResult`, `ArapiPreparedUpdate`
pub record ArapiEntry : Type 0 where
  pub values : Dict String JsonValue

pub record ArapiQueryPage : Type 0 where
  pub entries : List ArapiEntry
  pub offset : ℕ
  pub limit : ℕ
  pub total : Option ℕ

pub record ArapiEntryResult : Type 0 where
  pub entry_id : String
  pub entry : ArapiEntry

pub record ArapiPreparedUpdate : Type 0 where
  pub entry_id : String
  pub entry : ArapiEntry
  pub precondition : String

abbrev is_empty : List ℕ → Bool
is_empty [] = true
is_empty (x ∷ xs) = false

-- The test of a precondition: ASCII digits, a number of seconds up to the end of the year 9999.
unfoldable pub is_precondition : String → Bool
unfolding decimal_value
is_precondition s =
    let cs = codes s in
    not (is_empty cs)
    && all_of (λ c. leb 48 c && leb c 57) cs
    && leb 1 (decimal_value 0 cs)
    && leb (decimal_value 0 cs) 253402300799

module _ (casefold : String → String) where
  -- The name of one value of an entry, which must be among the fields that were asked for.
  unfoldable pub parse_name : List String → String × JsonValue → Option (String × JsonValue)
  parse_name fields (name, value) =
      require (is_safe name 255 && is_in (map casefold fields) (casefold name)) (some (name, value))

  -- `_parse_entry`
  unfoldable pub parse_entry : List String → JsonValue → Option ArapiEntry
  parse_entry fields payload = do
    d ← as_object payload
    values ← as_object (get "values" d)
    read ←
        require (eqb (length values) (length fields))
          (collect_distinct (parse_name fields) (λ entry. casefold entry.0) values [])
    require
        (all_of (is_in (map (λ (entry : String × JsonValue). casefold entry.0) read))
          (map casefold fields))
        (some (record { values = read }))

  -- The total of a page: there is one exactly where it was asked for.
  unfoldable pub parse_total : Bool → Dict String JsonValue → Option (Option ℕ)
  parse_total true d = do total ← as_natural (get "total" d); some (some total)
  parse_total false d = require (not (is_some (lookup "total" d))) (some none)

  -- `_parse_query_page`
  unfoldable pub parse_query_page : List String → ℕ → ℕ → Bool → JsonValue → Option ArapiQueryPage
  parse_query_page fields offset limit include_total payload = do
    d ← as_object payload
    raw_entries ← as_array (get "entries" d)
    raw_offset ← as_natural (get "offset" d)
    raw_limit ← as_natural (get "limit" d)
    total ←
        require (leb (length raw_entries) limit && eqb raw_offset offset && eqb raw_limit limit)
          (parse_total include_total d)
    entries ← collect (parse_entry fields) raw_entries
    some (record { entries = entries; offset = offset; limit = limit; total = total })

  -- What the two answers about one entry read alike.
  unfoldable pub parse_entry_of : String → List String → Dict String JsonValue → Option ArapiEntry
  parse_entry_of entry_id fields d = do
    answered ← as_text (get "entry_id" d)
    payload ← lookup "entry" d
    require (answered == entry_id) (parse_entry fields payload)

  -- `_parse_entry_result`
  unfoldable pub parse_entry_result : String → List String → JsonValue → Option ArapiEntryResult
  parse_entry_result entry_id fields payload = do
    d ← as_object payload
    entry ← parse_entry_of entry_id fields d
    some (record { entry_id = entry_id; entry = entry })

  -- `_parse_prepared_update`
  unfoldable pub parse_prepared_update :
      String → List String → JsonValue → Option ArapiPreparedUpdate
  parse_prepared_update entry_id fields payload = do
    d ← as_object payload
    precondition ← as_text (get "precondition" d)
    entry ← require (is_precondition precondition) (parse_entry_of entry_id fields d)
    some (record { entry_id = entry_id; entry = entry; precondition = precondition })

-- `_parse_write_result`
unfoldable pub parse_write_result : JsonValue → Option String
parse_write_result payload = do
  d ← as_object payload
  require (has_exactly ("entry_id" ∷ []) d) (as_safe 255 (get "entry_id" d))

-- `_parse_create_result`
unfoldable pub parse_create_result : JsonValue → Option (Option String)
parse_create_result payload = do
  d ← as_object payload
  require (has_exactly ("entry_id" ∷ []) d) (elim (get "entry_id" d) [
    | null ↦ some none
    | v ↦ do entry_id ← as_safe 255 v; some (some entry_id)
  ])
