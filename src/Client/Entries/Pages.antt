-- ===== src/Client/Entries/Pages.antt =====
-- The pages of entries and the prepared updates that src/helix_mcp/clients/arapi/client.py accepts.
use helix_mcp_gateway.Prelude.{
  ℕ, ◌≡◌, refl, ap, subst, ◌∙◌, ◌≤◌, Bool, true, false, ◌&&◌, Option, none, some, List, [], ◌∷◌,
  String, eqb, leb, length, All, all_of, arith, is_some, not,
}
use helix_mcp_gateway.Prelude.Equality.{◌==◌, string_eq}
use helix_mcp_gateway.Prelude.Dict.{Dict, lookup}
use helix_mcp_gateway.Prelude.Collect.{AreRead, AreRead-length, collect, collect-AreRead}
use helix_mcp_gateway.Prelude.Attempt.{
  require, bind_some, require-some, given, given_test, given_value,
}
use helix_mcp_gateway.Text.{codes}
use helix_mcp_gateway.Client.Decimal.{decimal_value}
use helix_mcp_gateway.Client.Json.{
  JsonValue, as_object, field_of, field_read, as_array, as_natural, as_text, get,
}
use helix_mcp_gateway.Client.Entries.{
  ArapiEntry, ArapiQueryPage, ArapiPreparedUpdate, parse_entry, parse_total, parse_query_page,
  parse_entry_of, parse_prepared_update, is_precondition,
}
use helix_mcp_gateway.Client.Entries.Names.{HasFields, parse_entry-HasFields}

module _ (casefold : String → String) where
  abbrev AreEntries : List String → List JsonValue → List ArapiEntry → Type 0
  AreEntries fields [] [] = Unit
  AreEntries fields (x ∷ raw) (entry ∷ entries) =
      HasFields casefold fields x entry × AreEntries fields raw entries
  AreEntries fields _ _ = ⊥

  entries_have_fields :
      (fields : List String) (raw : List JsonValue) (entries : List ArapiEntry)
      → AreRead (parse_entry casefold fields) raw entries
      → AreEntries fields raw entries
  entries_have_fields fields [] [] h = tt
  entries_have_fields fields [] (entry ∷ entries) h = absurd h
  entries_have_fields fields (x ∷ raw) [] h = absurd h
  entries_have_fields fields (x ∷ raw) (entry ∷ entries) h = (
    parse_entry-HasFields casefold fields x entry h.0,
    entries_have_fields fields raw entries h.1,
  )

  -- A page with the entries that were sent, in order and with the fields that were asked for, at most as
  -- many as the limit; its offset and its limit are those that were asked for and those of the payload, and
  -- it has a total exactly where one was asked for.
  pub record IsPage (fields : List String) (offset limit : ℕ) (include_total : Bool)
      (payload : JsonValue) (page : ArapiQueryPage) : Type 0 where
    pub raw : List JsonValue
    pub sent : field_of "entries" as_array payload ≡ some raw
    pub entries : AreEntries fields raw page.entries
    pub bounded : length page.entries ≤ limit
    pub at_offset : (page.offset ≡ offset) × (field_of "offset" as_natural payload ≡ some offset)
    pub of_limit : (page.limit ≡ limit) × (field_of "limit" as_natural payload ≡ some limit)
    pub with_total : is_some page.total ≡ include_total

  total_asked :
      (include_total : Bool) (d : Dict String JsonValue) (total : Option ℕ)
      → parse_total casefold include_total d ≡ some total
      → is_some total ≡ include_total
  unfolding parse_total
  total_asked true d total h =
      let (n, _, h₁) = bind_some (as_natural (get "total" d)) (λ total. some (some total)) h in
      let same : some n ≡ total = cc h₁ in subst (λ total. is_some total ≡ true) same refl
  total_asked false d total h =
      let (_, h₁) = require-some (not (is_some (lookup "total" d))) (some none) h in
      let same : none ≡ total = cc h₁ in subst (λ total. is_some total ≡ false) same refl

  -- A page that is accepted has the entries that were sent, in order and each with exactly the fields that
  -- were asked for, at most as many as the limit; its offset and its limit are those that were asked for
  -- and those of the payload, and it has a total exactly where one was asked for.
  pub parse_query_page-IsPage :
      (fields : List String) (offset limit : ℕ) (include_total : Bool) (payload : JsonValue)
      (page : ArapiQueryPage)
      → parse_query_page casefold fields offset limit include_total payload ≡ some page
      → IsPage fields offset limit include_total payload page
  unfolding parse_query_page
  parse_query_page-IsPage fields offset limit include_total payload page h =
      given (as_object payload) h λ d is_object h₁.
        given (as_array (get "entries" d)) h₁ λ raw has_entries h₂.
          given (as_natural (get "offset" d)) h₂ λ raw_offset has_offset h₃.
            given (as_natural (get "limit" d)) h₃ λ raw_limit has_limit h₄.
              let test = leb (length raw) limit && eqb raw_offset offset && eqb raw_limit limit in
              given (require test (parse_total casefold include_total d)) h₄ λ total h₅ h₆.
                given_test test h₅ λ tested has_total.
                  given (collect (parse_entry casefold fields) raw) h₆ λ entries h₇ h₈.
                    let reads = collect-AreRead (parse_entry casefold fields) raw entries h₇ in
                    let same_offset : raw_offset ≡ offset = ground (arith, tested) in
                    let same_limit : raw_limit ≡ limit = ground (arith, tested) in
                    given_value (IsPage fields offset limit include_total payload) h₈ (record {
                      raw = raw;
                      sent = field_read "entries" as_array payload d is_object has_entries;
                      entries = entries_have_fields fields raw entries reads;
                      bounded = ground (
                        arith,
                        tested,
                        AreRead-length (parse_entry casefold fields) raw entries reads,
                      );
                      at_offset = (
                        refl,
                        field_read "offset" as_natural payload d is_object
                            (has_offset ∙ ap some same_offset),
                      );
                      of_limit = (
                        refl,
                        field_read "limit" as_natural payload d is_object
                            (has_limit ∙ ap some same_limit),
                      );
                      with_total = total_asked include_total d total has_total;
                    })

  -- An entry that was read for an update: the entry that was asked for, with the fields that were asked
  -- for, and a precondition that is the decimal text of a number of seconds from 1 to 253,402,300,799.
  pub record IsPrepared (entry_id : String) (fields : List String) (payload : JsonValue)
      (prepared : ArapiPreparedUpdate) : Type 0 where
    pub of_entry :
        (prepared.entry_id ≡ entry_id)
        × (field_of "entry_id" as_text payload ≡ some prepared.entry_id)
    pub precondition_sent : field_of "precondition" as_text payload ≡ some prepared.precondition
    pub decimal : All (λ c. (48 ≤ c) × (c ≤ 57)) (codes prepared.precondition)
    pub bounded :
        (1 ≤ decimal_value 0 (codes prepared.precondition))
        × (decimal_value 0 (codes prepared.precondition) ≤ 253402300799)
    pub sent : JsonValue
    pub has_fields : HasFields casefold fields sent prepared.entry

  only_digits :
      (cs : List ℕ)
      → all_of (λ c. leb 48 c && leb c 57) cs ≡ true
      → All (λ c. (48 ≤ c) × (c ≤ 57)) cs
  only_digits [] h = tt
  only_digits (c ∷ cs) h =
      ((ground (arith, h), ground (arith, h)), only_digits cs (ground (arith, h)))

  is_precondition-bounds :
      (s : String)
      → is_precondition s ≡ true
      → All (λ c. (48 ≤ c) × (c ≤ 57)) (codes s)
        × (1 ≤ decimal_value 0 (codes s))
        × (decimal_value 0 (codes s) ≤ 253402300799)
  unfolding is_precondition
  is_precondition-bounds s h =
      (only_digits (codes s) (ground (arith, h)), ground (arith, h), ground (arith, h))

  -- A prepared update that is accepted is of the entry that was asked for, with exactly the fields that were
  -- asked for; its precondition is the one that was sent, of ASCII digits and with a value from 1 to
  -- 253,402,300,799.
  pub parse_prepared_update-IsPrepared :
      (entry_id : String) (fields : List String) (payload : JsonValue)
      (prepared : ArapiPreparedUpdate)
      → parse_prepared_update casefold entry_id fields payload ≡ some prepared
      → IsPrepared entry_id fields payload prepared
  unfolding parse_prepared_update parse_entry_of
  parse_prepared_update-IsPrepared entry_id fields payload prepared h =
      given (as_object payload) h λ d is_object h₁.
        given (as_text (get "precondition" d)) h₁ λ precondition has_precondition h₂.
          given (require (is_precondition precondition) (parse_entry_of casefold entry_id fields d))
            h₂
            λ entry h₃ h₄. given_test (is_precondition precondition) h₃ λ tested h₅.
              given (as_text (get "entry_id" d)) h₅ λ answered has_id h₆.
                given (lookup "entry" d) h₆ λ sent _ h₇.
                  given_test (answered == entry_id) h₇ λ same_id h₈.
                    let same : answered ≡ entry_id =
                      (string_eq.reflects answered entry_id).0 same_id in
                    let (decimal, positive, in_range) =
                      is_precondition-bounds precondition tested in
                    given_value (IsPrepared entry_id fields payload) h₄ (record {
                      of_entry = (
                        refl,
                        field_read "entry_id" as_text payload d is_object (has_id ∙ ap some same),
                      );
                      precondition_sent =
                          field_read "precondition" as_text payload d is_object has_precondition;
                      decimal = decimal;
                      bounded = (positive, in_range);
                      sent = sent;
                      has_fields = parse_entry-HasFields casefold fields sent entry h₈;
                    })
