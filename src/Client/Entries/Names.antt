-- ===== src/Client/Entries/Names.antt =====
-- The entries that `_parse_entry` of src/helix_mcp/clients/arapi/client.py accepts.
use helix_mcp_gateway.Prelude.{
  ◌≡◌, refl, subst, ◌∙◌, true, false, ◌&&◌, some, List, [], ◌∷◌, String, eqb, length, All, all_of,
  all_of-All, arith, map,
}
use helix_mcp_gateway.Prelude.Equality.{string_eq}
use helix_mcp_gateway.Prelude.Distinct.{is_in, has_duplicates}
use helix_mcp_gateway.Prelude.Dict.{Dict}
use helix_mcp_gateway.Prelude.Collect.{
  AreRead, AreRead-length, collect_distinct, collect_distinct-AreReadOnce,
}
use helix_mcp_gateway.Prelude.Attempt.{require, require-some, given, given_test, given_value}
use helix_mcp_gateway.Client.Json.{JsonValue, as_object, field_of, field_read, get, is_safe}
use helix_mcp_gateway.Client.Entries.{ArapiEntry, parse_name, parse_entry}

module _ (casefold : String → String) where
  abbrev pub folded_name : String × JsonValue → String
  folded_name entry = casefold entry.0

  abbrev IsName : List String → String × JsonValue → Type 0
  IsName fields entry =
      (is_safe entry.0 255 ≡ true) × (is_in (map casefold fields) (casefold entry.0) ≡ true)

  names_of_values :
      (fields : List String) (values read : Dict String JsonValue)
      → AreRead (parse_name casefold fields) values read
      → (read ≡ values) × All (IsName fields) read
  unfolding parse_name
  names_of_values fields [] [] h = (refl, tt)
  names_of_values fields [] (r ∷ read) h = absurd h
  names_of_values fields (v ∷ values) [] h = absurd h
  names_of_values fields (v ∷ values) (r ∷ read) h =
      let (tested, same) =
        require-some (is_safe v.0 255 && is_in (map casefold fields) (casefold v.0))
          (some (v.0, v.1)) h.0 in
      let (rest, named) = names_of_values fields values read h.1 in
      let here : v ≡ r = cc same in
      (
        cc (here, rest),
        (subst (IsName fields) here (ground (arith, tested), ground (arith, tested)), named),
      )

  -- The values of an entry are those that were sent, and they are the fields that were asked for: as many,
  -- each with a safe name that is one of them, no two the same and none of them missing, where case is
  -- folded.
  pub record HasFields (fields : List String) (payload : JsonValue) (entry : ArapiEntry)
      : Type 0 where
    pub sent : field_of "values" as_object payload ≡ some entry.values
    pub counted : length entry.values ≡ length fields
    pub named : All (IsName fields) entry.values
    pub distinct : has_duplicates (map folded_name entry.values) ≡ false
    pub complete :
        All (λ field. is_in (map folded_name entry.values) field ≡ true) (map casefold fields)

  -- An entry that is accepted has the values that were sent, which are the fields that were asked for: as
  -- many, each with a safe name that is one of them, no two the same and none of them missing, where case
  -- is folded.
  pub parse_entry-HasFields :
      (fields : List String) (payload : JsonValue) (entry : ArapiEntry)
      → parse_entry casefold fields payload ≡ some entry
      → HasFields fields payload entry
  unfolding parse_entry
  parse_entry-HasFields fields payload entry h = given (as_object payload) h λ d is_object h₁.
      given (as_object (get "values" d)) h₁ λ values has_values h₂.
        given
          (require (eqb (length values) (length fields))
            (collect_distinct (parse_name casefold fields) folded_name values []))
          h₂
          λ kept h₃ h₄. given_test (eqb (length values) (length fields)) h₃ λ counted h₅.
            given_test (all_of (is_in (map folded_name kept)) (map casefold fields)) h₄
              λ complete h₆.
                let once =
                  collect_distinct-AreReadOnce (parse_name casefold fields) folded_name values []
                    kept h₅ in
                let (unchanged, named) = names_of_values fields values kept once.read in
                given_value (HasFields fields payload) h₆ (record {
                  sent =
                      field_read "values" as_object payload d is_object (has_values ∙ cc unchanged);
                  counted = ground (
                    arith,
                    counted,
                    AreRead-length (parse_name casefold fields) values kept once.read,
                  );
                  named = named;
                  distinct = once.distinct;
                  complete =
                      all_of-All (is_in (map folded_name kept)) (map casefold fields) complete;
                })
