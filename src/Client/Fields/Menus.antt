-- ===== src/Client/Fields/Menus.antt =====
-- The menus and their values that `_parse_field_menu` and `_parse_field_menu_values` of
-- src/helix_mcp/clients/arapi/client.py accept.
use helix_mcp_gateway.Prelude.{
  ℕ, ◌≡◌, refl, subst, ◌≤◌, Bool, true, false, ◌&&◌, Option, none, some, List, [], ◌∷◌, String, leb,
  length, arith, is_some,
}
use helix_mcp_gateway.Prelude.Equality.{string_eq}
use helix_mcp_gateway.Prelude.Dict.{Dict}
use helix_mcp_gateway.Prelude.Collect.{AreRead, AreRead-length, collect, collect-AreRead}
use helix_mcp_gateway.Prelude.Attempt.{
  require, bind_some, require-some, given, given_test, given_value,
}
use helix_mcp_gateway.Client.Json.{
  JsonValue, null, as_object, as_array, as_natural, as_boolean, as_choice, int_eq, get, has_exactly,
  as_normalized, as_safe, field_of, field_read,
}
use helix_mcp_gateway.Client.Fields.{
  ArapiFieldMenu, ArapiFieldMenuValues, ArapiMenuValue, max_menu_values, as_field_id, menu_name_of,
  there_with, menu_keys, parse_menu, parse_menu_value, is_consistent, is_empty,
  parse_field_menu_values, parse_field_menu,
}

-- A menu has a name and a style exactly where there is a menu, and its field has an identifier within
-- the positive 32-bit integers.
pub record IsMenu (menu : ArapiFieldMenu) : Type 0 where
  pub identified : (1 ≤ menu.id) × (menu.id ≤ 2147483647)
  pub named : is_some menu.menu_name ≡ menu.has_menu
  pub styled : is_some menu.menu_style ≡ menu.has_menu

pub as_field_id-bounds :
    (v : JsonValue) (n : ℕ) → as_field_id v ≡ some n → (1 ≤ n) × (n ≤ 2147483647)
as_field_id-bounds v n h =
    let (m, _, h₁) =
      bind_some (as_natural v) (λ m. require (leb 1 m && leb m 2147483647) (some m)) h in
    let (tested, h₂) = require-some (leb 1 m && leb m 2147483647) (some m) h₁ in
    let same : m ≡ n = cc h₂ in
    subst (λ n. (1 ≤ n) × (n ≤ 2147483647)) same (ground (arith, tested), ground (arith, tested))

menu_name_there :
    (has_menu : Bool) (v : JsonValue) (name : Option String)
    → menu_name_of has_menu v ≡ some name
    → is_some name ≡ has_menu
menu_name_there true v name h =
    let (s, _, h₁) = bind_some (as_normalized 255 v) (λ s. some (some s)) h in
    let same : some s ≡ name = cc h₁ in subst (λ name. is_some name ≡ true) same refl
menu_name_there false null name h =
    let same : none ≡ name = cc h in subst (λ name. is_some name ≡ false) same refl
menu_name_there false _ name h = absurd (cc h)

there_with-is_some :
    (has_menu : Bool) (choice : Option String)
    → there_with has_menu choice ≡ true
    → is_some choice ≡ has_menu
there_with-is_some true choice h = h
there_with-is_some false choice h = ground (arith, h)

pub parse_menu-IsMenu :
    (d : Dict String JsonValue) (menu : ArapiFieldMenu) → parse_menu d ≡ some menu → IsMenu menu
unfolding parse_menu
parse_menu-IsMenu d menu h = given (as_field_id (get "id" d)) h λ field_id is_id h₁.
    given (as_normalized 255 (get "name" d)) h₁ λ name _ h₂.
      given (as_safe 64 (get "datatype" d)) h₂ λ datatype _ h₃.
        given (as_boolean (get "has_menu" d)) h₃ λ has_menu _ h₄.
          given (as_choice ("append" ∷ "overwrite" ∷ []) (get "menu_style" d)) h₄ λ menu_style _ h₅.
            given (menu_name_of has_menu (get "menu_name" d)) h₅ λ menu_name is_menu_name h₆.
              given_test (there_with has_menu menu_style) h₆ λ there h₇.
                given_value IsMenu h₇ (record {
                  identified = as_field_id-bounds (get "id" d) field_id is_id;
                  named = menu_name_there has_menu (get "menu_name" d) menu_name is_menu_name;
                  styled = there_with-is_some has_menu menu_style there;
                })

-- A menu that is accepted has a name and a style exactly where the payload says that there is a menu, and
-- its field has an identifier from 1 to 2,147,483,647.
pub parse_field_menu-IsMenu :
    (payload : JsonValue) (menu : ArapiFieldMenu)
    → parse_field_menu payload ≡ some menu
    → IsMenu menu
unfolding parse_field_menu
parse_field_menu-IsMenu payload menu h =
    given (as_object payload) h
      λ d _ h₁. given_test (has_exactly menu_keys d) h₁ λ _ h₂. parse_menu-IsMenu d menu h₂

-- The values of a menu are consistent with the menu, and within the limit that was asked for.
pub record AreMenuValues (expected_limit : ℕ) (payload : JsonValue) (result : ArapiFieldMenuValues)
    : Type 0 where
  pub menu : IsMenu result.menu
  pub typed : is_some result.menu_type ≡ result.menu.has_menu
  pub raw : List JsonValue
  pub sent : field_of "values" as_array payload ≡ some raw
  pub read : AreRead parse_menu_value raw result.values
  pub of_limit : result.limit ≡ expected_limit
  pub bounded : (length result.values ≤ expected_limit) × (expected_limit ≤ max_menu_values)
  pub none_without_menu :
      result.menu.has_menu ≡ false → (result.values ≡ []) × (result.truncated ≡ false)

module _ (expected_limit : ℕ) (d : Dict String JsonValue) (menu : ArapiFieldMenu)
    (menu_type : Option String) (raw_values : List JsonValue) (limit : ℕ) (truncated : Bool)
    (h : is_consistent expected_limit d menu menu_type raw_values limit truncated ≡ true) where
  consistent_type : there_with menu.has_menu menu_type ≡ true
  unfolding is_consistent
  consistent_type = ground (arith, h)

  consistent_limit :
      (limit ≡ expected_limit)
      × (length raw_values ≤ expected_limit)
      × (expected_limit ≤ max_menu_values)
  unfolding is_consistent
  consistent_limit = (ground (arith, h), ground (arith, h), ground (arith, h))

  consistent_without_menu :
      menu.has_menu ≡ false → (is_empty raw_values ≡ true) × (truncated ≡ false)
  unfolding is_consistent
  consistent_without_menu e = (ground (arith, h, e), ground (arith, h, e))

none_from_none :
    (raw : List JsonValue) (values : List ArapiMenuValue)
    → AreRead parse_menu_value raw values
    → is_empty raw ≡ true
    → values ≡ []
none_from_none [] [] h e = refl
none_from_none [] (v ∷ values) h e = absurd h
none_from_none (x ∷ raw) values h e = absurd (cc e)

-- Values of a menu that are accepted are read from the list of the payload, one from each item in order,
-- at most as many as the limit that was asked for, which is at most 500. The menu has a name, a style and
-- a type exactly where there is a menu; where there is none, there are no values and they are not cut.
pub parse_field_menu_values-AreMenuValues :
    (expected_limit : ℕ) (payload : JsonValue) (result : ArapiFieldMenuValues)
    → parse_field_menu_values expected_limit payload ≡ some result
    → AreMenuValues expected_limit payload result
unfolding parse_field_menu_values
parse_field_menu_values-AreMenuValues expected_limit payload result h =
    given (as_object payload) h λ d is_object h₁. given (parse_menu d) h₁ λ menu is_menu h₂.
      given
        (as_choice ("list" ∷ "query" ∷ "file" ∷ "sql" ∷ "server_side" ∷ "data_dictionary" ∷ [])
          (get "menu_type" d))
        h₂
        λ menu_type _ h₃. given (as_array (get "values" d)) h₃ λ raw_values has_values h₄.
          given (as_natural (get "limit" d)) h₄ λ limit _ h₅.
            given (as_boolean (get "truncated" d)) h₅ λ truncated _ h₆.
              given
                (require (is_consistent expected_limit d menu menu_type raw_values limit truncated)
                  (collect parse_menu_value raw_values))
                h₆
                λ values h₇ h₈.
                  given_test
                    (is_consistent expected_limit d menu menu_type raw_values limit truncated) h₇
                    λ tested h₉.
                      let reads = collect-AreRead parse_menu_value raw_values values h₉ in
                      let one_each = AreRead-length parse_menu_value raw_values values reads in
                      let (same_limit, within, up_to) =
                        consistent_limit expected_limit d menu menu_type raw_values limit truncated
                          tested in
                      given_value (AreMenuValues expected_limit payload) h₈ (record {
                        menu = parse_menu-IsMenu d menu is_menu;
                        typed = there_with-is_some menu.has_menu menu_type (
                            consistent_type expected_limit d menu menu_type raw_values limit
                              truncated tested);
                        raw = raw_values;
                        sent = field_read "values" as_array payload d is_object has_values;
                        read = reads;
                        of_limit = same_limit;
                        bounded = (omega (arith, one_each, within), up_to);
                        none_without_menu = λ no_menu.
                            let (nothing, whole) =
                              consistent_without_menu expected_limit d menu menu_type raw_values
                                limit truncated tested no_menu in
                            (none_from_none raw_values values reads nothing, whole);
                      })
