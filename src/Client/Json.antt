-- ===== src/Client/Json.antt =====
-- The JSON values that src/helix_mcp/clients/arapi/client.py reads, and its tests of them. A parser gives
-- nothing where the source raises.
use helix_mcp_gateway.Prelude.{
  ℕ, ◌≡◌, ◌∙◌, ◌↔◌, Bool, true, not, ◌&&◌, ◌||◌, Option, none, some, List, [], ◌∷◌, String, all_of,
  any_of, eqb, leb, ltb, length, map, arith, if◌then◌else◌,
}
use helix_mcp_gateway.Prelude.Equality.{Eq, ◌==◌, string_eq}
use helix_mcp_gateway.Prelude.Distinct.{is_in}
use helix_mcp_gateway.Prelude.Dict.{Dict, lookup}
use helix_mcp_gateway.Prelude.Attempt.{◌>>=◌, require, some_step}
use helix_mcp_gateway.Text.{codes, strip, stripped}
use helix_mcp_gateway.Writes.Models.{JsonInt, Float}

mutual
  pub data JsonValue : Type 0 where
    null : JsonValue
    boolean : Bool → JsonValue
    integer : JsonInt → JsonValue
    number : Float → JsonValue
    text : String → JsonValue
    array : Items → JsonValue
    object : Members → JsonValue

  pub data Items : Type 0 where
    no_items : Items
    item : JsonValue → Items → Items

  pub data Members : Type 0 where
    no_members : Members
    member : String → JsonValue → Members → Members

abbrev pub items_of : Items → List JsonValue
items_of no_items = []
items_of (item v vs) = v ∷ items_of vs

abbrev pub members_of : Members → Dict String JsonValue
members_of no_members = []
members_of (member k v ms) = (k, v) ∷ members_of ms

-- `isinstance(value, dict)`, and so on for the other types. `_is_integer` leaves out the Booleans, which
-- are values of their own here.
abbrev pub as_object : JsonValue → Option (Dict String JsonValue)
as_object v = elim v [ object ms ↦ some (members_of ms) | _ ↦ none ]

abbrev pub as_array : JsonValue → Option (List JsonValue)
as_array v = elim v [ array vs ↦ some (items_of vs) | _ ↦ none ]

abbrev pub as_text : JsonValue → Option String
as_text v = elim v [ text s ↦ some s | _ ↦ none ]

abbrev pub as_boolean : JsonValue → Option Bool
as_boolean v = elim v [ boolean b ↦ some b | _ ↦ none ]

abbrev pub as_integer : JsonValue → Option JsonInt
as_integer v = elim v [ integer i ↦ some i | _ ↦ none ]

-- An integer that is not negative; -0 is 0.
abbrev pub natural_of : JsonInt → Option ℕ
natural_of i = if i.negative && not (eqb i.magnitude 0) then none else some i.magnitude

abbrev pub as_natural : JsonValue → Option ℕ
as_natural v = as_integer v >>= natural_of

-- `payload.get(key)`, which is `None` for a key that is missing.
abbrev pub get : String → Dict String JsonValue → JsonValue
get key d = elim (lookup key d) [ none ↦ null | some v ↦ v ]

-- What is read under a key of a payload that is an object.
abbrev pub field_of : {A : Type 0} → String → (JsonValue → Option A) → JsonValue → Option A
field_of key read payload = as_object payload >>= λ d. read (get key d)

pub field_read :
    {A : Type 0} (key : String) (read : JsonValue → Option A) (payload : JsonValue)
    (d : Dict String JsonValue) {value : A}
    → as_object payload ≡ some d
    → read (get key d) ≡ some value
    → field_of key read payload ≡ some value
field_read key read payload d is_object h =
    some_step (as_object payload) (λ d. read (get key d)) d is_object ∙ h

-- `set(payload) == {...}`
unfoldable pub has_exactly : {V : Type 0} → List String → Dict String V → Bool
has_exactly keys d =
    all_of (λ (entry : String × _). is_in keys entry.0) d
    && all_of (is_in (map (λ (entry : String × _). entry.0) d)) keys

-- `_contains_control_characters`
unfoldable pub contains_control_characters : String → Bool
contains_control_characters s = any_of (λ c. ltb c 32 || eqb c 127) (codes s)

-- `_is_normalizable_text` of a text
unfoldable pub is_normalizable : String → ℕ → Bool
unfolding strip contains_control_characters
is_normalizable s maximum =
    let size = length (strip (codes s)) in
    leb 1 size && leb size maximum && not (contains_control_characters s)

-- `_is_safe_text` of a text
unfoldable pub is_safe : String → ℕ → Bool
unfolding is_normalizable stripped
is_safe s maximum = is_normalizable s maximum && s == stripped s

-- A text that is normalizable, without the white space around it.
abbrev pub as_normalized : ℕ → JsonValue → Option String
as_normalized maximum v = do s ← as_text v; require (is_normalizable s maximum) (some (stripped s))

abbrev pub as_safe : ℕ → JsonValue → Option String
as_safe maximum v = do s ← as_text v; require (is_safe s maximum) (some s)

-- `value in (None, ...)`, of some texts
abbrev pub as_choice : List String → JsonValue → Option (Option String)
as_choice choices v = elim v [
  | null ↦ some none
  | text s ↦ if is_in choices s then some (some s) else none
  | _ ↦ none
]

-- The range of a signed 32-bit integer.
abbrev pub is_int32 : JsonInt → Bool
is_int32 i = if i.negative then leb i.magnitude 2147483648 else leb i.magnitude 2147483647

abbrev pub as_int32 : JsonValue → Option JsonInt
as_int32 v = do i ← as_integer v; require (is_int32 i) (some i)

abbrev pub int_equal : JsonInt → JsonInt → Bool
int_equal i j = (if i.negative then j.negative else not j.negative) && eqb i.magnitude j.magnitude

pub int_equal_iff : (i j : JsonInt) → (int_equal i j ≡ true) ↔ (i ≡ j)
int_equal_iff i j = (λ h. ground (arith, h), λ h. ground (arith, h))

instance abbrev pub int_eq : Eq JsonInt
int_eq = record { equal = int_equal; reflects = int_equal_iff }
