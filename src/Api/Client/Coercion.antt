-- ===== src/Api/Client/Coercion.antt =====
-- `_coerce_value` and the conversions it makes before a write.
use ha_wattpilot.Base.{
  ℕ, ◌+◌, Bool, true, false, ◌&&◌, ◌||◌, Option, none, some, List, [], ◌∷◌, map, Text, codes,
  text_eq, leb, if◌then◌else◌, ℤ, pos, take, length,
}
use ha_wattpilot.Json.{
  Value, null, bool, int, float, text, dict, namespace, Dict, get, get_else, equals_int, is_integer,
  truncate, truthy,
}
use ha_wattpilot.Api.Errors.{cannot_convert, property_error}
use ha_wattpilot.Api.Library.{Library}
use ha_wattpilot.Api.Client.State.{
  wattpilot_raised, other_raised, value_raised, Outcome, ok, raised,
}

-- `str.lower()` as far as an ASCII word can come out of it.
abbrev lower : ℕ → ℕ
lower c = if leb b'A' c && leb c b'Z' then c + 32 else c

unfoldable pub one_of : Text → List Text → Bool
one_of s [] = false
one_of s (w ∷ ws) = text_eq s w || one_of s ws

-- `_BOOL_WORDS`
abbrev true_words : List Text
true_words = codes "true" ∷ codes "1" ∷ codes "yes" ∷ []

abbrev false_words : List Text
false_words = codes "false" ∷ codes "0" ∷ codes "no" ∷ []

unfoldable pub bool_word : Text → Option Bool
unfolding one_of
bool_word s =
    if one_of (map lower s) true_words
    then some true
    else if one_of (map lower s) false_words
    then some false
    else none

abbrev refuse : Value → Text → Text → Outcome Value
refuse v target name = raised (wattpilot_raised (property_error (cannot_convert v target name)))

-- The last test of `_as_bool`.
unfoldable pub bool_of_number : Value → Text → Outcome Value
bool_of_number v name =
    if equals_int v (pos 0) || equals_int v (pos 1)
    then ok (bool (truthy v))
    else refuse v (codes "bool") name

unfoldable pub as_bool : Value → Text → Outcome Value
unfolding bool_word bool_of_number
as_bool (bool b) name = ok (bool b)
as_bool (text s) name = elim (bool_word s) [
  | some b ↦ ok (bool b)
  | none ↦ bool_of_number (text s) name
]
as_bool v name = bool_of_number v name

unfoldable pub as_text : Value → Text → Outcome Value
as_text (text s) name = ok (text s)
as_text v name = refuse v (codes "str") name

module _ (py : Library) where
  -- `_parse_number`
  unfoldable pub parse_number : Text → Value
  parse_number s = elim (py.int_of_text s) [
    | some z ↦ int z
    | none ↦ elim (py.float_of_text s) [ some x ↦ float x | none ↦ text s ]
  ]

  -- A text is read first, anything else is taken as it is.
  unfoldable pub read_number : Value → Value
  unfolding parse_number
  read_number (text s) = parse_number s
  read_number v = v

  -- `_as_int` behind the reading of a text.
  unfoldable pub int_of_number : Value → Text → Outcome Value
  int_of_number (int z) name = ok (int z)
  int_of_number (bool true) name = ok (int (pos 1))
  int_of_number (bool false) name = ok (int (pos 0))
  int_of_number (float x) name =
      if is_integer x
      then (elim (truncate x) [ some z ↦ ok (int z) | none ↦ refuse (float x) (codes "int") name ])
      else refuse (float x) (codes "int") name
  int_of_number v name = refuse v (codes "int") name

  unfoldable pub as_int : Value → Text → Outcome Value
  unfolding read_number int_of_number
  as_int v name = int_of_number (read_number v) name

  -- `float(z)`, whose OverflowError no caller of `_as_float` expects.
  abbrev float_of : ℤ → Outcome Value
  float_of z = elim (py.float_of_int z) [
    | some x ↦ ok (float x)
    | none ↦ raised (other_raised (codes "OverflowError"))
  ]

  unfoldable pub float_of_number : Value → Text → Outcome Value
  float_of_number (float x) name = ok (float x)
  float_of_number (int z) name = float_of z
  float_of_number (bool true) name = float_of (pos 1)
  float_of_number (bool false) name = float_of (pos 0)
  float_of_number v name = refuse v (codes "float") name

  unfoldable pub as_float : Value → Text → Outcome Value
  unfolding read_number float_of_number
  as_float v name = float_of_number (read_number v) name

  unfoldable pub coerce_to_json_type : Value → Value → Text → Outcome Value
  unfolding as_bool as_int as_float as_text
  coerce_to_json_type v (text t) name =
      if text_eq t (codes "boolean")
      then as_bool v name
      else if text_eq t (codes "integer")
      then as_int v name
      else if text_eq t (codes "float")
      then as_float v name
      else if text_eq t (codes "string")
      then as_text v name
      else ok v
  coerce_to_json_type v _ name = ok v

  -- `str(prop_def.get("type", "")).startswith("optional<")`. Only a text can begin so.
  unfoldable pub is_optional : Dict → Bool
  is_optional prop_def = elim (get_else (codes "type") (text []) prop_def) [
    | text t ↦ text_eq (take (length (codes "optional<")) t) (codes "optional<")
    | _ ↦ false
  ]

  -- `_coerce_value`, given the properties of the API definition. An entry of those is a mapping.
  unfoldable pub coerce_value : Dict → Text → Value → Outcome Value
  unfolding coerce_to_json_type is_optional
  coerce_value properties name (namespace d) = ok (dict d)
  coerce_value properties name v = elim (get name properties) [
    | some (dict prop_def) ↦
        if (elim v [ null ↦ true | _ ↦ false ]) && is_optional prop_def
        then ok null
        else coerce_to_json_type v (get_else (codes "jsonType") (text []) prop_def) name
    | some _ ↦ raised (value_raised (codes "AttributeError"))
    | none ↦ ok v
  ]
