-- ===== src/Api/Definition/Writes.antt =====
-- That a loaded definition leads no write into an error that its callers do not expect.
use ha_wattpilot.Base.{
  ◌≡◌, refl, sym, ◌∙◌, Bool, true, false, ◌&&◌, ◌||◌, Option, none, some, [], Text, codes,
  if◌then◌else◌, text_eq, Bool-cases, Option-cases, inl, inr, ℤ, pos,
}
use ha_wattpilot.Json.{
  Value, Float, null, bool, int, float, text, dict, namespace, Dict, get, get_else, truncate,
  is_integer, equals_int,
}
use ha_wattpilot.Api.Errors.{PropertyReason, property_error}
use ha_wattpilot.Api.Library.{Library}
use ha_wattpilot.Api.Client.{
  value_raised, wattpilot_raised, other_raised, Outcome, ok, raised, coerce_value,
  coerce_to_json_type, as_bool, as_int, as_float, as_text, bool_of_number, int_of_number,
  float_of_number, is_optional, bool_word, read_number,
}
use ha_wattpilot.Api.Definition.{load_api_definition}
use ha_wattpilot.Api.Definition.Lookup.{get-load_api_definition, first_with-dict, listed}

-- What the callers of a conversion expect of it: a value, a property error, or the OverflowError of an
-- integer too long for a float.
pub data IsExpected : Outcome Value → Type 0 where
  converted : (v : Value) → IsExpected (ok v)
  refused :
      (reason : PropertyReason) → IsExpected (raised (wattpilot_raised (property_error reason)))
  too_long : IsExpected (raised (other_raised (codes "OverflowError")))

bool_of_number-IsExpected : (v : Value) (name : Text) → IsExpected (bool_of_number v name)
unfolding bool_of_number
bool_of_number-IsExpected v name =
    elim (Bool-cases (equals_int v (pos 0) || equals_int v (pos 1))) [
      | inl bit ↦ rw bit (converted _)
      | inr other ↦ rw other (refused _)
    ]

as_bool-IsExpected : (v : Value) (name : Text) → IsExpected (as_bool v name)
unfolding as_bool
as_bool-IsExpected (text s) name = elim (Option-cases (bool_word s)) [
  | inl other ↦ rw (as_bool, other) (bool_of_number-IsExpected (text s) name)
  | inr (b, word) ↦ rw (as_bool, word) (converted _)
]
as_bool-IsExpected (bool b) name = converted _
as_bool-IsExpected v name = bool_of_number-IsExpected v name

as_text-IsExpected : (v : Value) (name : Text) → IsExpected (as_text v name)
unfolding as_text
as_text-IsExpected (text s) name = converted _
as_text-IsExpected _ name = refused _

-- An entry of a loaded definition is a mapping.
mapping :
    (config : Value) (properties : Dict) (name : Text)
    → load_api_definition config ≡ ok properties
    → (x : Value) → get name properties ≡ some x
    → (p : Dict) × (x ≡ dict p)
mapping config properties name loaded x there =
    first_with-dict name (listed config) x
      (sym (get-load_api_definition config name properties loaded) ∙ there)

module _ (py : Library) where
  as_int-IsExpected : (v : Value) (name : Text) → IsExpected (as_int py v name)
  unfolding as_int
  as_int-IsExpected v name = of_number (read_number py v)
    where
      of_number : (n : Value) → IsExpected (int_of_number py n name)
      of_number (int z) = converted _
      of_number (bool true) = converted _
      of_number (bool false) = converted _
      of_number (float x) = elim (Bool-cases (is_integer x)) [
        | inr part ↦ rw part (refused _)
        | inl whole ↦ elim (Option-cases (truncate x)) [
          | inl none_left ↦ rw (whole, none_left) (refused _)
          | inr (z, cut) ↦ rw (whole, cut) (converted _)
        ]
      ]
      of_number _ = refused _

  as_float-IsExpected : (v : Value) (name : Text) → IsExpected (as_float py v name)
  unfolding as_float
  as_float-IsExpected v name = of_number (read_number py v)
    where
      floated :
          (o : Option Float)
          → IsExpected (elim o [
            | some x ↦ ok (float x)
            | none ↦ raised (other_raised (codes "OverflowError"))
          ])
      floated none = too_long
      floated (some x) = converted _

      float_of : (z : ℤ) → IsExpected (float_of_number py (int z) name)
      float_of z = floated (py.float_of_int z)

      of_number : (n : Value) → IsExpected (float_of_number py n name)
      of_number (bool true) = float_of (pos 1)
      of_number (bool false) = float_of (pos 0)
      of_number (int z) = float_of z
      of_number (float x) = converted _
      of_number _ = refused _

  coerce_to_json_type-IsExpected :
      (v t : Value) (name : Text) → IsExpected (coerce_to_json_type py v t name)
  unfolding coerce_to_json_type
  coerce_to_json_type-IsExpected v (text t) name = elim (Bool-cases (text_eq t (codes "boolean"))) [
    | inl flag ↦ rw flag (as_bool-IsExpected v name)
    | inr a ↦ elim (Bool-cases (text_eq t (codes "integer"))) [
      | inl whole ↦ rw (a, whole) (as_int-IsExpected v name)
      | inr b ↦ elim (Bool-cases (text_eq t (codes "float"))) [
        | inl number ↦ rw (a, b, number) (as_float-IsExpected v name)
        | inr c ↦ elim (Bool-cases (text_eq t (codes "string"))) [
          | inl word ↦ rw (a, b, c, word) (as_text-IsExpected v name)
          | inr other ↦ rw (a, b, c, other) (converted v)
        ]
      ]
    ]
  ]
  coerce_to_json_type-IsExpected v _ name = converted v

  -- The conversion by an entry that is a mapping, or by none.
  by_entry-IsExpected :
      (v : Value) (name : Text) (is_null : Bool) (o : Option Value)
      → ((x : Value) → o ≡ some x → (p : Dict) × (x ≡ dict p))
      → IsExpected (elim o [
        | some (dict prop_def) ↦
            if is_null && is_optional py prop_def
            then ok null
            else coerce_to_json_type py v (get_else (codes "jsonType") (text []) prop_def) name
        | some _ ↦ raised (value_raised (codes "AttributeError"))
        | none ↦ ok v
      ])
  by_entry-IsExpected v name is_null none mapping = converted v
  by_entry-IsExpected v name is_null (some (dict p)) mapping =
      elim (Bool-cases (is_null && is_optional py p)) [
        | inl kept ↦ rw kept (converted null)
        | inr sent ↦ rw sent (coerce_to_json_type-IsExpected v _ name)
      ]
  by_entry-IsExpected v name is_null (some x) mapping = cc (mapping x refl).1

  -- With a definition that has loaded, whatever file it came from, the conversion of a value that is to
  -- be written gives a value, a property error, or the OverflowError of an integer too long for a
  -- float: it meets no entry that is not the mapping it is taken for.
  pub coerce_value-IsExpected :
      (config : Value) (properties : Dict) (name : Text) (v : Value)
      → load_api_definition config ≡ ok properties
      → IsExpected (coerce_value py properties name v)
  unfolding coerce_value
  coerce_value-IsExpected config properties name (namespace d) loaded = converted (dict d)
  coerce_value-IsExpected config properties name null loaded =
      by_entry-IsExpected null name true (get name properties)
        (mapping config properties name loaded)
  coerce_value-IsExpected config properties name v loaded =
      by_entry-IsExpected v name false (get name properties) (mapping config properties name loaded)
