-- ===== src/Readings.antt =====
-- custom_components/wattpilot/readings.py: the readers of the charger's payloads. The price list is
-- with the sensor that shows it.
pub mod Bounds
use ha_wattpilot.Base.{
  ℕ, ◌+◌, ◌-◌, ◌*◌, ◌/◌, ◌%◌, ◌^◌, ◌≡◌, Bool, true, false, not, ◌&&◌, ◌||◌, Option, none, some,
  List, [], ◌∷◌, Text, codes, length, leb, ltb, ◌==◌, get_elem?, take, all, if◌then◌else◌, ℤ, pos,
  negsuc, ◌-ℤ◌, pos_part, neg_part,
}
use ha_wattpilot.Json.{
  Value, null, bool, int, float, text, list, dict, namespace, Dict, end, entry, Items,
  items_to_list, get_else, Float, fin, truncate, value_eq, insert,
}

-- `sys.float_info.max`
unfoldable pub largest_double : ℕ
largest_double = (2 ^ 53 - 1) * 2 ^ 971

-- A finite number that is no bool.
unfoldable pub is_number : Value → Bool
unfolding largest_double
is_number (int z) = leb (pos_part z + neg_part z) largest_double
is_number (float (fin _ _)) = true
is_number _ = false

-- `namespace_get`; no other value has an attribute of a name that is asked for.
unfoldable pub namespace_get : Value → Text → Value
namespace_get (dict d) field = get_else field null d
namespace_get (namespace d) field = get_else field null d
namespace_get _ field = null

-- A reader either gives a value or raises a TypeError.
pub data Reading (A : Type 0) : Type 0 where
  reads : A → Reading A
  type_error : Reading A

unfoldable pub at : Value → ℕ → Reading Value
at (list vs) index = reads (elim (get_elem? (items_to_list vs) index) [ some v ↦ v | none ↦ null ])
at _ index = type_error

abbrev is_bool : Value → Bool
is_bool (bool _) = true
is_bool _ = false

abbrev same_kind : Bool → Bool → Bool
same_kind true b = b
same_kind false b = not b

-- `matching_label`, on a table in its order.
unfoldable pub matching_label : List (Value × Text) → Value → Option Text
matching_label [] value = none
matching_label ((key, label) ∷ table) value =
    let rest = matching_label table value in
    if value_eq key value && same_kind (is_bool key) (is_bool value) then some label else rest

unfoldable pub enum_state : List (Value × Text) → Value → Value
unfolding matching_label
enum_state table value = elim (matching_label table value) [
  | some label ↦ text label
  | none ↦ if is_bool value then null else value
]

-- `held_positions`
unfoldable pub held_positions : List Value → List (Text × ℕ) → Dict
held_positions values [] = end
held_positions values ((name, position) ∷ positions) =
    let rest = held_positions values positions in
    elim (get_elem? values position) [ some v ↦ entry name v rest | none ↦ rest ]

unfoldable pub number_or_none : Value → Reading Value
unfolding is_number
number_or_none null = reads null
number_or_none v = if is_number v then reads v else type_error

-- `int(milliseconds) // MILLISECONDS_PER_MINUTE`, which rounds down.
abbrev floor_minutes : ℤ → ℤ
floor_minutes (pos n) = pos (n / 60000)
floor_minutes (negsuc n) = negsuc (n / 60000)

unfoldable pub minutes : Value → Option ℤ
unfolding is_number
minutes (int z) = if is_number (int z) then some (floor_minutes z) else none
minutes (float x) =
    if is_number (float x)
    then (elim (truncate x) [ some z ↦ some (floor_minutes z) | none ↦ none ])
    else none
minutes _ = none

-- The subtraction of two numbers, exact on integers; `float_minus` is that of doubles.
unfoldable pub minus : (Value → Value → Value) → Value → Value → Value
minus float_minus (int a) (int b) = int (a -ℤ b)
minus float_minus v w = float_minus v w

module _ (float_minus : Value → Value → Value) where
  unfoldable pub charging_minutes : Value → Value → Option ℤ
  unfolding namespace_get is_number minutes minus
  charging_minutes cdi boot_clock =
      let kind = namespace_get cdi (codes "type") in
      let value = namespace_get cdi (codes "value") in
      if not (is_number value)
      then none
      else if value_eq kind (int (pos 0)) && is_number boot_clock
      then minutes (minus float_minus boot_clock value)
      else if value_eq kind (int (pos 1))
      then minutes value
      else none

abbrev count_true : List Value → ℕ
count_true [] = 0
count_true (bool true ∷ vs) = 1 + count_true vs
count_true (_ ∷ vs) = count_true vs

unfoldable pub switched_phase_count : Value → Option ℕ
switched_phase_count (list pha) =
    let values = items_to_list pha in
    if ltb (length values) 3
    then none
    else if all is_bool (take 3 values)
    then some (count_true (take 3 values))
    else none
switched_phase_count _ = none

-- `total_power`; the total stands at position 11 of an nrg list.
unfoldable pub total_power : Value → Option Value
unfolding is_number
total_power (list nrg) = elim (get_elem? (items_to_list nrg) 11) [
  | some reading ↦ if is_number reading then some reading else none
  | none ↦ none
]
total_power _ = none

-- `fit_for_state`, given the `str` of a value.
unfoldable pub fit_for_state : (Value → Text) → Value → Value
fit_for_state str_of null = null
fit_for_state str_of v = if leb (length (str_of v)) 255 then v else null
