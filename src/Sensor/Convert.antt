-- ===== src/Sensor/Convert.antt =====
-- The reading inside a structured payload, and the attributes beside it.
use ha_wattpilot.Base.{
  ℕ, ◌&&◌, Option, none, some, List, [], ◌∷◌, Text, codes, if◌then◌else◌, leb, length, pos,
}
use ha_wattpilot.Json.{
  Value, null, int, text, list, dict, Dict, end, entry, items_to_list, dict_size,
}
use ha_wattpilot.Sensor.Hold.{exceeds_number}
use ha_wattpilot.Entities.{SensorDescription}
use ha_wattpilot.Readings.{
  Reading, reads, type_error, number_or_none, namespace_get, at, is_number, held_positions,
  switched_phase_count,
}

-- A reading with the attributes that it brings, if it brings any.
abbrev pub Unwrapped : Type 0
Unwrapped = Reading Value × Option Dict

-- `max` keeps the first of those that are equal.
unfoldable pub highest_from : Value → List Value → Value
unfolding is_number
highest_from best [] = best
highest_from best (v ∷ vs) =
    highest_from (if is_number v && exceeds_number v best then v else best) vs

unfoldable pub highest : List Value → Value
unfolding highest_from
highest [] = null
highest (v ∷ vs) = let rest = highest vs in if is_number v then highest_from v vs else rest

unfoldable pub unwrap_highest : Value → Unwrapped
unfolding highest
unwrap_highest (list vs) =
    (reads (highest (items_to_list vs)), some (entry (codes "readings") (list vs) end))
unwrap_highest (text s) = (reads null, some (entry (codes "readings") (text s) end))
unwrap_highest (dict d) = (reads null, some (entry (codes "readings") (dict d) end))
unwrap_highest v = (type_error, some (entry (codes "readings") v end))

-- The values of the named fields.
unfoldable pub fields_of : Value → List Text → Dict
fields_of value [] = end
fields_of value (n ∷ ns) = let rest = fields_of value ns in entry n (namespace_get value n) rest

unfoldable pub unwrap_indexed : SensorDescription → Value → ℕ → Unwrapped
unfolding at held_positions
unwrap_indexed d (list vs) index = (
  at (list vs) index,
  elim d.index_attributes [
    | [] ↦ none
    | a ∷ rest ↦ some (held_positions (items_to_list vs) (a ∷ rest))
  ],
)
unwrap_indexed d value index = (at value index, none)

-- `_unwrap`
unfoldable pub unwrap : SensorDescription → Value → Unwrapped
unfolding unwrap_indexed unwrap_highest fields_of switched_phase_count
unwrap d value = elim d.value_index [
  | some index ↦ unwrap_indexed d value index
  | none ↦ elim d.namespace_value [
    | some field ↦
        (reads (namespace_get value field), some (fields_of value d.namespace_attributes))
    | none ↦
        if d.highest_reading
        then unwrap_highest value
        else if d.switched_phases
        then (
          reads (elim (switched_phase_count value) [ some n ↦ int (pos n) | none ↦ null ]),
          none,
        )
        else (reads value, none)
  ]
]

-- `_apply_card`: the state and the attributes of one ID chip. An absent slot shows nothing.
unfoldable pub apply_card : Value → ℕ → Unwrapped
unfolding number_or_none
apply_card (list vs) index =
    if leb (length (items_to_list vs)) index
    then (reads null, some end)
    else (elim (at (list vs) index) [
      | type_error ↦ (type_error, none)
      | reads card ↦ elim (number_or_none (namespace_get card (codes "energy"))) [
        | type_error ↦ (type_error, none)
        | reads energy ↦ (reads energy, some (fields_of card (codes "name" ∷ codes "cardId" ∷ [])))
      ]
    ])
apply_card (text s) index =
    if leb (length s) index
    then (reads null, some end)
    else (reads null, some (fields_of null (codes "name" ∷ codes "cardId" ∷ [])))
apply_card (dict d) index =
    if leb (dict_size d) index then (reads null, some end) else (type_error, none)
apply_card _ index = (type_error, none)
