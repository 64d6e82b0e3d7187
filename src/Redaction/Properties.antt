-- ===== src/Redaction/Properties.antt =====
-- `sanitize_property` and `sanitize_snapshot`: what a charger's properties become.
use ha_wattpilot.Base.{
  ℕ, suc, Bool, true, false, ◌&&◌, ◌||◌, Option, none, some, List, [], ◌∷◌, ◌++◌, Text, codes,
  text_eq, if◌then◌else◌, ◌==◌, length, or_default, show_nat, is_decimal, pos,
}
use ha_wattpilot.Json.{
  Value, null, bool, int, float, text, list, dict, namespace, Items, nil, cons, Dict, end, entry,
  get, get_else, insert, truthy, dict_size, items_to_list,
}
use ha_wattpilot.Entities.{Labels, SelectDescription, select_descriptions}
use ha_wattpilot.Entities.Identity.{is_among}
use ha_wattpilot.Redaction.Scrub.{TextLibrary, redacted, stand_in, scrub}

unfoldable pub drop_keys : List Text
drop_keys =
    codes "wsl"
    ∷ codes "ipw"
    ∷ codes "cak"
    ∷ codes "wak"
    ∷ codes "facwak"
    ∷ codes "ocppck"
    ∷ codes "ocppcc"
    ∷ codes "faccak"
    ∷ codes "data"
    ∷ codes "dll"
    ∷ codes "ocppfu"
    ∷ codes "ocppu"
    ∷ []

-- `REPLACE`
unfoldable pub replacements : Dict
unfolding redacted
replacements =
    let named = text (codes "Wattpilot_123456") in
    entry (codes "sse") (text (codes "123456")) (
      entry (codes "fna") (text (codes "Wattpilot")) (
        entry (codes "ffna") named (
          entry (codes "wan") named (
            entry (codes "fwan") named (
              entry (codes "host") named (
                entry (codes "hsta") named (
                  entry (codes "hsts") named (
                    entry (codes "hste") (text (codes "Wattpilot-123456")) (
                      entry (codes "wae") (bool true) (
                        entry (codes "log") redacted (
                          entry (codes "wsm") redacted (
                            entry (codes "cle") redacted (
                              entry (codes "ocppfd") redacted (
                                entry (codes "ocpptt") redacted (
                                  entry (codes "otaif") redacted (
                                    entry (codes "wss") (text (codes "TestNet")) (
                                      entry (codes "lri") redacted (
                                        entry (codes "cdv") redacted (
                                          entry (codes "fntp") redacted (
                                            entry (codes "ftls") redacted (
                                              entry (codes "lbh") redacted (
                                                entry (codes "ledo") redacted (
                                                  entry (codes "stao") redacted (
                                                    entry (codes "lom") redacted
                                                      end))))))))))))))))))))))))

-- `describe_shape` of readings.py
unfoldable pub describe_shape : Value → Text
describe_shape null = codes "NoneType"
describe_shape (bool _) = codes "bool"
describe_shape (int _) = codes "int"
describe_shape (float _) = codes "float"
describe_shape (text _) = codes "str"
describe_shape (list vs) = codes "list of " ++ show_nat (length (items_to_list vs))
describe_shape (dict d) = codes "dict of " ++ show_nat (dict_size d)
describe_shape (namespace _) = codes "SimpleNamespace"

-- `describe_with_length` of readings.py
unfoldable pub describe_with_length : Value → Text
unfolding describe_shape
describe_with_length (text s) = codes "str of " ++ show_nat (length s) ++ codes " chars"
describe_with_length v = describe_shape v

-- The options of the first select of a property.
unfoldable pub options_of : Text → List SelectDescription → Labels
options_of key [] = []
options_of key (d ∷ ds) =
    let rest = options_of key ds in
    if text_eq d.common.charger_key key then d.select_options else rest

unfoldable pub car_profiles : Labels
unfolding options_of select_descriptions
car_profiles = options_of (codes "ct") select_descriptions

unfoldable pub is_option : Text → Labels → Bool
is_option s [] = false
is_option s ((text key, label) ∷ labels) = text_eq key s || is_option s labels
is_option s (_ ∷ labels) = is_option s labels

unfoldable pub unknown_profile : Value → Value
unfolding describe_with_length
unknown_profile v = text (codes "<unknown: " ++ describe_with_length v ++ codes ">")

-- `_car_profile`
unfoldable pub car_profile : Value → Value
unfolding is_option car_profiles unknown_profile
car_profile null = null
car_profile (text s) =
    if text_eq s [] || text_eq s (codes "default")
    then text s
    else if is_option s car_profiles
    then text (codes "<known profile>")
    else unknown_profile (text s)
car_profile v = unknown_profile v

-- `CHIP_NAME_KEY.fullmatch`, with the digit that it captures.
unfoldable pub chip_digit : Text → Option ℕ
chip_digit (c ∷ d ∷ n ∷ []) = if c == b'c' && (is_decimal d && n == b'n') then some d else none
chip_digit _ = none

-- `_replacement_for`, with `none` for `_KEEP`; without a replacement an empty value stands for itself.
unfoldable pub replacement_for : Text → Value → Option Value
unfolding car_profile chip_digit stand_in replacements
replacement_for key value =
    if text_eq key (codes "ct") then some (car_profile value) else (elim (chip_digit key) [
      | some digit ↦ some (stand_in value (text (codes "Card " ++ digit ∷ [])))
      | none ↦ elim (get key replacements) [
        | some replacement ↦ some (stand_in value replacement)
        | none ↦ if truthy value then none else some value
      ]
    ])

unfoldable pub unexpected_shape : Value
unexpected_shape = text (codes "<redacted: unexpected shape>")

unfoldable pub sanitized_card : ℕ → Value → Value
unfolding stand_in unexpected_shape
sanitized_card index (dict card) = dict (
    entry (codes "name")
      (stand_in (get_else (codes "name") null card) (text (codes "Card " ++ show_nat index)))
      (entry (codes "cardId") (bool (truthy (get_else (codes "cardId") null card)))
        (entry (codes "energy") (get_else (codes "energy") (int (pos 0)) card) end)))
sanitized_card index _ = unexpected_shape

-- `_sanitized_cards`, from an index on.
unfoldable pub sanitized_cards_from : ℕ → Items → Items
unfolding sanitized_card
sanitized_cards_from index nil = nil
sanitized_cards_from index (cons card cards) =
    cons (sanitized_card index card) (sanitized_cards_from (suc index) cards)

unfoldable pub sanitized_cards : Value → Value
unfolding sanitized_cards_from unexpected_shape
sanitized_cards (list cards) = list (sanitized_cards_from 0 cards)
sanitized_cards _ = unexpected_shape

-- `companion[field] = _stand_in(companion.get(field), replacement)`
unfoldable pub stand_in_field : Text → Text → Dict → Dict
unfolding stand_in
stand_in_field field replacement d =
    insert field (stand_in (get_else field null d) (text replacement)) d

module _ (py : TextLibrary) (serial : Option Text) where
  unfoldable pub sanitized_companion : Value → Value
  unfolding scrub stand_in_field unexpected_shape
  sanitized_companion (dict d) = elim (scrub py serial (dict d)) [
    | dict companion ↦ dict (
        stand_in_field (codes "commonName") (codes "companion-0.0e-0_0") (
          stand_in_field (codes "label") (codes "Companion Device")
            (stand_in_field (codes "id") (codes "00000000") companion)))
    | v ↦ v
  ]
  sanitized_companion _ = unexpected_shape

  unfoldable pub sanitize_property : Text → Value → Value
  unfolding sanitized_cards sanitized_companion stand_in replacement_for scrub
  sanitize_property key value =
      if text_eq key (codes "cards")
      then sanitized_cards value
      else if text_eq key (codes "cci")
      then sanitized_companion value
      else if text_eq key (codes "ts") && (elim value [ text _ ↦ true | _ ↦ false ])
      then stand_in value (text (codes "time.example.invalid"))
      else or_default (replacement_for key value) (scrub py serial value)

  unfoldable pub sanitize_all : Dict → Dict
  unfolding sanitize_property is_among drop_keys
  sanitize_all end = end
  sanitize_all (entry key value snapshot) =
      let rest = sanitize_all snapshot in
      if is_among key drop_keys then rest else entry key (sanitize_property key value) rest

-- The serial that is scrubbed: the caller's, or else the snapshot's own.
unfoldable pub serial_of : Dict → Option Text → Option Text
serial_of snapshot (some serial) = some serial
serial_of snapshot none = elim (get (codes "sse") snapshot) [ some (text s) ↦ some s | _ ↦ none ]

unfoldable pub sanitize_snapshot : TextLibrary → Dict → Option Text → Dict
unfolding sanitize_all serial_of
sanitize_snapshot py snapshot serial = sanitize_all py (serial_of snapshot serial) snapshot
