-- ===== src/Api/Errors.antt =====
-- custom_components/wattpilot/api/exceptions.py: the errors, and the text of the charger that may
-- join one. A message is held by its parts; the repr of a value is not spelled out.
pub mod DeviceText
pub mod MaskSerial
pub mod Describe
use ha_wattpilot.Base.{
  ℕ, suc, ◌+◌, ◌-◌, ◌≡◌, Bool, true, false, Option, none, some, List, [], ◌∷◌, ◌++◌, Text, codes,
  leb, ltb, length, take, drop, replicate, is_space, is_decimal, if◌then◌else◌,
}
use ha_wattpilot.Json.{Value, text}

-- Why a write was refused before it was sent.
pub data PropertyReason : Type 0 where
  -- The value, the type it was to have, the property.
  cannot_convert : Value → Text → Text → PropertyReason
  no_update : PropertyReason

-- Why a command failed, by the number of the request.
pub data CommandReason : Type 0 where
  abandoned : Text → Text → CommandReason
  rejected : Text → Text → CommandReason
  unanswered : Text → Text → CommandReason

-- The exception classes, `WattpilotError` being their common base.
pub data Error : Type 0 where
  connection_error : Text → Error
  handshake_error : Text → Error
  authentication_error : Text → Error
  property_error : PropertyReason → Error
  command_error : CommandReason → Error
  -- The serial expected and the one found, as the message masks them, and the one found.
  identity_error : Text → Text → Text → Error

-- The class attribute `final`: retrying would repeat it.
unfoldable pub is_final : Error → Bool
is_final (handshake_error _) = false
is_final _ = true

-- `getattr(fatal_error, "final", False)`
unfoldable pub is_final_refusal : Option Error → Bool
unfolding is_final
is_final_refusal none = false
is_final_refusal (some e) = is_final e

-- A word that has ended, if there is one.
abbrev pub flush : Text → List Text → List Text
flush [] ws = ws
flush (c ∷ w) ws = (c ∷ w) ∷ ws

-- `value.split()`, given the word read so far.
unfoldable pub split_from : Text → Text → List Text
split_from w [] = flush w []
split_from w (c ∷ s) =
    let rest = split_from (if is_space c then [] else w ++ c ∷ []) s in
    if is_space c then flush w rest else rest

-- `" ".join(words)`
unfoldable pub join_words : List Text → Text
join_words [] = []
join_words (w ∷ []) = w
join_words (w ∷ v ∷ ws) = w ++ b' ' ∷ join_words (v ∷ ws)

abbrev pub long_number : ℕ
long_number = 5

-- A run of digits that has ended, as the substitution leaves it.
abbrev pub masked_run : Text → Text
masked_run run = if leb long_number (length run) then codes "****" else run

-- `_LONG_NUMBER.sub("****", text)`, given the run of digits read so far.
unfoldable pub mask_numbers : Text → Text → Text
mask_numbers run [] = masked_run run
mask_numbers run (c ∷ s) =
    let rest = mask_numbers (if is_decimal c then run ++ c ∷ [] else []) s in
    if is_decimal c then rest else masked_run run ++ c ∷ rest

abbrev pub device_text_limit : ℕ
device_text_limit = 80

unfoldable pub device_text : Value → Text
unfolding split_from join_words mask_numbers
device_text (text s) = take device_text_limit (mask_numbers [] (join_words (split_from [] s)))
device_text _ = codes "unreadable"

abbrev pub serial_visible_digits : ℕ
serial_visible_digits = 2

-- `mask_serial` of api/client.py.
unfoldable pub mask_serial : Option Text → Text
mask_serial none = codes "<unknown>"
mask_serial (some serial) =
    if leb (length serial) serial_visible_digits
    then replicate (length serial) b'*'
    else (let hidden = length serial - serial_visible_digits in
        replicate hidden b'*' ++ drop hidden serial)
