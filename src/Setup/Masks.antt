-- ===== src/Setup/Masks.antt =====
-- `_SerialMask`: what Home Assistant's log about the entries is rewritten to.
use ha_wattpilot.Base.{
  Bool, Option, none, some, List, [], ◌∷◌, ◌++◌, all, Text, codes, is_digit, if◌then◌else◌,
}
use ha_wattpilot.Api.Errors.{mask_serial}
use ha_wattpilot.Redaction.{replace_from}
use ha_wattpilot.Entries.{ConfigEntry}

-- `unique_id and unique_id.isdigit()`
abbrev pub is_serial : Option Text → Option Text
is_serial none = none
is_serial (some []) = none
is_serial (some (c ∷ s)) = if all is_digit (c ∷ s) then some (c ∷ s) else none

-- `_serial_masks`
unfoldable pub serial_masks : List ConfigEntry → List (Text × Text)
serial_masks [] = []
serial_masks (e ∷ es) =
    let rest = serial_masks es in
    elim (is_serial e.unique_id) [ some u ↦ (u, mask_serial (some u)) ∷ rest | none ↦ rest ]

-- `_is_address` is what `ipaddress` tells of a text.
module _ (is_address : Text → Bool) where
  -- `_address_title_masks`
  unfoldable pub address_title_masks : List ConfigEntry → List (Text × Text)
  address_title_masks [] = []
  address_title_masks (e ∷ es) =
      let rest = address_title_masks es in
      if is_address e.title then (e.title, codes "<address>") ∷ rest else rest

  -- `_replacements`
  unfoldable pub log_replacements : List ConfigEntry → List (Text × Text)
  unfolding serial_masks address_title_masks
  log_replacements es = serial_masks es ++ address_title_masks es

-- The loop of `filter`.
unfoldable pub replace_all : List (Text × Text) → Text → Text
unfolding replace_from
replace_all [] message = message
replace_all ((found, stand_in) ∷ rs) message =
    replace_all rs (replace_from found stand_in 0 message)

-- `filter`, for a record whose message can be put together, or one that cannot.
unfoldable pub filter_message : (Text → Bool) → List ConfigEntry → Option Text → Option Text
unfolding log_replacements replace_all
filter_message is_address es none = none
filter_message is_address es (some message) =
    some (replace_all (log_replacements is_address es) message)
