-- ===== src/Api/Models.antt =====
-- custom_components/wattpilot/api/models.py: the device data and the rules of the handshake.
pub mod Handshake
use ha_wattpilot.Base.{
  ℕ, ◌≡◌, Bool, true, false, not, ◌&&◌, Option, none, some, List, [], ◌∷◌, ◌++◌, Text, codes,
  text_eq, is_blank, is_some, if◌then◌else◌,
}
use ha_wattpilot.Json.{
  Value, null, bool, int, float, text, list, dict, namespace, Dict, get_else, has,
}

pub data AuthHashType : Type 0 where
  pbkdf2 bcrypt : AuthHashType

-- `secured` is whatever the charger sent.
pub record DeviceInfo : Type 0 where
  pub serial : Text
  pub name : Value
  pub manufacturer : Value
  pub device_type : Value
  pub secured : Value

pub record CloudInfo : Type 0 where
  pub enabled : Bool
  pub api_key : Value
  pub url : Text

unfoldable pub is_text : Value → Bool
unfolding is_blank
is_text (text s) = not (is_blank s)
is_text _ = false

-- `_REQUIRED_TEXT.get(msg_type, ())`
unfoldable pub required_text : Text → List Text
unfolding text_eq
required_text t =
    if text_eq t (codes "hello")
    then codes "serial" ∷ []
    else if text_eq t (codes "authRequired")
    then codes "token1" ∷ codes "token2" ∷ []
    else []

-- `_OPTIONAL_TEXT.get(msg_type, ())`
unfoldable pub optional_text : Text → List Text
unfolding text_eq
optional_text t = if text_eq t (codes "authRequired") then codes "hash" ∷ [] else []

-- The names of a list that the message has.
unfoldable pub sent_of : Dict → List Text → List Text
sent_of message [] = []
sent_of message (n ∷ ns) = let rest = sent_of message ns in if has n message then n ∷ rest else rest

unfoldable pub fields_to_check : Text → Dict → List Text
unfolding required_text optional_text sent_of
fields_to_check t message = required_text t ++ sent_of message (optional_text t)

-- `next((name for name in fields if not is_text(message.get(name))), None)`
unfoldable pub first_unusable : Dict → List Text → Option Text
unfolding is_text
first_unusable message [] = none
first_unusable message (n ∷ ns) =
    let rest = first_unusable message ns in
    if is_text (get_else n null message) then rest else some n

unfoldable pub missing_field : Text → Dict → Text → Option Text
unfolding fields_to_check first_unusable
missing_field t message serial =
    if text_eq t (codes "authRequired") && text_eq serial []
    then some (codes "serial")
    else first_unusable message (fields_to_check t message)
