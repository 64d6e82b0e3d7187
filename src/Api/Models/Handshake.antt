-- ===== src/Api/Models/Handshake.antt =====
-- When `missing_field` of custom_components/wattpilot/api/models.py lets a handshake message pass.
use ha_wattpilot.Base.{◌≡◌, ◌≢◌, ◌↔◌, true, none, [], arith, Text, codes, text_eq}
use ha_wattpilot.Json.{null, Dict, get_else, has}
use ha_wattpilot.Api.Models.{is_text, missing_field}

-- The field is there, as text with something in it.
abbrev pub HasText : Text → Dict → Type 0
HasText name message = is_text (get_else name null message) ≡ true

-- A hello passes exactly when it brings a serial.
missing_field_hello :
    (message : Dict) (serial : Text)
    → (missing_field (codes "hello") message serial ≡ none) ↔ HasText (codes "serial") message
unfolding missing_field text_eq
missing_field_hello message serial = ground arith

-- A request to sign in passes exactly when a hello brought a serial before it, both tokens are
-- there as text, and the name of a hash, where the charger sent one, is text too.
missing_field_auth_required :
    (message : Dict) (serial : Text)
    → (missing_field (codes "authRequired") message serial ≡ none) ↔ (
        (serial ≢ [])
        × HasText (codes "token1") message
        × HasText (codes "token2") message
        × (has (codes "hash") message ≡ true → HasText (codes "hash") message))
unfolding missing_field text_eq
missing_field_auth_required message serial = ground (arith)
