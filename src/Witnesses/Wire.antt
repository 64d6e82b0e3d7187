-- ===== src/Witnesses/Wire.antt =====
-- Concrete inputs for the theorems on values, texts and the shared secret.
use ha_wattpilot.Base.{◌≤◌, ◌≡◌, refl, some, [], ◌∷◌, arith, Text, codes, length, drop, All, pos}
use ha_wattpilot.Json.{Value, int, text, bool, dict, list, nil, cons, Dict, end, entry, has}
use ha_wattpilot.Json.Namespaces.{as_namespaces, plain_json, plain_json-as_namespaces}
use ha_wattpilot.Api.Errors.{device_text, mask_serial}
use ha_wattpilot.Api.Errors.DeviceText.{device_text_safe, HasNoLongNumber, IsInline}
use ha_wattpilot.Api.Errors.MaskSerial.{mask_serial_hides}
use ha_wattpilot.Api.Auth.{base64_encode}
use ha_wattpilot.Api.Auth.Base64.{base64_encode_roundtrip, decode, IsByte}

-- A frame as `json.loads` gives it.
abbrev frame_value : Value
frame_value = dict (
    entry (codes "type") (text (codes "deltaStatus")) (
      entry (codes "status")
        (dict (
          entry (codes "amp") (int (pos 16))
            (entry (codes "tma") (list (cons (int (pos 31)) nil)) end)))
        end))

plain_json-as_namespaces_example : plain_json (as_namespaces frame_value) ≡ frame_value
unfolding ha_wattpilot.Json.Namespaces.is_plain
plain_json-as_namespaces_example = plain_json-as_namespaces frame_value refl

device_text_safe_example :
    (length (device_text (text (codes "bad 1234567"))) ≤ 80)
    × HasNoLongNumber (device_text (text (codes "bad 1234567")))
    × All IsInline (device_text (text (codes "bad 1234567")))
device_text_safe_example = device_text_safe (text (codes "bad 1234567"))

mask_serial_hides_example :
    (length (mask_serial (some (codes "91012345"))) ≡ length (codes "91012345"))
    × (drop 6 (mask_serial (some (codes "91012345"))) ≡ drop 6 (codes "91012345"))
    × (mask_serial (some (codes "91012345")) ≡ mask_serial (some (codes "91099945")))
mask_serial_hides_example =
    mask_serial_hides (codes "91012345") (codes "91099945") (omega arith) refl refl

abbrev hello_message : Dict
hello_message = entry (codes "serial") (text (codes "91012345")) end

some_bytes : All IsByte (1 ∷ 2 ∷ 255 ∷ 7 ∷ [])
some_bytes = ground arith

base64_encode_roundtrip_example :
    (t : Text) × (base64_encode (1 ∷ 2 ∷ 255 ∷ 7 ∷ []) 4 ≡ some t)
    × (decode t ≡ 1 ∷ 2 ∷ 255 ∷ 7 ∷ [])
    × (length t ≡ 6)
base64_encode_roundtrip_example =
    base64_encode_roundtrip (1 ∷ 2 ∷ 255 ∷ 7 ∷ []) 4 some_bytes (omega arith) (omega arith)
