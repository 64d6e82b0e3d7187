-- ===== src/Api/Auth.antt =====
-- custom_components/wattpilot/api/auth.py: the shared secret and the texts it is used in. The hash
-- functions of the libraries are a parameter.
pub mod Base64
pub mod Salt
use ha_wattpilot.Base.{
  ℕ, suc, ◌+◌, ◌-◌, ◌*◌, ◌/◌, ◌%◌, ◌≡◌, Bool, true, false, ◌&&◌, Option, none, some, List, [], ◌∷◌,
  ◌++◌, map, Text, codes, text_eq, is_digit, is_space, show_nat, show_int, ◌||◌, ◌==◌, leb, ltb,
  length, all, take, drop, replicate, get_or, if◌then◌else◌,
}
use ha_wattpilot.Json.{Value, text, int, Dict, end, entry, get}
use ha_wattpilot.Api.Library.{Library}
use ha_wattpilot.Api.Models.{AuthHashType, pbkdf2, bcrypt}

-- `_BASE64_CODE`
abbrev pub base64_code : Text
base64_code = codes "./ABCDEFGHIJKLMNOPQRSTUVWXYZabcdefghijklmnopqrstuvwxyz0123456789"

-- `_BASE64_CODE[i & 0x3F]`
unfoldable pub symbol : ℕ → ℕ
symbol i = get_or base64_code (i % 64) 0

-- The loop of `_bcryptjs_base64_encode`, on the bytes from `off` to `length`. The two halves that
-- `|` joins have no bit in common, so it is written `+`.
unfoldable pub encode_bytes : List ℕ → Text
unfolding symbol
encode_bytes [] = []
encode_bytes (c1 ∷ []) = symbol (c1 / 4) ∷ symbol (c1 % 4 * 16) ∷ []
encode_bytes (c1 ∷ c2 ∷ []) =
    symbol (c1 / 4) ∷ symbol (c1 % 4 * 16 + c2 / 16 % 16) ∷ symbol (c2 % 16 * 4) ∷ []
encode_bytes (c1 ∷ c2 ∷ c3 ∷ bs) =
    symbol (c1 / 4)
    ∷ symbol (c1 % 4 * 16 + c2 / 16 % 16)
    ∷ symbol (c2 % 16 * 4 + c3 / 64 % 4)
    ∷ symbol c3
    ∷ encode_bytes bs

-- `_bcryptjs_base64_encode`; `none` is the ValueError for a length that does not fit.
unfoldable pub base64_encode : List ℕ → ℕ → Option Text
unfolding encode_bytes
base64_encode b n =
    if leb n 0 then none else if ltb (length b) n then none else some (encode_bytes (take n b))

-- `ch.isdigit()` for every character of a text that is not empty.
unfoldable pub all_digits : Text → Bool
unfolding is_digit
all_digits [] = false
all_digits (c ∷ s) = all is_digit (c ∷ s)

-- `bytes(...)` takes no value past 255.
abbrev pub fits_bytes : List ℕ → Bool
fits_bytes = all (λ v. ltb v 256)

-- `_bcryptjs_encode_base64_string`; `none` is a ValueError.
unfoldable pub encode_base64_string : Text → ℕ → Option Text
unfolding all_digits base64_encode
encode_base64_string s n =
    if all_digits s
    then (let vals = map (λ ch. ch - b'0') s in
        let b = replicate (n - length vals) 0 ++ vals in
        if fits_bytes b then base64_encode b n else none)
    else none

-- The salt that `_hash_bcrypt` builds.
unfoldable pub bcrypt_salt : Text → ℕ → Option Text
unfolding encode_base64_string
bcrypt_salt serial iterations = elim (encode_base64_string serial 16) [
  | none ↦ none
  | some serial_b64 ↦ some (
      codes "$2a$"
      ++ ((if ltb iterations 10 then codes "0" else [])
          ++ (show_nat iterations ++ (codes "$" ++ serial_b64))))
]

-- `bytes.rstrip()`
unfoldable pub rstrip : List ℕ → List ℕ
rstrip [] = []
rstrip (c ∷ s) =
    let rest = rstrip s in
    elim rest [ [] ↦ if (leb 9 c && leb c 13) || c == b' ' then [] else c ∷ [] | b ∷ r ↦ c ∷ b ∷ r ]

module _ (py : Library) where
  unfoldable pub hash_pbkdf2 : Text → Text → List ℕ
  hash_pbkdf2 password serial = take 32 (py.pbkdf2_base64 (py.encode password) (py.encode serial))

  -- `_hash_bcrypt` at its default of 8 iterations.
  unfoldable pub hash_bcrypt : Text → Text → Option (List ℕ)
  unfolding bcrypt_salt rstrip
  hash_bcrypt password serial = elim (bcrypt_salt serial 8) [
    | none ↦ none
    | some salt ↦
        elim (py.hashpw (py.encode (py.sha256_hex (py.encode password))) (py.encode salt)) [
          | none ↦ none
          | some pw_hash ↦ some (rstrip (drop (length salt) pw_hash))
        ]
  ]

  -- `hash_password`; `none` is a ValueError.
  unfoldable pub hash_password : Text → Text → AuthHashType → Option (List ℕ)
  unfolding hash_pbkdf2 hash_bcrypt
  hash_password password serial pbkdf2 = some (hash_pbkdf2 password serial)
  hash_password password serial bcrypt = hash_bcrypt password serial

  unfoldable pub compute_auth_response : Text → Text → Text → List ℕ → Text
  compute_auth_response token1 token2 token3 hashed_password =
      let hash1 = py.sha256_hex (py.encode token1 ++ hashed_password) in
      py.sha256_hex (py.encode (token3 ++ (token2 ++ hash1)))

  -- `sign_secured_message`. The client numbers every message with an int; `none` is the KeyError
  -- for one that has no number.
  unfoldable pub sign_secured_message : Dict → List ℕ → Option Dict
  sign_secured_message message hashed_password = elim (get (codes "requestId") message) [
    | some (int request_id) ↦
        (let payload = py.dumps (Value.dict message) in
          some (
            entry (codes "type") (text (codes "securedMsg")) (
              entry (codes "data") (text payload) (
                entry (codes "requestId") (text (show_int request_id ++ codes "sm")) (
                  entry (codes "hmac") (text (py.hmac_hex hashed_password (py.encode payload)))
                    end)))))
    | _ ↦ none
  ]
