-- ===== src/Api/Library.antt =====
-- What the client takes from Python's library and from packages: hash functions, the spelling of
-- values, and the conversions of numbers.
use ha_wattpilot.Base.{ℕ, Option, List, Text, ℤ}
use ha_wattpilot.Json.{Value, Float}

pub record Library : Type 0 where
  -- `str.encode()`
  pub encode : Text → List ℕ
  -- `base64.b64encode(hashlib.pbkdf2_hmac("sha512", password, salt, 100000, 256))`
  pub pbkdf2_base64 : List ℕ → List ℕ → List ℕ
  -- `hashlib.sha256(data).hexdigest()`
  pub sha256_hex : List ℕ → Text
  -- `bcrypt.hashpw`; `none` is a ValueError for a salt it refuses.
  pub hashpw : List ℕ → List ℕ → Option (List ℕ)
  -- `hmac.new(key, message, sha256).hexdigest()`
  pub hmac_hex : List ℕ → List ℕ → Text
  -- `json.dumps`
  pub dumps : Value → Text
  -- `str` of a float or a container.
  pub str_of : Value → Text
  -- `int(text)` and `float(text)`; `none` is a ValueError.
  pub int_of_text : Text → Option ℤ
  pub float_of_text : Text → Option Float
  -- `float(z)`; `none` is an OverflowError.
  pub float_of_int : ℤ → Option Float
