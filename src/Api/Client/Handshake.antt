-- ===== src/Api/Client/Handshake.antt =====
-- The handshake: who answers, and how the client signs in.
use ha_wattpilot.Base.{
  ℕ, Bool, true, false, ◌&&◌, ◌||◌, Option, none, some, List, [], ◌++◌, Text, codes, text_eq,
  if◌then◌else◌,
}
use ha_wattpilot.Json.{Value, null, text, Dict, end, entry, get, get_else}
use ha_wattpilot.Api.Errors.{
  connection_error, handshake_error, authentication_error, identity_error, device_text, mask_serial,
}
use ha_wattpilot.Api.Library.{Library}
use ha_wattpilot.Api.Models.{AuthHashType, pbkdf2, bcrypt, DeviceInfo, missing_field}
use ha_wattpilot.Api.Auth.{hash_password, compute_auth_response}
use ha_wattpilot.Api.Connection.{reject, mark_authenticated}
use ha_wattpilot.Api.Client.State.{
  value_raised, Client, ok, raised, Action, ⊤, pure, ◌>>=◌, ◌>>◌, on_client, get_client,
}
use ha_wattpilot.Api.Client.Commands.{write}

-- The text of a field that `missing_field` has passed.
abbrev pub text_of : Value → Text
text_of (text s) = s
text_of _ = []

-- `_identity_accepted`
unfoldable pub identity_accepted : Text → Action Bool
identity_accepted serial w =
    let known = w.owner.device.serial in
    if text_eq known [] || text_eq known serial then (ok true, w) else (
      ok false,
      reject (identity_error (mask_serial (some known)) (mask_serial (some serial)) serial) w,
    )

-- What a hello tells of the device.
unfoldable pub greet : Text → Dict → DeviceInfo → DeviceInfo
greet serial msg d = record {
  serial = serial;
  name = get_else (codes "hostname") d.name msg;
  manufacturer = get_else (codes "manufacturer") (text []) msg;
  device_type = get_else (codes "devicetype") (text []) msg;
  secured = get_else (codes "secured") d.secured msg;
}

unfoldable pub on_hello : Dict → Action ⊤
unfolding identity_accepted greet
on_hello msg = do
  let serial = text_of (get_else (codes "serial") null msg)
  accepted ← identity_accepted serial
  if accepted then on_client (λ c. record c { device = greet serial msg c.device }) else pure tt

abbrev pub hash_type_eq : AuthHashType → AuthHashType → Bool
hash_type_eq pbkdf2 pbkdf2 = true
hash_type_eq bcrypt bcrypt = true
hash_type_eq _ _ = false

-- `AuthHashType(name)`
unfoldable pub hash_type_named : Text → Option AuthHashType
hash_type_named s =
    if text_eq s (codes "pbkdf2")
    then some pbkdf2
    else if text_eq s (codes "bcrypt")
    then some bcrypt
    else none

-- The hash that a request to sign in asks for; `none` is one the client does not know.
unfoldable pub requested_hash : Dict → Client → Option AuthHashType
unfolding hash_type_named
requested_hash msg c = elim (get (codes "hash") msg) [
  | some h ↦ hash_type_named (text_of h)
  | none ↦ elim c.device.device_type [
    | text t ↦ some (if text_eq t (codes "wattpilot_flex") then bcrypt else c.auth_hash_type)
    | _ ↦ some c.auth_hash_type
  ]
]

abbrev pub same_inputs : Option (Text × Text × AuthHashType) → Text → Text → AuthHashType → Bool
same_inputs none p s h = false
same_inputs (some (p', s', h')) p s h = text_eq p' p && (text_eq s' s && hash_type_eq h' h)

module _ (py : Library) where
  -- `_update_hashed_password`
  unfoldable pub update_hashed_password : Action ⊤
  update_hashed_password w =
      let c = w.owner in
      if text_eq c.password []
      then (ok tt, w)
      else if same_inputs c.hashed_from c.password c.device.serial c.auth_hash_type
      then (ok tt, w)
      else (elim (hash_password py c.password c.device.serial c.auth_hash_type) [
        | none ↦ (raised (value_raised (codes "ValueError")), w)
        | some secret ↦ (
          ok tt,
          record w {
            owner = record c {
              hashed_password = secret;
              hashed_from = some (c.password, c.device.serial, c.auth_hash_type);
            };
          },
        )
      ])

  -- The answer to a request to sign in.
  unfoldable pub auth_message : Text → Text → Text → List ℕ → Dict
  auth_message token1 token2 token3 secret = entry (codes "type") (text (codes "auth")) (
      entry (codes "token3") (text token3)
        (entry (codes "hash") (text (compute_auth_response py token1 token2 token3 secret)) end))

  -- `_on_auth_required`; `token3` is what `generate_token` gives.
  unfoldable pub on_auth_required : Text → Dict → Action ⊤
  unfolding requested_hash update_hashed_password auth_message write
  on_auth_required token3 msg w = elim (requested_hash msg w.owner) [
    | none ↦ (
      ok tt,
      reject
          (connection_error
            (codes "Unsupported password hash: " ++ device_text (get_else (codes "hash") null msg)))
          w,
    )
    | some h ↦
        (do
          on_client (λ c. record c { auth_hash_type = h })
          update_hashed_password
          c ← get_client
          write (
              auth_message (text_of (get_else (codes "token1") null msg))
                (text_of (get_else (codes "token2") null msg)) token3 c.hashed_password))
          w
  ]

  -- `_on_handshake`
  unfoldable pub on_handshake : Text → Text → Dict → Action ⊤
  unfolding on_hello on_auth_required
  on_handshake token3 msg_type msg w = elim (missing_field msg_type msg w.owner.device.serial) [
    | some field ↦ (
      ok tt,
      reject
          (handshake_error
            (codes "Charger sent " ++ (msg_type ++ (codes " without a usable " ++ field))))
          w,
    )
    | none ↦
        if text_eq msg_type (codes "hello") then on_hello msg w else on_auth_required token3 msg w
  ]

unfoldable pub on_auth_success : Action ⊤
on_auth_success w = (ok tt, mark_authenticated w)

unfoldable pub on_auth_error : Dict → Action ⊤
on_auth_error msg w = (
  ok tt,
  reject
      (authentication_error
        (device_text (get_else (codes "message") (text (codes "Unknown auth error")) msg)))
      w,
)
