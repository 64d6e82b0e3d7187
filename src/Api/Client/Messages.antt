-- ===== src/Api/Client/Messages.antt =====
-- `_handle_message`: one branch per message type.
use ha_wattpilot.Base.{ℕ, false, ◌||◌, Option, none, some, [], Text, codes, text_eq, if◌then◌else◌}
use ha_wattpilot.Json.{Value, null, bool, text, dict, namespace, Dict, get_else, truthy}
use ha_wattpilot.Json.Namespaces.{as_namespaces_dict}
use ha_wattpilot.Api.Errors.{device_text, rejected}
use ha_wattpilot.Api.Library.{Library}
use ha_wattpilot.Api.Connection.{receive_full_status, receive_delta_status}
use ha_wattpilot.Api.Client.State.{
  Raised, value_raised, other_raised, wattpilot_raised, Client, Future, accepted, failed, Outcome,
  ok, raised, Wattpilot, Action, ⊤, pure, raise, ◌>>=◌, ◌>>◌, on_client, on_connection, is_waiting,
  settle,
}
use ha_wattpilot.Api.Client.Properties.{apply_status}
use ha_wattpilot.Api.Client.Commands.{correlation_key, pending_for}
use ha_wattpilot.Api.Client.Handshake.{on_handshake, on_auth_success, on_auth_error}

-- `_status_object`
unfoldable pub status_object : Dict → Outcome Value
status_object msg = elim (get_else (codes "status") null msg) [
  | namespace d ↦ ok (namespace d)
  | _ ↦ raised (value_raised (codes "TypeError"))
]

unfoldable pub on_full_status : Dict → Action ⊤
unfolding status_object
on_full_status msg = do
  status ← λ w. (status_object msg, w)
  apply_status status
  on_connection (receive_full_status (truthy (get_else (codes "partial") (bool false) msg)))

unfoldable pub on_delta_status : Dict → Action ⊤
unfolding status_object
on_delta_status msg = do
  status ← λ w. (status_object msg, w)
  on_connection receive_delta_status
  apply_status status

-- Settle the future that a response found, unless it is done already.
unfoldable pub answer : Option ℕ → Future → Client → Client
answer none r c = c
answer (some n) r c =
    if is_waiting n c.futures then record c { futures = settle n r c.futures } else c

-- A frame: what `json.loads` makes of it, `none` being a ValueError, and the token that
-- `generate_token` would give while it is handled.
pub record Frame : Type 0 where
  pub parsed : Option Value
  pub token : Text

module _ (py : Library) where
  -- `_on_response`. The log line of a refusal that nobody waits for is left out.
  unfoldable pub on_response : Dict → Action ⊤
  unfolding correlation_key pending_for answer
  on_response msg w =
      let key = correlation_key py.str_of (get_else (codes "requestId") null msg) in
      let found = pending_for key w.owner.pending_commands in
      if truthy (get_else (codes "success") null msg)
      then ((apply_status (get_else (codes "status") null msg) >> on_client (answer found accepted))
          w)
      else (on_client
          (answer found (
            failed (
              rejected key
                (device_text (get_else (codes "message") (text (codes "unknown")) msg)))))
          w)

  -- The `match` of `_handle_message`, on the type and the namespace of the frame.
  unfoldable pub dispatch : Text → Text → Dict → Action ⊤
  unfolding on_full_status on_delta_status on_response on_handshake on_auth_success on_auth_error
  dispatch token3 msg_type msg =
      if text_eq msg_type (codes "hello") || text_eq msg_type (codes "authRequired")
      then on_handshake py token3 msg_type msg
      else if text_eq msg_type (codes "authSuccess")
      then on_auth_success
      else if text_eq msg_type (codes "authError")
      then on_auth_error msg
      else if text_eq msg_type (codes "fullStatus")
      then on_full_status msg
      else if text_eq msg_type (codes "deltaStatus")
      then on_delta_status msg
      else if text_eq msg_type (codes "response")
      then on_response msg
      else pure tt

  unfoldable pub handle_message : Frame → Action ⊤
  unfolding dispatch
  handle_message f = elim f.parsed [
    | none ↦ raise (value_raised (codes "JSONDecodeError"))
    | some (dict d) ↦ (elim (get_else (codes "type") (text []) d) [
      | text t ↦ dispatch f.token t (as_namespaces_dict d)
      | _ ↦ pure tt
    ])
    | some _ ↦ raise (value_raised (codes "AttributeError"))
  ]

  -- The cause that `_read_frames` names for an exception of the handler.
  unfoldable pub cause_of : Raised → Text
  cause_of (value_raised cause) = cause
  cause_of (other_raised cause) = cause
  cause_of (wattpilot_raised _) = codes "WattpilotError"

  -- The handler as the connection calls it.
  unfoldable pub handle_frame : Frame → Wattpilot → Wattpilot × Option Text
  unfolding handle_message cause_of
  handle_frame f w =
      let (r, w') = handle_message f w in
      (w', elim r [ ok _ ↦ none | raised x ↦ some (cause_of x) ])
