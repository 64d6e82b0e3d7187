-- ===== src/Api/Client/Sound.antt =====
-- The client's handlers keep its connection sound, so the invariant holds of the two together.
mod Actions
use ha_wattpilot.Base.{
  if◌then◌else◌, ℕ, ◌≤◌, Bool, true, false, Option, none, some, List, [], ◌∷◌, arith, Text, codes,
  text_eq, Bool-cases, Option-cases, inl, inr, ◌||◌,
}
use ha_wattpilot.Json.{Value, null, bool, text, dict, namespace, Dict, end, entry, get_else, truthy}
use ha_wattpilot.Json.Namespaces.{plain_json, as_namespaces_dict}
use ha_wattpilot.Api.Errors.{identity_error, authentication_error, device_text, mask_serial}
use ha_wattpilot.Api.Library.{Library}
use ha_wattpilot.Api.Models.{missing_field}
use ha_wattpilot.Api.Connection.{
  new_connection, run, Event, skip, receive_full_status, receive_delta_status,
}
use ha_wattpilot.Api.Connection.Invariant.{
  IsSound, IsHandling, Keeps, reject-IsSound, skip-IsSound, receive_full_status-IsSound,
  receive_delta_status-IsSound, mark_authenticated-IsSound, new_connection-run-IsSound,
}
use ha_wattpilot.Api.Client.State.{
  value_raised, other_raised, wattpilot_raised, Callback, Client, accepted, Outcome, ok, raised,
  Wattpilot, Action, ⊤, ◌>>=◌, pure, on_client, on_connection, new_client, fail_pending_commands,
}
use ha_wattpilot.Api.Client.Properties.{
  call_all, update_property, store_property, apply_items, apply_status,
}
use ha_wattpilot.Api.Client.Commands.{write, correlation_key, pending_for}
use ha_wattpilot.Api.Client.Handshake.{
  on_hello, identity_accepted, greet, text_of, on_auth_required, requested_hash,
  update_hashed_password, auth_message, on_handshake, on_auth_success, on_auth_error,
}
use ha_wattpilot.Api.Client.Messages.{
  Frame, on_full_status, on_delta_status, status_object, on_response, answer, dispatch,
  handle_message, handle_frame,
}
use ha_wattpilot.Api.Client.Sound.Actions.{
  on_handshake-Preserves, on_full_status-Preserves, on_delta_status-Preserves,
  on_response-Preserves,
}

-- The same of an action that may sign in, which a handler does only while it handles a frame.
abbrev Handles : {A : Type 0} → Action A → Type 0
Handles m = (w : Wattpilot) → IsSound w → IsHandling w → IsSound (m w).1

module _ (py : Library) where
  dispatch-Handles : (token3 t : Text) (msg : Dict) → Handles (dispatch py token3 t msg)
  unfolding dispatch on_auth_success on_auth_error
  dispatch-Handles token3 t msg w s h =
      let shaken = on_handshake-Preserves py token3 t msg w s in
      let signed_in = mark_authenticated-IsSound w s h.fresh h.reads h.over in
      let refused =
        reject-IsSound
          (authentication_error
            (device_text (get_else (codes "message") (text (codes "Unknown auth error")) msg)))
          w s in
      let full = on_full_status-Preserves msg w s in
      let delta = on_delta_status-Preserves msg w s in
      let response = on_response-Preserves py msg w s in
      elim (Bool-cases (text_eq t (codes "hello") || text_eq t (codes "authRequired"))) [
        | inl e ↦ rw e shaken
        | inr n1 ↦ rw n1 (elim (Bool-cases (text_eq t (codes "authSuccess"))) [
          | inl e ↦ rw e signed_in
          | inr n2 ↦ rw n2 (elim (Bool-cases (text_eq t (codes "authError"))) [
            | inl e ↦ rw e refused
            | inr n3 ↦ rw n3 (elim (Bool-cases (text_eq t (codes "fullStatus"))) [
              | inl e ↦ rw e full
              | inr n4 ↦ rw n4 (elim (Bool-cases (text_eq t (codes "deltaStatus"))) [
                | inl e ↦ rw e delta
                | inr n5 ↦ rw n5 (elim (Bool-cases (text_eq t (codes "response"))) [
                  | inl e ↦ rw e response
                  | inr n6 ↦ rw n6 s
                ])
              ])
            ])
          ])
        ])
      ]

  handle_parsed-Handles :
      (p : Option Value) (token3 : Text)
      → Handles (handle_message py (record { parsed = p; token = token3 }))
  unfolding handle_message
  handle_parsed-Handles none token3 w s h = s
  handle_parsed-Handles (some (dict d)) token3 w s h = typed (get_else (codes "type") (text []) d)
    where
      typed :
          (v : Value)
          → IsSound (
              let o : Outcome ⊤ × Wattpilot =
                (elim v as (λ _. Action ⊤) [
                  | text t ↦ dispatch py token3 t (as_namespaces_dict d)
                  | _ ↦ pure tt
                ])
                  w in
              o.1)
      typed (text t) = dispatch-Handles token3 t (as_namespaces_dict d) w s h
      typed _ = s
  handle_parsed-Handles (some _) token3 w s h = s

  handle_frame-Keeps : Keeps (handle_frame py)
  unfolding handle_frame
  handle_frame-Keeps f w s h = handle_parsed-Handles f.parsed f.token w s h

  -- Whatever frames the charger sends, whatever the network does and whenever a caller opens or
  -- closes, in any order, a client that began fresh has a sound connection: the flag and the two
  -- events agree, a refused connection is not signed in, an open wakes only to the milestone it
  -- waits for or to a refusal, only a reader over a socket keeps a connection up, nothing dials
  -- beside a reader, the backoff stays in its range, and after a close that got through no reader,
  -- socket or attempt is left.
  pub run-IsSound :
      (auto : Bool) (lo hi : ℕ) (password : Text) (serial : Option Text) (es : List (Event Frame))
      → lo ≤ hi
      → IsSound (
          run fail_pending_commands
            (handle_frame py)
            es
            (new_connection auto lo hi (new_client password serial)))
  run-IsSound auto lo hi password serial es h =
      new_connection-run-IsSound fail_pending_commands (handle_frame py) handle_frame-Keeps auto lo
        hi (new_client password serial) es h
