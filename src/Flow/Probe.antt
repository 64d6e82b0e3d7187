-- ===== src/Flow/Probe.antt =====
-- The probe of a flow: `_async_validate`, `_identity_error` and `_async_validate_for`.
use ha_wattpilot.Base.{
  Bool, not, ◌&&◌, Option, none, some, List, [], Text, codes, if◌then◌else◌, or_default,
}
use ha_wattpilot.Api.Client.{Raised, Outcome, ok, raised}
use ha_wattpilot.Hub.{
  HubError, config_entry_error, auth_failed, not_ready, home_assistant_error, passed_on,
  connect_error,
}
use ha_wattpilot.Entries.{ConfigEntry, has_unique_id, awaits_serial, serial_taken_by_other_entry}

-- `(errors, serial)`: no errors and the serial, or the field and the key of the one error.
pub data Checked : Type 0 where
  no_errors : Text → Checked
  form_error : Text → Text → Checked
  escaped : Raised → Checked

-- `is_transport` says which exception classes are WebSocketException or OSError, and `is_value_error`
-- which exceptions are a ValueError.
module _ (is_transport : Text → Bool) (is_value_error : Raised → Bool) where
  -- `PROBE_ERRORS`. An error of a write comes from no connect.
  unfoldable pub probe_error : HubError → Checked
  probe_error (config_entry_error _ _) = form_error (codes "base") (codes "wrong_device")
  probe_error (auth_failed _) = form_error (codes "base") (codes "invalid_auth")
  probe_error (not_ready _) = form_error (codes "base") (codes "cannot_connect")
  probe_error (home_assistant_error _ x) = escaped x
  probe_error (passed_on x) =
      if is_value_error x then form_error (codes "host") (codes "invalid_host") else escaped x

  -- `_async_validate`, for a hub with this serial, given what the connect of its client ended with:
  -- the serial of the charger, or an exception.
  unfoldable pub async_validate : Option Text → Outcome Text → Checked
  unfolding probe_error connect_error
  async_validate serial (ok found) = no_errors found
  async_validate serial (raised x) =
      probe_error (connect_error is_transport (or_default serial []) x)

-- The serial that the client is built with.
unfoldable pub known_serial : ConfigEntry → Option Text
unfolding awaits_serial
known_serial e = if awaits_serial e then none else e.unique_id

-- `_identity_error`
unfoldable pub identity_error : ConfigEntry → Text → List ConfigEntry → Option Text
unfolding awaits_serial has_unique_id serial_taken_by_other_entry
identity_error e serial es =
    if not (awaits_serial e) && not (has_unique_id serial e)
    then some (codes "wrong_device")
    else if serial_taken_by_other_entry e serial es
    then some (codes "charger_has_entry")
    else none

-- What `_async_validate_for` makes of the result of the probe.
unfoldable pub validate_for : ConfigEntry → Checked → List ConfigEntry → Checked
unfolding identity_error
validate_for e (no_errors serial) es = elim (identity_error e serial es) [
  | some key ↦ form_error (codes "base") key
  | none ↦ no_errors serial
]
validate_for e failed es = failed
