-- ===== src/Hub/Writes.antt =====
-- What the hub makes of the errors of the client: `async_connect` and the writes.
use ha_wattpilot.Base.{◌≡◌, ◌↔◌, refl, Bool, true, false, some, Text, codes, if◌then◌else◌}
use ha_wattpilot.Api.Errors.{Error, authentication_error, identity_error, mask_serial}
use ha_wattpilot.Api.Client.{
  Raised, value_raised, other_raised, wattpilot_raised, Outcome, ok, raised,
}
use ha_wattpilot.Hub.State.{Hub}

-- The writes that the hub offers.
pub data Write : Type 0 where
  set_write trip_write energy_write cloud_on_write cloud_off_write install_write : Write

-- The exceptions of Home Assistant, by their translation key and what they are about: the masked
-- serials, or the error, which they quote through `describe_error`.
pub data HubError : Type 0 where
  config_entry_error : Text → Text → HubError
  auth_failed not_ready : Raised → HubError
  home_assistant_error : Text → Raised → HubError
  -- an exception that the hub does not expect, as it came
  passed_on : Raised → HubError

pub data HubOutcome (A : Type 0) : Type 0 where
  done : A → HubOutcome A
  refused : HubError → HubOutcome A

unfoldable pub translation_key : Write → Text
translation_key set_write = codes "set_failed"
translation_key trip_write = codes "next_trip_failed"
translation_key energy_write = codes "next_trip_energy_failed"
translation_key cloud_on_write = codes "cloud_enable_failed"
translation_key cloud_off_write = codes "cloud_disable_failed"
translation_key install_write = codes "firmware_update_failed"

-- `installing_firmware`, set around an installation whether it fails or not.
unfoldable pub install_begin : Hub → Hub
install_begin h = record h { installing_firmware = true }

unfoldable pub install_end : Hub → Hub
install_end h = record h { installing_firmware = false }

abbrev pub asks_for_password : HubError → Bool
asks_for_password (auth_failed _) = true
asks_for_password _ = false

abbrev pub asks_to_retry : HubError → Bool
asks_to_retry (not_ready _) = true
asks_to_retry _ = false

-- `is_transport` says which exception classes are WebSocketException or OSError.
module _ (is_transport : Text → Bool) where
  -- `_WRITE_ERRORS`
  unfoldable pub is_write_error : Raised → Bool
  is_write_error (wattpilot_raised _) = true
  is_write_error (other_raised name) = is_transport name
  is_write_error (value_raised _) = false

  -- A write, given what the call of the client ended with.
  unfoldable pub write_result : {A : Type 0} → Write → Outcome A → HubOutcome A
  unfolding is_write_error translation_key
  write_result write (ok a) = done a
  write_result write (raised x) =
      refused
        (if is_write_error x then home_assistant_error (translation_key write) x else passed_on x)

  -- What `async_connect` raises, for a hub of a charger with this serial.
  unfoldable pub connect_error : Text → Raised → HubError
  unfolding is_write_error
  connect_error serial (wattpilot_raised (identity_error _ _ found)) =
      config_entry_error (mask_serial (some serial)) (mask_serial (some found))
  connect_error serial (wattpilot_raised (authentication_error e)) =
      auth_failed (wattpilot_raised (authentication_error e))
  connect_error serial x = if is_write_error x then not_ready x else passed_on x

  -- A setup whose connect fails with an error of the client asks for a new password exactly after
  -- a refused sign-in, and is tried again by itself exactly where neither that nor the identity of
  -- the charger was the reason.
  connect_error_lem :
      (serial : Text) (e : Error)
      → ((asks_for_password (connect_error serial (wattpilot_raised e)) ≡ true)
          ↔ ((t : Text) × (e ≡ authentication_error t)))
        × ((asks_to_retry (connect_error serial (wattpilot_raised e)) ≡ true) ↔ (
            ((t : Text) → ¬ (e ≡ authentication_error t))
            × ((a b c : Text) → ¬ (e ≡ identity_error a b c))))
  unfolding connect_error
  connect_error_lem serial (authentication_error t) =
      (((λ h. (t, refl)), (λ h. refl)), ((λ h. cc), (λ h. absurd (h.0 t refl))))
  connect_error_lem serial (identity_error a b c) =
      (((λ h. cc), (λ h. cc (h.1))), ((λ h. cc), (λ h. absurd (h.1 a b c refl))))
  connect_error_lem serial _ =
      (((λ h. cc), (λ h. cc (h.1))), ((λ h. ((λ t e. cc), (λ a b c e. cc))), (λ h. refl)))
