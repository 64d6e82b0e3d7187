-- ===== src/Setup/Entry.antt =====
-- `async_setup_entry` around the identity of the entry, and `async_unload_entry`.
use ha_wattpilot.Base.{Bool, true, false, Option, none, some, Text, codes, if◌then◌else◌}
use ha_wattpilot.Json.{null, get_else}
use ha_wattpilot.Entries.{ConfigEntry, awaits_serial, is_value}
use ha_wattpilot.Hub.{HubError, HubOutcome, done, refused}
use ha_wattpilot.Setup.Adopt.{Installation, SetupError, check_identity}

-- How a setup ends: done; refused for a cloud entry, by the connect or for the charger's identity; or
-- with an exception of the platforms.
pub data SetupEnd : Type 0 where
  set_up cloud_not_supported platforms_failed : SetupEnd
  not_connected : HubError → SetupEnd
  not_adopted : SetupError → SetupEnd

-- The serial that the hub is built with.
unfoldable pub serial_to_check : ConfigEntry → Option Text
unfolding awaits_serial
serial_to_check e = if awaits_serial e then none else e.unique_id

-- `_finish_setup`, given whether the platforms were set up.
unfoldable pub finish_setup : ConfigEntry → Text → Bool → Installation → SetupEnd × Installation
unfolding check_identity
finish_setup e serial forwarded h =
    let (refusal, h') = check_identity e serial h in
    elim refusal [
      | some err ↦ (not_adopted err, h')
      | none ↦ ((if forwarded then set_up else platforms_failed), h')
    ]

-- `async_setup_entry`, given what the connect of its hub ended with: how it ends, and whether it shuts
-- the hub down.
unfoldable pub setup_entry :
    ConfigEntry → HubOutcome Text → Bool → Installation → SetupEnd × Bool × Installation
unfolding finish_setup is_value
setup_entry e connect forwarded h =
    if is_value (codes "cloud") (get_else (codes "connection_type") null e.options)
    then (cloud_not_supported, false, h)
    else (elim connect [
      | refused err ↦ (not_connected err, false, h)
      | done serial ↦
          let (ended, h') = finish_setup e serial forwarded h in
          elim ended [ set_up ↦ (set_up, false, h') | failed ↦ (failed, true, h') ]
    ])

-- `async_unload_entry`: the answer, which is also whether the hub is shut down.
unfoldable pub unload_entry : Bool → Bool × Bool
unload_entry unloaded = (unloaded, unloaded)
