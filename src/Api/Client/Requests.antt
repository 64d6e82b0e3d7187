-- ===== src/Api/Client/Requests.antt =====
-- The commands of `Wattpilot` that take more than one write or wait, `connect`, and what it tells of
-- the charger.
use ha_wattpilot.Base.{
  ℕ, Bool, true, false, ◌&&◌, Option, none, some, ◌++◌, Text, codes, text_eq, if◌then◌else◌,
}
use ha_wattpilot.Json.{Value, null, bool, text, Dict, get_else, truthy}
use ha_wattpilot.Api.Errors.{connection_error}
use ha_wattpilot.Api.Models.{CloudInfo}
use ha_wattpilot.Api.Library.{Library}
use ha_wattpilot.Api.Client.State.{
  wattpilot_raised, Callback, Client, Outcome, ok, raised, Wattpilot, Action, ⊤, ◌>>=◌, ◌>>◌,
}
use ha_wattpilot.Api.Client.Properties.{on_property_change, unsubscribe}
use ha_wattpilot.Api.Client.Commands.{set_property}
use ha_wattpilot.Api.Client.Firmware.{version_to_install}

-- `get_property`
unfoldable pub get_property : Text → Value → Client → Value
get_property name default c = get_else name default c.all_props

unfoldable pub variant : Client → Value
unfolding get_property
variant = get_property (codes "var") null

unfoldable pub model : Client → Value
unfolding get_property
model = get_property (codes "typ") null

-- The definition in the cache, or what reading it gives.
unfoldable pub get_api_def : Option Dict → Outcome Dict → Outcome Dict
get_api_def (some cached) load = ok cached
get_api_def none load = load

-- `connect`, given the open and the close of the connection and the reading of the definition: what
-- the cache holds then.
unfoldable pub connect : Action ⊤ → Action ⊤ → Option Dict → Outcome Dict → Action Dict
unfolding get_api_def
connect open_call close_call cache load = do
  open_call
  elim (get_api_def cache load) [
    | ok properties ↦ (λ w. (ok properties, w))
    | raised x ↦ (λ w. (raised x, (close_call w).1))
  ]

-- `note_key`, by whether it sets `key_arrived`.
unfoldable pub note_key : Text → Value → Bool
note_key name value = text_eq name (codes "cak") && truthy value

-- The end of `enable_cloud_api`, once the key is there.
unfoldable pub cloud_info : Client → Outcome CloudInfo
cloud_info c =
    if truthy c.cak
    then ok (record {
      enabled = true;
      api_key = c.cak;
      url = codes "https://app.wattpilot.io/app/" ++ c.device.serial;
    })
    else raised (wattpilot_raised (connection_error (codes "Cloud API key arrived empty")))

module _ (py : Library) (properties : Dict) (settled : Option ℕ → Action ⊤) where
  -- A write, and the wait for the answer to the number that it gives.
  unfoldable pub write_and_wait : Text → Value → Action ⊤
  unfolding set_property
  write_and_wait name value = set_property py properties name value >>= settled

  unfoldable pub set_next_trip_energy : Value → Action ⊤
  unfolding write_and_wait
  set_next_trip_energy energy =
      write_and_wait (codes "esk") (bool true) >> write_and_wait (codes "fte") energy

  unfoldable pub disable_cloud_api : Action ⊤
  unfolding write_and_wait
  disable_cloud_api = write_and_wait (codes "cae") (bool false)

  -- `enable_cloud_api`, given the callback that calls `note_key`, and what its wait came to: whether
  -- the key arrived in time.
  unfoldable pub enable_cloud_api : Callback → (Wattpilot → Bool × Wattpilot) → Action CloudInfo
  unfolding write_and_wait on_property_change unsubscribe cloud_info
  enable_cloud_api noted wait_key w =
      let (r, w') =
        write_and_wait (codes "cae") (bool true)
          (record w { owner = on_property_change noted w.owner }) in
      elim r [
        | raised x ↦ (raised x, record w' { owner = unsubscribe noted.id w'.owner })
        | ok _ ↦
            let (arrived, w'') =
              let waited : Bool × Wattpilot =
                if truthy w'.owner.cak then (true, w') else wait_key w' in
              waited in
            let gone = unsubscribe noted.id w''.owner in
            (
              if arrived
                  then cloud_info gone
                  else raised (
                      wattpilot_raised
                        (connection_error (codes "Timeout waiting for cloud API key"))),
              record w'' { owner = gone },
            )
      ]

  -- `install_firmware_update` up to its wait for the reboot.
  unfoldable pub write_version : Option Text → Action ⊤
  unfolding write_and_wait version_to_install
  write_version version w = elim (version_to_install py.str_of version w.owner) [
    | ok chosen ↦ write_and_wait (codes "oct") (text chosen) w
    | raised x ↦ (raised x, w)
  ]
