-- ===== src/Services.antt =====
-- custom_components/wattpilot/services.py: which hub a service call reaches, and what it asks of it.
use ha_wattpilot.Base.{
  ℕ, Bool, true, false, ◌&&◌, Option, none, some, Text, codes, text_eq, if◌then◌else◌,
}

-- What Home Assistant keeps of an entry, as far as it tells whether it is ours and loaded: its domain,
-- and whether its `runtime_data` is a hub.
pub record Loaded : Type 0 where
  pub domain : Text
  pub has_hub : Bool

pub data ServiceCall : Type 0 where
  -- in seconds since midnight
  set_next_trip : Text → ℕ → ServiceCall
  set_goe_cloud : Text → Bool → ServiceCall
  disconnect_charger reconnect_charger : Text → ServiceCall

pub data HubRequest : Type 0 where
  next_trip : ℕ → HubRequest
  enable_cloud disable_cloud disconnect reconnect : HubRequest

abbrev pub device_of : ServiceCall → Text
device_of (set_next_trip device time) = device
device_of (set_goe_cloud device on) = device
device_of (disconnect_charger device) = device
device_of (reconnect_charger device) = device

unfoldable pub request_of : ServiceCall → HubRequest
request_of (set_next_trip device time) = next_trip time
request_of (set_goe_cloud device true) = enable_cloud
request_of (set_goe_cloud device false) = disable_cloud
request_of (disconnect_charger device) = disconnect
request_of (reconnect_charger device) = reconnect

-- The entry of a device, and the entry with an id, as Home Assistant's registries give them.
module _ (entry_of_device : Text → Option Text) (entry_with_id : Text → Option Loaded) where
  -- `_hub_for_device`: the entry whose hub it is, `none` being the error for an invalid device.
  unfoldable pub hub_for_device : Text → Option Text
  hub_for_device device = elim (entry_of_device device) [
    | none ↦ none
    | some id ↦ elim (entry_with_id id) [
      | none ↦ none
      | some e ↦ if text_eq e.domain (codes "wattpilot") && e.has_hub then some id else none
    ]
  ]

  -- A call of a service: the hub it reaches, and what it asks of it.
  unfoldable pub call_service : ServiceCall → Option (Text × HubRequest)
  unfolding hub_for_device request_of
  call_service call = elim (hub_for_device (device_of call)) [
    | none ↦ none
    | some id ↦ some (id, request_of call)
  ]
