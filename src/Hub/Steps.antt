-- ===== src/Hub/Steps.antt =====
-- Every step of a hub, in any order. The charger is as it is at the step.
use ha_wattpilot.Base.{Bool, none, some, List, [], ◌∷◌, Text, if◌then◌else◌}
use ha_wattpilot.Json.{Value}
use ha_wattpilot.Api.Client.{Wattpilot}
use ha_wattpilot.Hub.State.{
  Hub, connect_begin, connect_end, start_dispatch, reconnect_begin, disconnect_begin,
  disconnect_end, shutdown_begin, handle_property_change, flush_pending, check_availability,
}

pub data HubEvent : Type 0 where
  -- `async_connect` and what its wait ended with, `start_dispatch`, `async_reconnect`
  connecting_began : HubEvent
  connecting_ended : Bool → HubEvent
  dispatch_started reconnecting_began : HubEvent
  -- `async_disconnect` and `async_shutdown`, and the end of their wait
  disconnecting_began shutting_down_began disconnecting_ended : HubEvent
  -- A push of the charger, which reaches a subscribed hub only, and the two timers.
  pushed : Wattpilot → Text → Value → HubEvent
  flush_due : HubEvent
  check_due : Bool → Wattpilot → HubEvent

unfoldable pub hub_step : HubEvent → Hub → Hub
unfolding connect_begin connect_end start_dispatch reconnect_begin disconnect_begin disconnect_end
    shutdown_begin handle_property_change flush_pending check_availability
hub_step connecting_began h = connect_begin h
hub_step (connecting_ended reached) h = connect_end reached h
hub_step dispatch_started h = start_dispatch h
hub_step reconnecting_began h = elim (reconnect_begin h) [ some h' ↦ h' | none ↦ h ]
hub_step disconnecting_began h = disconnect_begin h
hub_step shutting_down_began h = shutdown_begin h
hub_step disconnecting_ended h = disconnect_end h
hub_step (pushed w key value) h = if h.subscribed then handle_property_change w key value h else h
hub_step flush_due h = if h.flush_timer then flush_pending h else h
hub_step (check_due known w) h = if h.timer then check_availability known w h else h

unfoldable pub hub_run : List HubEvent → Hub → Hub
unfolding hub_step
hub_run [] h = h
hub_run (e ∷ es) h = hub_run es (hub_step e h)
