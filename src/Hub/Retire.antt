-- ===== src/Hub/Retire.antt =====
-- A hub that was shut down tells the entities nothing of the charger any more.
use ha_wattpilot.Base.{◌≡◌, refl, Bool, true, false, Option, List, [], ◌∷◌, arith, Text, All}
use ha_wattpilot.Json.{Value, end}
use ha_wattpilot.Api.Client.{Wattpilot}
use ha_wattpilot.Hub.State.{
  Hub, send_all, update_availability, flush_pending, clear_refusals, is_available, connect_end,
  reconnect_begin, disconnect_begin, disconnect_end, shutdown_begin,
}
use ha_wattpilot.Hub.Steps.{
  HubEvent, hub_step, hub_run, connecting_began, connecting_ended, dispatch_started,
  reconnecting_began, disconnecting_began, shutting_down_began, disconnecting_ended, pushed,
  flush_due, check_due,
}
use ha_wattpilot.Hub.Deliver.{heard}

-- The steps of a setup, which only a new hub is put through.
abbrev pub sets_up : HubEvent → Bool
sets_up connecting_began = true
sets_up dispatch_started = true
sets_up _ = false

-- Shut down for good, with all that the entities heard of properties.
pub record IsRetired (told : Text → Option Value) (h : Hub) : Type 0 where
  pub retired : h.retired ≡ true
  pub torn_down : h.torn_down ≡ true
  pub unsubscribed : h.subscribed ≡ false
  pub no_timer : h.timer ≡ false
  pub no_flush_timer : h.flush_timer ≡ false
  pub empty : h.pending ≡ end
  pub silent : (k : Text) → heard k h.signals ≡ told k

update_availability-IsRetired :
    (told : Text → Option Value) (a : Bool) (h : Hub)
    → IsRetired told h
    → IsRetired told (update_availability a h)
unfolding update_availability clear_refusals flush_pending send_all heard
update_availability-IsRetired told a h r = ground arith

hub_step-IsRetired :
    (told : Text → Option Value) (e : HubEvent) (h : Hub)
    → sets_up e ≡ false
    → IsRetired told h
    → IsRetired told (hub_step e h)
unfolding hub_step connect_end reconnect_begin disconnect_begin disconnect_end shutdown_begin
    clear_refusals
hub_step-IsRetired told (connecting_ended reached) h on r =
    ground (arith, update_availability-IsRetired told true h r)
hub_step-IsRetired told disconnecting_ended h on r = update_availability-IsRetired told false h r
hub_step-IsRetired told connecting_began h on r = cc
hub_step-IsRetired told dispatch_started h on r = cc
hub_step-IsRetired told reconnecting_began h on r = ground arith
hub_step-IsRetired told disconnecting_began h on r = ground arith
hub_step-IsRetired told shutting_down_began h on r = ground arith
hub_step-IsRetired told (pushed w k v) h on r = ground arith
hub_step-IsRetired told flush_due h on r = ground arith
hub_step-IsRetired told (check_due known w) h on r = ground arith

hub_run-IsRetired :
    (told : Text → Option Value) (es : List HubEvent) (h : Hub)
    → All (λ e. sets_up e ≡ false) es
    → IsRetired told h
    → IsRetired told (hub_run es h)
unfolding hub_run
hub_run-IsRetired told [] h on r = r
hub_run-IsRetired told (e ∷ es) h on r =
    hub_run-IsRetired told es (hub_step e h) on.1 (hub_step-IsRetired told e h on.0 r)

-- From a shutdown on, and through any reconnects, pushes, timers and ends of waits that still come,
-- a hub stays retired and without subscription or timers, shows no charger as available, and its
-- entities hear nothing further of any property.
pub shutdown_begin-run-IsRetired :
    (es : List HubEvent) (h : Hub) (w : Wattpilot)
    → All (λ e. sets_up e ≡ false) es
    → IsRetired (λ k. heard k h.signals) (hub_run es (shutdown_begin h))
      × (is_available w (hub_run es (shutdown_begin h)) ≡ false)
unfolding shutdown_begin clear_refusals disconnect_begin is_available
shutdown_begin-run-IsRetired es h w on =
    let begun : IsRetired (λ k. heard k h.signals) (shutdown_begin h) = record {
      retired = refl;
      torn_down = refl;
      unsubscribed = refl;
      no_timer = refl;
      no_flush_timer = refl;
      empty = refl;
      silent = λ k. refl;
    } in
    let ran = hub_run-IsRetired (λ k. heard k h.signals) es (shutdown_begin h) on begun in
    (ran, rw ran.torn_down refl)
