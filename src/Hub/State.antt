-- ===== src/Hub/State.antt =====
-- The fields of `WattpilotHub`, what it has told Home Assistant, and its methods between waits.
use ha_wattpilot.Base.{
  ℕ, Bool, true, false, not, ◌&&◌, ◌||◌, Option, none, some, List, [], ◌∷◌, Text, if◌then◌else◌,
  ◌==◌,
}
use ha_wattpilot.Json.{Value, Dict, end, entry, insert}
use ha_wattpilot.Api.Errors.{Error, authentication_error, identity_error, is_final_refusal}
use ha_wattpilot.Api.Client.{Wattpilot}

-- A dispatcher signal of the entry.
pub data Signal : Type 0 where
  property : Text → Value → Signal
  availability : Bool → Signal

pub record Hub : Type 0 where
  -- seconds between two flushes; 0 forwards every push at once
  pub update_interval : ℕ
  pub last_available : Option Bool
  -- whether the subscription and the two timers are set
  pub subscribed : Bool
  pub timer : Bool
  pub flush_timer : Bool
  pub pending : Dict
  pub torn_down : Bool
  pub retired : Bool
  pub installing_firmware : Bool
  -- What Home Assistant was told: the signals, the latest first, the repair issues with what they
  -- quote, and whether a reauth flow was started.
  pub signals : List Signal
  pub wrong_charger : Option Text
  pub charger_refused : Option Error
  pub reauth : Bool

unfoldable pub new_hub : ℕ → Hub
new_hub update_interval = record {
  update_interval = update_interval;
  last_available = none;
  subscribed = false;
  timer = false;
  flush_timer = false;
  pending = end;
  torn_down = false;
  retired = false;
  installing_firmware = false;
  signals = [];
  wrong_charger = none;
  charger_refused = none;
  reauth = false;
}

-- `available`
unfoldable pub is_available : Wattpilot → Hub → Bool
is_available w h =
    not h.torn_down
    && (w.authenticated
        && (w.initialized || (elim h.last_available [ some true ↦ true | _ ↦ false ])))

-- The loop of `_flush_pending`.
unfoldable pub send_all : Dict → List Signal → List Signal
send_all end ss = ss
send_all (entry key value d) ss = send_all d (property key value ∷ ss)

unfoldable pub flush_pending : Hub → Hub
unfolding send_all
flush_pending h = record h { pending = end; signals = send_all h.pending h.signals }

unfoldable pub clear_refusals : Hub → Hub
clear_refusals h = record h { wrong_charger = none; charger_refused = none }

-- `available == self._last_available`
unfoldable pub is_claimed : Bool → Option Bool → Bool
is_claimed a none = false
is_claimed true (some b) = b
is_claimed false (some b) = not b

-- `_update_availability`. Its log lines, which `expected` decides, are left out.
unfoldable pub update_availability : Bool → Hub → Hub
unfolding flush_pending clear_refusals is_claimed
update_availability available h =
    if is_claimed available h.last_available
    then h
    else (let claimed = record h { last_available = some available } in
        let told = if available then clear_refusals (flush_pending claimed) else claimed in
        record told { signals = availability available ∷ told.signals })

-- `_handle_property_change`
unfoldable pub handle_property_change : Wattpilot → Text → Value → Hub → Hub
unfolding update_availability is_available
handle_property_change w key value h =
    let h' =
      if h.update_interval == 0
      then record h { signals = property key value ∷ h.signals }
      else record h { pending = insert key value h.pending } in
    update_availability (is_available w h') h'

-- What `_check_availability` does about `refusal`; `known` says whether the entry still exists.
unfoldable pub report_refusal : Bool → Text → Error → Hub → Hub
report_refusal known serial (authentication_error _) h =
    if known then record h { reauth = true } else h
report_refusal known serial (identity_error _ _ _) h = record h { wrong_charger = some serial }
report_refusal known serial refusal h = record h { charger_refused = some refusal }

unfoldable pub check_availability : Bool → Wattpilot → Hub → Hub
unfolding update_availability is_available report_refusal
check_availability known w h =
    let checked = update_availability (is_available w h) h in
    elim w.fatal_error [
      | none ↦ checked
      | some e ↦
          if is_final_refusal (some e)
          then report_refusal known w.owner.device.serial e checked
          else checked
    ]

unfoldable pub start_dispatch : Hub → Hub
start_dispatch h =
    if h.subscribed
    then h
    else record h { subscribed = true; timer = true; flush_timer = not (h.update_interval == 0) }

-- `async_connect`, up to its wait and behind it; a failed one only raises.
unfoldable pub connect_begin : Hub → Hub
connect_begin h = record h { torn_down = false }

unfoldable pub connect_end : Bool → Hub → Hub
unfolding update_availability
connect_end reached h = if reached then update_availability true h else h

-- `async_reconnect` up to its wait; `none` is the error that a retired hub raises.
unfoldable pub reconnect_begin : Hub → Option Hub
unfolding start_dispatch connect_begin
reconnect_begin h = if h.retired then none else some (connect_begin (start_dispatch h))

-- `async_disconnect`, up to its wait and in its `finally`.
unfoldable pub disconnect_begin : Hub → Hub
disconnect_begin h = record h {
  torn_down = true;
  subscribed = false;
  timer = false;
  flush_timer = false;
  pending = end;
}

unfoldable pub disconnect_end : Hub → Hub
unfolding update_availability
disconnect_end h = update_availability false h

-- `async_shutdown` up to its wait; the error of a failed close is swallowed.
unfoldable pub shutdown_begin : Hub → Hub
unfolding clear_refusals disconnect_begin
shutdown_begin h = disconnect_begin (clear_refusals (record h { retired = true }))
