-- ===== src/Api/Connection/Invariant.antt =====
-- What holds of a connection between any two steps of its tasks.
use ha_wattpilot.Base.{
  ℕ, ◌≤◌, ◌≡◌, Bool, true, false, not, Option, none, some, List, [], ◌∷◌, arith, Text, is_some,
}
use ha_wattpilot.Api.Connection.State.{
  reading, Phase, dialing, Connection, new_connection, mark_authenticated, mark_initialized,
  receive_full_status, receive_delta_status, reject, skip,
}
use ha_wattpilot.Api.Connection.Lifecycle.{
  tear_down, resume_reconnecting, attempt_failed, open_call, open_dialed, open_poll, close_call,
  close_finish,
}
use ha_wattpilot.Api.Connection.Reader.{
  frames_ended, handled, read_frame, socket_ended, wake, reconnected, guard_expired,
}
use ha_wattpilot.Api.Connection.Steps.{
  Event, step, run, open_called, close_called, resume_called, dialed, polled, gave_up, closed,
  frame, ended, woke, guard_fired, redialed,
}
use ha_wattpilot.Api.Errors.{Error}

abbrev pub is_dialing : Option (Phase × Bool) → Bool
is_dialing none = false
is_dialing (some (dialing, _)) = true
is_dialing (some (_, _)) = false

pub record IsSound {C : Type 0} (c : Connection C) : Type 0 where
  -- The two events mirror the flag.
  pub disconnected : c.disconnected_event ≡ not c.authenticated
  pub signed_in : c.authenticated ≡ true → c.authenticated_event ≡ true
  -- A refusal signs out, and wakes the waits without a milestone.
  pub refused : is_some c.fatal_error ≡ true → c.authenticated ≡ false
  pub authentication_woken :
      c.authenticated_event ≡ true → is_some c.fatal_error ≡ false → c.authenticated ≡ true
  pub initialization_woken :
      c.initialized_event ≡ true → is_some c.fatal_error ≡ false → c.initialized ≡ true
  -- Only a reader that reads a socket keeps a connection up.
  pub read_by : c.authenticated ≡ true → c.message_loop_task ≡ some reading
  pub over_socket : c.authenticated ≡ true → is_some c.socket ≡ true
  -- An attempt that dials has no reader beside it.
  pub dialing_alone : is_dialing c.opening ≡ true → c.message_loop_task ≡ none
  -- The backoff stays in its range.
  pub delay_low : c.reconnect_delay_min ≤ c.reconnect_delay
  pub delay_high : c.reconnect_delay ≤ c.reconnect_delay_max
  -- A close that got through leaves nothing running until the next open.
  pub closing_stopped : c.closing ≡ true → c.stopped ≡ true
  pub no_reader : c.stopped ≡ true → c.closing ≡ false → c.message_loop_task ≡ none
  pub no_socket : c.stopped ≡ true → c.closing ≡ false → c.socket ≡ none
  pub no_attempt : c.stopped ≡ true → c.closing ≡ false → c.opening ≡ none

module _ {C : Type 0} where
  pub new_connection-IsSound :
      (auto : Bool) (lo hi : ℕ) (owner : C) → lo ≤ hi → IsSound (new_connection auto lo hi owner)
  unfolding new_connection
  new_connection-IsSound auto lo hi owner h = ground arith

module _ {C : Type 0} (on_reset : Text → C → C) where
  close_call-IsSound : (c : Connection C) → IsSound c → IsSound (close_call on_reset c)
  unfolding close_call
  close_call-IsSound c s = ground arith

  tear_down-IsSound : (c : Connection C) → IsSound c → IsSound (tear_down on_reset c)
  unfolding tear_down
  tear_down-IsSound c s = ground arith

  resume_reconnecting-IsSound :
      (c : Connection C) → IsSound c → IsSound (resume_reconnecting on_reset false c)
  unfolding resume_reconnecting
  resume_reconnecting-IsSound c s = ground arith

  attempt_failed-IsSound : (c : Connection C) → IsSound c → IsSound (attempt_failed on_reset c)
  unfolding attempt_failed
  attempt_failed-IsSound c s = ground arith

  open_call-IsSound : (c : Connection C) → IsSound c → IsSound (open_call on_reset c)
  unfolding open_call
  open_call-IsSound c s = ground arith

  open_dialed-IsSound :
      (reached : Bool) (c : Connection C) → IsSound c → IsSound (open_dialed on_reset reached c)
  unfolding open_dialed
  open_dialed-IsSound reached c s = ground arith

  open_poll-IsSound : (c : Connection C) → IsSound c → IsSound (open_poll on_reset c)
  unfolding open_poll
  open_poll-IsSound c s = ground arith

  close_finish-IsSound : (c : Connection C) → IsSound c → IsSound (close_finish on_reset c)
  unfolding close_finish
  close_finish-IsSound c s = ground arith

  wake-IsSound : (c : Connection C) → IsSound c → IsSound (wake on_reset c)
  unfolding wake
  wake-IsSound c s = ground arith

module _ {C : Type 0} where
  frames_ended-IsSound :
      (c : Connection C) → IsSound c → c.message_loop_task ≡ some reading → IsSound (frames_ended c)
  unfolding frames_ended
  frames_ended-IsSound c s h = ground arith

  socket_ended-IsSound : (c : Connection C) → IsSound c → IsSound (socket_ended c)
  unfolding socket_ended
  socket_ended-IsSound c s = ground arith

  reconnected-IsSound :
      (reached : Bool) (c : Connection C) → IsSound c → IsSound (reconnected reached c)
  unfolding reconnected
  reconnected-IsSound reached c s = ground arith

  guard_expired-IsSound : (c : Connection C) → IsSound c → IsSound (guard_expired c)
  unfolding guard_expired
  guard_expired-IsSound c s = ground arith

  pub skip-IsSound : (cause : Text) (c : Connection C) → IsSound c → IsSound (skip cause c)
  unfolding skip
  skip-IsSound cause c s = ground arith

  handled-IsSound :
      (c : Connection C) (raised : Option Text) → IsSound c → IsSound (handled c raised)
  unfolding handled
  handled-IsSound c none s = s
  handled-IsSound c (some cause) s = skip-IsSound cause c s

  pub mark_initialized-IsSound : (c : Connection C) → IsSound c → IsSound (mark_initialized c)
  unfolding mark_initialized
  mark_initialized-IsSound c s = ground arith

  pub receive_full_status-IsSound :
      (partial : Bool) (c : Connection C) → IsSound c → IsSound (receive_full_status partial c)
  unfolding receive_full_status
  receive_full_status-IsSound partial c s = ground arith

  pub receive_delta_status-IsSound :
      (c : Connection C) → IsSound c → IsSound (receive_delta_status c)
  unfolding receive_delta_status
  receive_delta_status-IsSound c s = ground arith

  pub reject-IsSound : (e : Error) (c : Connection C) → IsSound c → IsSound (reject e c)
  unfolding reject
  reject-IsSound e c s = ground arith

  pub mark_authenticated-IsSound :
      (c : Connection C)
      → IsSound c
      → is_some c.fatal_error ≡ false
      → c.message_loop_task ≡ some reading
      → is_some c.socket ≡ true
      → IsSound (mark_authenticated c)
  unfolding mark_authenticated
  mark_authenticated-IsSound c s fresh reads over = ground arith

-- What a handler of frames may count on: no refusal so far, and a reader over a socket.
pub record IsHandling {C : Type 0} (c : Connection C) : Type 0 where
  pub fresh : is_some c.fatal_error ≡ false
  pub reads : c.message_loop_task ≡ some reading
  pub over : is_some c.socket ≡ true

-- A handler of frames leaves a sound connection sound.
abbrev pub Keeps : {C F : Type 0} → (F → Connection C → Connection C × Option Text) → Type 0
Keeps {C} {F} handle =
    (f : F) (c : Connection C) → IsSound c → IsHandling c → IsSound (handle f c).0

module _ {C F : Type 0} (on_reset : Text → C → C)
    (handle : F → Connection C → Connection C × Option Text) (keeps : Keeps handle) where
  read_frame-IsSound : (f : F) (c : Connection C) → IsSound c → IsSound (read_frame handle f c)
  unfolding read_frame
  read_frame-IsSound f c s =
      ground (
        arith,
        keeps f c s,
        frames_ended-IsSound c s,
        handled-IsSound (handle f c).0 (handle f c).1,
      )

  step-IsSound : (e : Event F) (c : Connection C) → IsSound c → IsSound (step on_reset handle e c)
  unfolding step
  step-IsSound open_called c s = open_call-IsSound on_reset c s
  step-IsSound close_called c s = close_call-IsSound on_reset c s
  step-IsSound resume_called c s = resume_reconnecting-IsSound on_reset c s
  step-IsSound (dialed reached) c s = open_dialed-IsSound on_reset reached c s
  step-IsSound polled c s = open_poll-IsSound on_reset c s
  step-IsSound gave_up c s = attempt_failed-IsSound on_reset c s
  step-IsSound closed c s = close_finish-IsSound on_reset c s
  step-IsSound (frame f) c s = read_frame-IsSound f c s
  step-IsSound ended c s = socket_ended-IsSound c s
  step-IsSound woke c s = wake-IsSound on_reset c s
  step-IsSound guard_fired c s = guard_expired-IsSound c s
  step-IsSound (redialed reached) c s = reconnected-IsSound reached c s

  run-IsSound :
      (es : List (Event F)) (c : Connection C) → IsSound c → IsSound (run on_reset handle es c)
  unfolding run
  run-IsSound [] c s = s
  run-IsSound (e ∷ es) c s = run-IsSound es (step on_reset handle e c) (step-IsSound e c s)

  -- Whatever the charger, the network and the callers do, in any order, from a new connection on:
  -- the flag and the two events agree, a refused connection is not signed in, an open wakes only
  -- to the milestone it waits for or to a refusal, only a reader over a socket keeps a connection
  -- up, nothing dials beside a reader, the backoff stays in its range, and after a close that got
  -- through no reader, socket or attempt is left.
  pub new_connection-run-IsSound :
      (auto : Bool) (lo hi : ℕ) (owner : C) (es : List (Event F))
      → lo ≤ hi
      → IsSound (run on_reset handle es (new_connection auto lo hi owner))
  new_connection-run-IsSound auto lo hi owner es h =
      run-IsSound es (new_connection auto lo hi owner) (new_connection-IsSound auto lo hi owner h)
