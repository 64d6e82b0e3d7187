-- ===== src/Api/Connection/Lifecycle.antt =====
-- Opening and closing. A method that waits is cut into the steps between its waits.
use ha_wattpilot.Base.{
  ◌+◌, Bool, true, false, not, ◌&&◌, ◌||◌, none, some, [], Text, codes, if◌then◌else◌, is_some,
}
use ha_wattpilot.Api.Errors.{is_final_refusal}
use ha_wattpilot.Api.Connection.State.{
  live, reading, dialing, awaiting_authentication, awaiting_initialization, completing, Connection,
  set_authenticated,
}

-- `on_reset` answers the commands sent on the socket that went away.
module _ {C : Type 0} (on_reset : Text → C → C) where
  unfoldable pub begin : Connection C → Connection C
  begin c = record c {
    readiness_guard = false;
    initialized = false;
    streaming_full_status = false;
    skipped = [];
    initialized_event = false;
    authenticated_event = false;
    fatal_error = none;
    owner = on_reset (codes "Connection closed") c.owner;
  }

  -- `_close`. Its `finally` blocks run whether or not closing the socket raises.
  unfoldable pub tear_down : Connection C → Connection C
  unfolding set_authenticated
  tear_down c =
      let c' = record c { readiness_guard = false; message_loop_task = none; socket = none } in
      record (set_authenticated false c') {
        initialized_event = false;
        owner = on_reset (codes "Connection closed") c'.owner;
      }

  -- `_reader_owned`; `in_attempt` says whether the caller is the attempt itself.
  unfoldable pub reader_owned : Bool → Connection C → Bool
  reader_owned in_attempt c = is_some c.message_loop_task || (is_some c.opening && not in_attempt)

  -- A new `_message_loop` starts by setting the delay back, and here finds no socket to read.
  unfoldable pub resume_reconnecting : Bool → Connection C → Connection C
  unfolding reader_owned
  resume_reconnecting in_attempt c =
      if c.stopped || is_final_refusal c.fatal_error || reader_owned in_attempt c
      then c
      else if c.auto_reconnect
      then record c { message_loop_task = some reading; reconnect_delay = c.reconnect_delay_min }
      else c

  -- What the attempt does when it fails, times out or is cancelled: `_cleanup_on_failure` once
  -- there is a socket or an initialization to wait for, then `_open`'s own handler.
  unfoldable pub attempt_failed : Connection C → Connection C
  unfolding tear_down resume_reconnecting
  attempt_failed c = elim c.opening [
    | none ↦ c
    | some (dialing, had_reader) ↦ record (if had_reader then resume_reconnecting true c else c) {
      opening = none;
    }
    | some (_, had_reader) ↦
        (let closed = tear_down c in
          record (if had_reader then resume_reconnecting true closed else closed) {
            opening = none;
          })
  ]

  -- `open`, up to the first wait of its attempt. It waits while a close is under way, and a second
  -- caller shares the attempt.
  unfoldable pub open_call : Connection C → Connection C
  unfolding begin tear_down
  open_call c =
      if c.closing
      then c
      else (let c' = record c { stopped = false } in
          let had_reader = is_some c.message_loop_task in
          if is_some c.opening
          then c'
          else if c.authenticated
          then (if c.initialized then c' else record c' { opening = some (completing, had_reader) })
          else record (begin (if had_reader then tear_down c' else c')) {
            opening = some (dialing, had_reader);
          })

  -- `connect` of the attempt returned or raised.
  unfoldable pub open_dialed : Bool → Connection C → Connection C
  unfolding attempt_failed
  open_dialed reached c = elim c.opening [
    | some (dialing, had_reader) ↦
        if reached
        then record c {
          socket = some live;
          message_loop_task = some reading;
          reconnect_delay = c.reconnect_delay_min;
          opening = some (awaiting_authentication, had_reader);
        }
        else attempt_failed c
    | _ ↦ c
  ]

  -- A wait of the attempt looks at its event: once that is set, a refusal ends the attempt.
  unfoldable pub open_poll : Connection C → Connection C
  unfolding attempt_failed
  open_poll c = elim c.opening [
    | some (awaiting_authentication, had_reader) ↦
        if c.authenticated_event
        then if is_some c.fatal_error
          then attempt_failed c
          else record c { opening = some (awaiting_initialization, had_reader) }
        else c
    | some (awaiting_initialization, had_reader) ↦
        if c.initialized_event
        then if is_some c.fatal_error then attempt_failed c else record c { opening = none }
        else c
    | some (completing, had_reader) ↦
        if c.initialized_event
        then if is_some c.fatal_error then attempt_failed c else record c { opening = none }
        else c
    | _ ↦ c
  ]

  -- `close`, up to its first wait.
  unfoldable pub close_call : Connection C → Connection C
  close_call c = record c { stopped = true; close_count = c.close_count + 1; closing = true }

  -- `_cancel_and_close`: the attempt is cancelled and has ended, then the socket is closed.
  unfoldable pub close_finish : Connection C → Connection C
  unfolding attempt_failed tear_down
  close_finish c =
      if c.closing then record (tear_down (attempt_failed c)) { closing = false } else c
