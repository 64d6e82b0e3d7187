-- ===== src/Api/Connection/Reader.antt =====
-- The reader: `_read_frames`, `_message_loop` and the guard that watches a reconnected socket.
use ha_wattpilot.Base.{
  ◌*◌, min, Bool, true, false, not, Option, none, some, Text, if◌then◌else◌, is_some,
}
use ha_wattpilot.Api.Errors.{is_final_refusal}
use ha_wattpilot.Api.Connection.State.{
  live, reading, sleeping, connecting, finished, Connection, set_authenticated, close_socket, skip,
}
use ha_wattpilot.Api.Connection.Lifecycle.{begin}

module _ {C : Type 0} where
  -- Behind `_read_frames`: sign out, then end or go to sleep.
  unfoldable pub frames_ended : Connection C → Connection C
  unfolding set_authenticated
  frames_ended c =
      let c' = set_authenticated false c in
      if not c.auto_reconnect
      then record c' { message_loop_task = some finished }
      else if is_final_refusal c.fatal_error
      then record c' { message_loop_task = some finished }
      else record c' { message_loop_task = some sleeping }

  -- What an exception of the handler comes to.
  unfoldable pub handled : Connection C → Option Text → Connection C
  unfolding skip
  handled c none = c
  handled c (some cause) = skip cause c

  -- One frame, which a closed socket may still have buffered. `handle` may raise, by the cause it
  -- gives, and the frame is then skipped; after a refusal no frame is handled any more.
  unfoldable pub read_frame :
      {F : Type 0}
      → (F → Connection C → Connection C × Option Text)
      → F
      → Connection C
      → Connection C
  unfolding frames_ended handled
  read_frame handle frame c = elim c.message_loop_task [
    | some reading ↦ elim c.socket [
      | some _ ↦
          if is_some c.fatal_error
          then frames_ended c
          else (let (c', raised) = handle frame c in handled c' raised)
      | none ↦ c
    ]
    | _ ↦ c
  ]

  -- The iteration ends: the socket is gone, or was never there.
  unfoldable pub socket_ended : Connection C → Connection C
  unfolding frames_ended
  socket_ended c = elim c.message_loop_task [
    | some reading ↦ frames_ended (record c { socket = close_socket c.socket })
    | _ ↦ c
  ]

  -- The sleep is over: the delay grows, and the connection begins anew.
  unfoldable pub wake : (Text → C → C) → Connection C → Connection C
  unfolding begin
  wake on_reset c = elim c.message_loop_task [
    | some sleeping ↦ record (begin on_reset c) {
      reconnect_delay = min (c.reconnect_delay * 2) c.reconnect_delay_max;
      message_loop_task = some connecting;
    }
    | _ ↦ c
  ]

  -- `connect` of the reader returned or raised; then it reads again, the old socket if it must.
  unfoldable pub reconnected : Bool → Connection C → Connection C
  reconnected reached c = elim c.message_loop_task [
    | some connecting ↦
        if reached
        then record c {
          socket = some live;
          readiness_guard = true;
          message_loop_task = some reading;
        }
        else record c { message_loop_task = some reading }
    | _ ↦ c
  ]

  -- `_guard_readiness` gives up on a socket that never became ready.
  unfoldable pub guard_expired : Connection C → Connection C
  guard_expired c =
      if c.readiness_guard
      then if c.initialized_event
        then record c { readiness_guard = false }
        else record c { readiness_guard = false; socket = close_socket c.socket }
      else c
