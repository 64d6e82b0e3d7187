-- ===== src/Api/Connection/Steps.antt =====
-- Every step that the tasks around a connection can take, in any order.
use ha_wattpilot.Base.{Bool, false, Option, List, [], ◌∷◌, Text}
use ha_wattpilot.Api.Connection.State.{Connection}
use ha_wattpilot.Api.Connection.Lifecycle.{
  attempt_failed, open_call, open_dialed, open_poll, close_call, close_finish, resume_reconnecting,
}
use ha_wattpilot.Api.Connection.Reader.{read_frame, socket_ended, wake, reconnected, guard_expired}

pub data Event (F : Type 0) : Type 0 where
  -- The callers: `open`, `close`, and `resume_reconnecting` after a firmware update.
  open_called close_called resume_called : Event F
  -- The attempt: its `connect` ended, it looked at its event, it timed out or was cancelled.
  dialed : Bool → Event F
  polled gave_up : Event F
  -- The close got through.
  closed : Event F
  -- The reader.
  frame : F → Event F
  ended woke guard_fired : Event F
  redialed : Bool → Event F

module _ {C F : Type 0} (on_reset : Text → C → C)
    (handle : F → Connection C → Connection C × Option Text) where
  unfoldable pub step : Event F → Connection C → Connection C
  step open_called c = open_call on_reset c
  step close_called c = close_call on_reset c
  step resume_called c = resume_reconnecting on_reset false c
  step (dialed reached) c = open_dialed on_reset reached c
  step polled c = open_poll on_reset c
  step gave_up c = attempt_failed on_reset c
  step closed c = close_finish on_reset c
  step (frame f) c = read_frame handle f c
  step ended c = socket_ended c
  step woke c = wake on_reset c
  step guard_fired c = guard_expired c
  step (redialed reached) c = reconnected reached c

  unfoldable pub run : List (Event F) → Connection C → Connection C
  unfolding step
  run [] c = c
  run (e ∷ es) c = run es (step e c)
