-- ===== src/Api/Connection/Ends.antt =====
-- What ends a connection for good: a final refusal, and a deliberate close.
use ha_wattpilot.Base.{◌≡◌, Bool, true, false, Option, none, some, List, [], ◌∷◌, arith, Text, All}
use ha_wattpilot.Api.Errors.{Error, is_final, is_final_refusal}
use ha_wattpilot.Api.Connection.State.{
  set_authenticated, Reader, sleeping, connecting, Connection, reject,
}
use ha_wattpilot.Api.Connection.Lifecycle.{
  tear_down, open_dialed, open_poll, close_call, close_finish, resume_reconnecting, attempt_failed,
}
use ha_wattpilot.Api.Connection.Reader.{
  frames_ended, read_frame, socket_ended, wake, reconnected, guard_expired,
}
use ha_wattpilot.Api.Connection.Steps.{Event, step, run, open_called}
use ha_wattpilot.Api.Connection.Invariant.{IsSound, is_dialing, IsHandling}

abbrev pub opens : {F : Type 0} → Event F → Bool
opens open_called = true
opens _ = false

-- No caller asks to open.
abbrev pub NoOpen : {F : Type 0} → List (Event F) → Type 0
NoOpen = All (λ e. opens e ≡ false)

abbrev is_retrying : Option Reader → Bool
is_retrying (some sleeping) = true
is_retrying (some connecting) = true
is_retrying _ = false

-- Refused for good, with nothing under way that would begin a new connection.
pub record IsRefused {C : Type 0} (c : Connection C) : Type 0 where
  pub final : is_final_refusal c.fatal_error ≡ true
  pub signed_out : c.authenticated ≡ false
  pub not_retrying : is_retrying c.message_loop_task ≡ false
  pub not_dialing : is_dialing c.opening ≡ false

-- Closed, with nothing left that could open it again.
pub record IsShut {C : Type 0} (c : Connection C) : Type 0 where
  pub stopped : c.stopped ≡ true
  pub signed_out : c.authenticated ≡ false
  pub no_reader : c.message_loop_task ≡ none
  pub no_socket : c.socket ≡ none
  pub no_attempt : c.opening ≡ none

module _ {C F : Type 0} (on_reset : Text → C → C)
    (handle : F → Connection C → Connection C × Option Text) where
  step-IsRefused :
      (e : Event F) (c : Connection C)
      → opens e ≡ false
      → IsRefused c
      → IsRefused (step on_reset handle e c)
  unfolding step open_dialed open_poll close_call close_finish resume_reconnecting attempt_failed
      read_frame socket_ended wake reconnected guard_expired is_final_refusal
  step-IsRefused open_called c quiet r = cc
  step-IsRefused _ c quiet r = ground arith

  step-IsShut :
      (e : Event F) (c : Connection C)
      → opens e ≡ false
      → IsShut c
      → IsShut (step on_reset handle e c)
  unfolding step open_dialed open_poll close_call close_finish resume_reconnecting attempt_failed
      read_frame socket_ended wake reconnected guard_expired
  step-IsShut open_called c quiet r = cc
  step-IsShut _ c quiet r = ground arith

  -- A refused connection has its owner changed by nothing but a reset.
  step-owner :
      (P : C → Type 0) (e : Event F) (c : Connection C)
      → ((reason : Text) (o : C) → P o → P (on_reset reason o))
      → opens e ≡ false
      → IsRefused c
      → P c.owner
      → P (step on_reset handle e c).owner
  unfolding step open_dialed open_poll close_call close_finish resume_reconnecting attempt_failed
      read_frame socket_ended wake reconnected guard_expired is_final_refusal frames_ended
      set_authenticated tear_down
  step-owner P open_called c resets quiet r p = cc
  step-owner P _ c resets quiet r p = grind arith

  run-IsRefused :
      (es : List (Event F)) (c : Connection C)
      → NoOpen es
      → IsRefused c
      → IsRefused (run on_reset handle es c)
  unfolding run
  run-IsRefused [] c quiet r = r
  run-IsRefused (e ∷ es) c quiet r =
      run-IsRefused es (step on_reset handle e c) quiet.1 (step-IsRefused e c quiet.0 r)

  pub run-owner :
      (P : C → Type 0) (es : List (Event F)) (c : Connection C)
      → ((reason : Text) (o : C) → P o → P (on_reset reason o))
      → NoOpen es
      → IsRefused c
      → P c.owner
      → P (run on_reset handle es c).owner
  unfolding run
  run-owner P [] c resets quiet r p = p
  run-owner P (e ∷ es) c resets quiet r p =
      run-owner P es (step on_reset handle e c) resets quiet.1 (step-IsRefused e c quiet.0 r)
        (step-owner P e c resets quiet.0 r p)

  run-IsShut :
      (es : List (Event F)) (c : Connection C)
      → NoOpen es
      → IsShut c
      → IsShut (run on_reset handle es c)
  unfolding run
  run-IsShut [] c quiet r = r
  run-IsShut (e ∷ es) c quiet r =
      run-IsShut es (step on_reset handle e c) quiet.1 (step-IsShut e c quiet.0 r)

  pub reject-IsRefused :
      (error : Error) (c : Connection C)
      → is_final error ≡ true
      → IsSound c
      → IsHandling c
      → IsRefused (reject error c)
  unfolding reject is_final_refusal
  reject-IsRefused error c final s h = ground arith

  -- A frame that is refused with a final error while no attempt dials ends the client's trying:
  -- through any steps short of a new open it stays signed out, and its reader neither sleeps
  -- towards another attempt nor makes one.
  pub reject-run-IsRefused :
      (error : Error) (es : List (Event F)) (c : Connection C)
      → is_final error ≡ true
      → IsSound c
      → IsHandling c
      → NoOpen es
      → IsRefused (run on_reset handle es (reject error c))
  reject-run-IsRefused error es c final s h quiet =
      run-IsRefused es (reject error c) quiet (reject-IsRefused error c final s h)

  -- Once a close has got through, the connection stays closed through any steps short of a new
  -- open: no task that was under way, and no call to resume, brings a reader or a socket back.
  pub close_finish-run-IsShut :
      (es : List (Event F)) (c : Connection C)
      → IsSound c
      → c.closing ≡ true
      → NoOpen es
      → IsShut (run on_reset handle es (close_finish on_reset c))
  unfolding close_finish
  close_finish-run-IsShut es c s closing quiet =
      let shut : IsShut (close_finish on_reset c) = ground arith in
      run-IsShut es (close_finish on_reset c) quiet shut
