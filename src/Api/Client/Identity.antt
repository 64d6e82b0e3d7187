-- ===== src/Api/Client/Identity.antt =====
-- A charger that is not the one this client knows gets nothing from it.
use ha_wattpilot.Base.{
  ◌≡◌, ◌≢◌, refl, ap, if◌then◌else◌, true, false, some, List, [], Text, codes, text_eq_ne,
}
use ha_wattpilot.Json.{text, Dict, get}
use ha_wattpilot.Api.Errors.{Error, identity_error, is_final, mask_serial}
use ha_wattpilot.Api.Library.{Library}
use ha_wattpilot.Api.Connection.{Event, run, reject}
use ha_wattpilot.Api.Connection.Invariant.{IsSound, IsHandling}
use ha_wattpilot.Api.Connection.Ends.{
  run-owner, reject-IsRefused, NoOpen, IsRefused, reject-run-IsRefused,
}
use ha_wattpilot.Api.Client.State.{
  ok, pure, on_client, bind-run, Client, Wattpilot, fail_pending_commands,
}
use ha_wattpilot.Api.Client.Handshake.{greet, on_hello, identity_accepted}
use ha_wattpilot.Api.Client.Messages.{Frame, handle_frame}

identity_accepted_stranger :
    (found : Text) (w : Wattpilot)
    → w.owner.device.serial ≢ []
    → w.owner.device.serial ≢ found
    → identity_accepted found w ≡ (
      ok false,
      reject
          (identity_error
            (mask_serial (some w.owner.device.serial))
            (mask_serial (some found))
            found)
          w,
    )
unfolding identity_accepted
identity_accepted_stranger found w known other =
    rw (text_eq_ne w.owner.device.serial [] known, text_eq_ne w.owner.device.serial found other)

on_hello_stranger :
    (msg : Dict) (found : Text) (w : Wattpilot)
    → get (codes "serial") msg ≡ some (text found)
    → w.owner.device.serial ≢ []
    → w.owner.device.serial ≢ found
    → (on_hello msg w).1
      ≡ reject
          (identity_error
            (mask_serial (some w.owner.device.serial))
            (mask_serial (some found))
            found)
          w
unfolding on_hello
on_hello_stranger msg found w e known other = rw e (
    ap (λ o. o.1)
      (bind-run (identity_accepted found)
        (λ accepted.
          if accepted
          then on_client (λ c. record c { device = greet found msg c.device })
          else pure tt)
        w _ false (identity_accepted_stranger found w known other)))

-- What a stranger must not touch: what was sent, what was learned, and whose charger it is.
abbrev pub Untouched : Client → Client → Type 0
Untouched before after =
    (after.sent ≡ before.sent)
    × (after.all_props ≡ before.all_props)
    × (after.device ≡ before.device)
    × (after.hashed_password ≡ before.hashed_password)

abandon-Untouched :
    (before : Client) (reason : Text) (c : Client)
    → Untouched before c
    → Untouched before (fail_pending_commands reason c)
unfolding fail_pending_commands
abandon-Untouched before reason c same = same

reject-Untouched : (error : Error) (w : Wattpilot) → Untouched w.owner (reject error w).owner
unfolding reject
reject-Untouched error w = (refl, refl, refl, refl)

is_final-identity : (a b c : Text) → is_final (identity_error a b c) ≡ true
unfolding is_final
is_final-identity a b c = refl

-- A client that knows its charger's serial and gets a hello of another serial is done with that
-- host: through any frames and steps short of a new open, it stays signed out and never tries
-- again, and it neither sends anything, nor learns a property, nor takes on the stranger's device.
pub on_hello-run_stranger :
    (py : Library) (msg : Dict) (found : Text) (w : Wattpilot) (es : List (Event Frame))
    → get (codes "serial") msg ≡ some (text found)
    → w.owner.device.serial ≢ []
    → w.owner.device.serial ≢ found
    → IsSound w
    → IsHandling w
    → NoOpen es
    → IsRefused (run fail_pending_commands (handle_frame py) es (on_hello msg w).1)
      × Untouched w.owner (run fail_pending_commands (handle_frame py) es (on_hello msg w).1).owner
on_hello-run_stranger py msg found w es e known other s h quiet =
    let error =
      identity_error (mask_serial (some w.owner.device.serial)) (mask_serial (some found)) found in
    let final = is_final-identity _ _ found in
    rw (on_hello_stranger msg found w e known other) (
      reject-run-IsRefused fail_pending_commands (handle_frame py) error es w final s h quiet,
      run-owner fail_pending_commands (handle_frame py) (Untouched w.owner) es (reject error w)
          (abandon-Untouched w.owner) quiet
          (reject-IsRefused fail_pending_commands (handle_frame py) error w final s h)
          (reject-Untouched error w),
    )
