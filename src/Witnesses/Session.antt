-- ===== src/Witnesses/Session.antt =====
-- Concrete inputs for the theorems on the connection and the client, and a session run whole.
use ha_wattpilot.Base.{
  ◌*◌, ◌^◌, min, ◌≡◌, ◌≢◌, refl, true, false, none, some, List, [], ◌∷◌, ◌++◌, arith, Text, codes,
  Bool-cases, ℕ, ◌⊎◌, text_eq, if◌then◌else◌, ◌==◌, pos, show_nat, inr,
}
use ha_wattpilot.Json.{
  int, text, bool, dict, namespace, Dict, end, entry, get, get_else, null, of_int,
}
use ha_wattpilot.Api.Errors.{is_final, is_final_refusal, identity_error}
use ha_wattpilot.Api.Library.{Library}
use ha_wattpilot.Api.Models.{pbkdf2}
use ha_wattpilot.Api.Auth.{hash_password}
use ha_wattpilot.Api.Connection.{
  Event, open_call, open_dialed, new_connection, run, reject, close_finish, close_call, open_called,
  live, close_called, dialed, polled, closed, frame, ended, woke, redialed,
}
use ha_wattpilot.Api.Connection.Invariant.{IsSound, IsHandling, new_connection-run-IsSound}
use ha_wattpilot.Api.Connection.Ends.{
  NoOpen, IsRefused, IsShut, reject-run-IsRefused, close_finish-run-IsShut,
}
use ha_wattpilot.Api.Connection.Backoff.{failed_rounds, IsRetryable, failed_rounds-delay}
use ha_wattpilot.Api.Client.{
  Callback, Wattpilot, new_client, fail_pending_commands, Frame, handle_frame, on_hello,
  apply_status, send_command, on_response, future_of, value_raised, as_int, ok, raised,
  requested_hash, auth_message, on_auth_required,
}
use ha_wattpilot.Api.Client.Sound.{run-IsSound}
use ha_wattpilot.Api.Client.Identity.{on_hello-run_stranger, Untouched}
use ha_wattpilot.Api.Client.Cache.{AreCaught, apply_status_cached, IsApplied}
use ha_wattpilot.Api.Client.Answers.{on_response-future_of, send_command-IsAwaited, verdict}
use ha_wattpilot.Api.Client.Secret.{on_auth_required-secret, IsCoherent}
use ha_wattpilot.Api.Client.Exact.{Spells, as_int_exact}

abbrev sample_library : Library
sample_library = record {
  encode = λ s. s;
  pbkdf2_base64 = λ p s. p ++ s;
  sha256_hex = λ s. s;
  hashpw = λ p s. some (p ++ s);
  hmac_hex = λ k m. k ++ m;
  dumps = λ v. codes "{}";
  str_of = λ v. codes "1.5";
  int_of_text = λ s. if text_eq s (codes "16") then some (pos 16) else none;
  float_of_text = λ s. none;
  float_of_int = λ z. some (of_int z);
}

abbrev serial : Text
serial = codes "91012345"

abbrev message_frame : Dict → Frame
message_frame d = record {
  parsed = some (dict d);
  token = codes "00000000000000000000000000000000";
}

abbrev hello : Text → Dict
hello s = entry (codes "type") (text (codes "hello")) (entry (codes "serial") (text s) end)

abbrev full_status : Dict
full_status = entry (codes "type") (text (codes "fullStatus")) (
    entry (codes "partial") (bool false)
      (entry (codes "status") (dict (entry (codes "amp") (int (pos 16)) end)) end))

-- A session: open, sign in, receive the status, lose the socket, try again, close.
abbrev session : List (Event Frame)
session =
    open_called
    ∷ dialed true
    ∷ frame (message_frame (hello serial))
    ∷ frame (message_frame (entry (codes "type") (text (codes "authSuccess")) end))
    ∷ polled
    ∷ frame (message_frame full_status)
    ∷ polled
    ∷ ended
    ∷ woke
    ∷ redialed false
    ∷ close_called
    ∷ closed
    ∷ []

run-IsSound_example : IsSound (
    run fail_pending_commands
      (handle_frame sample_library)
      session
      (new_connection true 10 600 (new_client (codes "secret") none)))
run-IsSound_example =
    run-IsSound sample_library true 10 600 (codes "secret") none session (omega arith)

new_connection-run-IsSound_example : IsSound (
    run fail_pending_commands
      (λ (f : Frame) w. (w, none))
      (open_called ∷ dialed false ∷ [])
      (new_connection true 10 600 (new_client [] none)))
new_connection-run-IsSound_example =
    new_connection-run-IsSound fail_pending_commands (λ (f : Frame) w. (w, none)) (λ f c s h. s)
      true 10 600 (new_client [] none) (open_called ∷ dialed false ∷ []) (omega arith)

-- A client that knows its charger, over a fresh socket.
abbrev dialed_in : Wattpilot
dialed_in =
    run fail_pending_commands (handle_frame sample_library) (open_called ∷ dialed true ∷ [])
      (new_connection true 10 600 (new_client (codes "secret") (some serial)))

dialed_in-IsSound : IsSound dialed_in
dialed_in-IsSound =
    run-IsSound sample_library true 10 600 (codes "secret") (some serial)
      (open_called ∷ dialed true ∷ []) (omega arith)

dialed_in-IsHandling : IsHandling dialed_in
unfolding run new_connection open_dialed open_call
dialed_in-IsHandling = record { fresh = refl; reads = refl; over = refl }

known_serial : dialed_in.owner.device.serial ≡ serial
unfolding run new_connection new_client open_dialed open_call fail_pending_commands
known_serial = refl

known-stranger : serial ≢ codes "99999999"
known-stranger = ground arith

abbrev stranger : Dict
stranger = hello (codes "99999999")

stranger_serial : get (codes "serial") stranger ≡ some (text (codes "99999999"))
unfolding get text_eq
stranger_serial = refl

known_some : dialed_in.owner.device.serial ≢ []
known_some = rw known_serial (ground arith)

known_other : dialed_in.owner.device.serial ≢ codes "99999999"
known_other = rw known_serial known-stranger

is_final_identity : is_final (identity_error (codes "A") (codes "B") (codes "B")) ≡ true
unfolding is_final
is_final_identity = refl

abbrev later : List (Event Frame)
later =
    frame (message_frame full_status) ∷ polled ∷ ended ∷ woke ∷ redialed true ∷ close_called ∷ []

later_quiet : NoOpen later
later_quiet = (refl, (refl, (refl, (refl, (refl, (refl, tt))))))

on_hello-run_stranger_example :
    IsRefused (
      run fail_pending_commands (handle_frame sample_library) later (on_hello stranger dialed_in).1)
    × Untouched dialed_in.owner
        (run fail_pending_commands
          (handle_frame sample_library)
          later
          (on_hello stranger dialed_in).1).owner
on_hello-run_stranger_example =
    on_hello-run_stranger sample_library stranger (codes "99999999") dialed_in later stranger_serial
      known_some known_other dialed_in-IsSound dialed_in-IsHandling later_quiet

reject-run-IsRefused_example : IsRefused (
    run fail_pending_commands
      (handle_frame sample_library)
      later
      (reject (identity_error (codes "A") (codes "B") (codes "B")) dialed_in))
reject-run-IsRefused_example =
    reject-run-IsRefused fail_pending_commands (handle_frame sample_library)
      (identity_error (codes "A") (codes "B") (codes "B")) later dialed_in is_final_identity
      dialed_in-IsSound dialed_in-IsHandling later_quiet

-- A client that is being closed while its attempt goes on.
abbrev closing_down : Wattpilot
closing_down =
    run fail_pending_commands (handle_frame sample_library)
      (open_called ∷ dialed true ∷ close_called ∷ [])
      (new_connection true 10 600 (new_client (codes "secret") (some serial)))

closing_down_closing : closing_down.closing ≡ true
unfolding run new_connection open_dialed open_call close_call
closing_down_closing = refl

closing_down-IsSound : IsSound closing_down
closing_down-IsSound =
    run-IsSound sample_library true 10 600 (codes "secret") (some serial)
      (open_called ∷ dialed true ∷ close_called ∷ []) (omega arith)

close_finish-run-IsShut_example : IsShut (
    run fail_pending_commands
      (handle_frame sample_library)
      later
      (close_finish fail_pending_commands closing_down))
close_finish-run-IsShut_example =
    close_finish-run-IsShut fail_pending_commands (handle_frame sample_library) later closing_down
      closing_down-IsSound closing_down_closing later_quiet

dialed_in-IsRetryable : IsRetryable fail_pending_commands dialed_in
unfolding run new_connection open_dialed open_call is_final_refusal
dialed_in-IsRetryable = record { reads = refl; auto = refl; not_final = refl }

failed_rounds-delay_example :
    IsRetryable fail_pending_commands (failed_rounds fail_pending_commands 3 dialed_in)
    × ((failed_rounds fail_pending_commands 3 dialed_in).reconnect_delay
        ≡ min (dialed_in.reconnect_delay * 2 ^ 3) dialed_in.reconnect_delay_max)
    × ((failed_rounds fail_pending_commands 3 dialed_in).reconnect_delay_max
        ≡ dialed_in.reconnect_delay_max)
failed_rounds-delay_example =
    failed_rounds-delay fail_pending_commands 3 dialed_in dialed_in-IsRetryable
      dialed_in-IsSound.delay_high

not_initialized : dialed_in.initialized ≡ false
unfolding run new_connection open_dialed open_call
not_initialized = refl

-- A callback that refuses every change of the current.
abbrev picky : Callback
picky = record {
  id = 1;
  raises = λ name v.
      if text_eq name (codes "amp") then some (value_raised (codes "ValueError")) else none;
}

abbrev watched : Wattpilot
watched = record dialed_in { owner = record dialed_in.owner { property_callbacks = picky ∷ [] } }

picky-AreCaught : AreCaught watched.owner.property_callbacks
picky-AreCaught = ((λ name v. ground (arith, Bool-cases (text_eq name (codes "amp")))), tt)

abbrev pushed : Dict
pushed = entry (codes "amp") (int (pos 16)) (entry (codes "nrg") (int (pos 0)) end)

apply_status_cached_example :
    IsApplied pushed watched.owner (apply_status (namespace pushed) watched)
apply_status_cached_example = apply_status_cached pushed watched picky-AreCaught

sent_fine : (send_command sample_library 7 pushed false watched).0 ≡ ok tt
unfolding send_command run new_connection open_dialed open_call
sent_fine = refl

-- Command 7 waits, and its answer comes with a push.
abbrev asked : Wattpilot
asked = (send_command sample_library 7 pushed false watched).1

asked-AreCaught : AreCaught asked.owner.property_callbacks
unfolding send_command run new_connection open_dialed open_call
asked-AreCaught = picky-AreCaught

abbrev final_refusal : Dict
final_refusal =
    entry (codes "requestId") (text (show_nat 7))
      (entry (codes "success") (bool false) (entry (codes "message") (text (codes "busy")) end))

answered : get_else (codes "requestId") null final_refusal ≡ text (show_nat 7)
unfolding get text_eq
answered = refl

on_response-future_of_example :
    future_of 7 (on_response sample_library final_refusal asked).1.owner.futures ≡ (
      if 7 == 7 then some (verdict (show_nat 7) final_refusal) else future_of 7 asked.owner.futures)
on_response-future_of_example =
    on_response-future_of sample_library 7 7 final_refusal asked asked-AreCaught
      (send_command-IsAwaited sample_library 7 pushed false watched sent_fine) (inr answered)

new_client-IsCoherent : IsCoherent sample_library dialed_in.owner
unfolding run new_connection new_client open_dialed open_call fail_pending_commands
new_client-IsCoherent p s h e = cc

given_password : dialed_in.owner.password ≢ []
unfolding run new_connection new_client open_dialed open_call fail_pending_commands
given_password e = cc

-- A request to sign in that names the hash.
abbrev sign_in_request : Dict
sign_in_request = entry (codes "hash") (text (codes "pbkdf2")) end

dialed_live : dialed_in.socket ≡ some live
unfolding run new_connection new_client open_dialed open_call fail_pending_commands
dialed_live = refl

on_auth_required-secret_example :
    let o = on_auth_required sample_library (codes "0") sign_in_request dialed_in in
    let made =
      hash_password sample_library dialed_in.owner.password dialed_in.owner.device.serial pbkdf2 in
    IsCoherent sample_library o.1.owner
    × (((made ≡ none)
          × (o.0 ≡ raised (value_raised (codes "ValueError")))
          × (o.1.owner.sent ≡ dialed_in.owner.sent))
        ⊎ ((secret : List ℕ) × (made ≡ some secret)
            × (o.0 ≡ ok tt)
            × (o.1.owner.sent
                ≡ auth_message sample_library [] [] (codes "0") secret ∷ dialed_in.owner.sent)))
unfolding requested_hash get text_eq
on_auth_required-secret_example =
    on_auth_required-secret sample_library (codes "0") sign_in_request pbkdf2 dialed_in
      new_client-IsCoherent given_password dialed_live refl

sixteen : as_int sample_library (text (codes "16")) (codes "amp") ≡ ok (int (pos 16))
unfolding as_int text_eq
sixteen = refl

as_int_exact_example : Spells sample_library (text (codes "16")) (pos 16)
as_int_exact_example =
    as_int_exact sample_library (text (codes "16")) (codes "amp") (pos 16) sixteen
