-- ===== src/Api/Client/Commands.antt =====
-- Writing to the charger, and the commands that wait for its answer.
use ha_wattpilot.Base.{
  ℕ, ◌+◌, ◌*◌, Bool, true, false, not, ◌&&◌, Option, none, some, List, [], ◌∷◌, Text, codes,
  text_eq, ◌==◌, ltb, if◌then◌else◌, pos, negsuc, show_nat, show_int,
}
use ha_wattpilot.Json.{Value, null, bool, int, float, text, Dict, end, entry, float_le, of_int}
use ha_wattpilot.Api.Errors.{connection_error, command_error, unanswered}
use ha_wattpilot.Api.Library.{Library}
use ha_wattpilot.Api.Auth.{sign_secured_message}
use ha_wattpilot.Api.Connection.{live, dead}
use ha_wattpilot.Api.Client.State.{
  value_raised, other_raised, wattpilot_raised, Future, waiting, failed, Outcome, ok, raised,
  Action, ⊤, pure, ◌>>=◌, ◌>>◌, on_client, get_client, is_waiting, settle,
}
use ha_wattpilot.Api.Client.Coercion.{coerce_value}

-- `_correlation_key`
unfoldable pub correlation_key : (Value → Text) → Value → Text
correlation_key str_of (text s) = s
correlation_key str_of (int z) = show_int z
correlation_key str_of null = codes "None"
correlation_key str_of (bool true) = codes "True"
correlation_key str_of (bool false) = codes "False"
correlation_key str_of v = str_of v

-- `_pending_commands[key] = future`, `.get(key)` and `.pop(key, None)`.
unfoldable pub pend : Text → ℕ → List (Text × ℕ) → List (Text × ℕ)
pend key n [] = (key, n) ∷ []
pend key n ((k, m) ∷ ps) = if text_eq k key then (k, n) ∷ ps else (k, m) ∷ pend key n ps

unfoldable pub pending_for : Text → List (Text × ℕ) → Option ℕ
pending_for key [] = none
pending_for key ((k, m) ∷ ps) = if text_eq k key then some m else pending_for key ps

unfoldable pub unpend : Text → List (Text × ℕ) → List (Text × ℕ)
unpend key [] = []
unpend key ((k, m) ∷ ps) = if text_eq k key then ps else (k, m) ∷ unpend key ps

unfoldable pub future_of : ℕ → List (ℕ × Future) → Option Future
future_of n [] = none
future_of n ((m, f) ∷ fs) = if n == m then some f else future_of n fs

-- Nobody holds the future of a command that was not sent.
unfoldable pub forget : ℕ → List (ℕ × Future) → List (ℕ × Future)
forget n [] = []
forget n ((m, f) ∷ fs) = if n == m then fs else (m, f) ∷ forget n fs

-- `Connection.send` of `json.dumps(message)`. Writing to a socket that has closed raises.
unfoldable pub write : Dict → Action ⊤
write message w = elim w.socket [
  | none ↦ (raised (wattpilot_raised (connection_error (codes "Not connected"))), w)
  | some dead ↦ (raised (other_raised (codes "ConnectionClosed")), w)
  | some live ↦ (ok tt, record w { owner = record w.owner { sent = message ∷ w.owner.sent } })
]

-- `secured is not None and secured > 0`; anything but a number does not compare.
unfoldable pub is_secured : Value → Outcome Bool
unfolding float_le
is_secured null = ok false
is_secured (bool b) = ok b
is_secured (int (pos n)) = ok (ltb 0 n)
is_secured (int (negsuc n)) = ok false
is_secured (float x) = ok (float_le (of_int (pos 0)) x && not (float_le x (of_int (pos 0))))
is_secured _ = raised (value_raised (codes "TypeError"))

abbrev lift : {A : Type 0} → Outcome A → Action A
lift r w = (r, w)

-- `_NEVER_ACKNOWLEDGED`
abbrev never_acknowledged : Text → Bool
never_acknowledged name = text_eq name (codes "rst")

unfoldable pub set_value_message : ℕ → Text → Value → Dict
set_value_message n name value = entry (codes "type") (text (codes "setValue")) (
    entry (codes "requestId") (int (pos n))
      (entry (codes "key") (text name) (entry (codes "value") value end)))

module _ (py : Library) where
  -- `_send`
  unfoldable pub send : Dict → Bool → Action ⊤
  unfolding write
  send message false w = write message w
  send message true w = elim (sign_secured_message py message w.owner.hashed_password) [
    | some envelope ↦ write envelope w
    | none ↦ (raised (value_raised (codes "KeyError")), w)
  ]

  -- `_send_command` up to its wait: a message that cannot be sent leaves nothing waiting.
  unfoldable pub send_command : ℕ → Dict → Bool → Action ⊤
  unfolding send forget pend unpend
  send_command n message secure w =
      let key = show_nat n in
      let c = w.owner in
      let w' = record w {
        owner = record c {
          futures = (n, waiting) ∷ c.futures;
          pending_commands = pend key n c.pending_commands;
        };
      } in
      let (r, w'') = send message secure w' in
      elim r [
        | ok _ ↦ (ok tt, w'')
        | raised x ↦ (
          raised x,
          record w'' {
            owner = record w''.owner {
              pending_commands = unpend key w''.owner.pending_commands;
              futures = forget n w''.owner.futures;
            };
          },
        )
      ]

  -- `_send_command` from its wait on, once the future is settled or its time is up.
  unfoldable pub await_answer : ℕ → Text → Action ⊤
  await_answer n name w =
      let key = show_nat n in
      let c = w.owner in
      let popped = record c { pending_commands = unpend key c.pending_commands } in
      if is_waiting n c.futures
      then (let late = unanswered key name in
          (
            raised (wattpilot_raised (command_error late)),
            record w { owner = record popped { futures = settle n (failed late) c.futures } },
          ))
      else (elim (future_of n c.futures) [
        | some (failed reason) ↦
            (raised (wattpilot_raised (command_error reason)), record w { owner = popped })
        | _ ↦ (ok tt, record w { owner = popped })
      ])

  -- `set_property` up to the wait for the answer; it gives the number to wait for, if any.
  unfoldable pub set_property : Dict → Text → Value → Action (Option ℕ)
  unfolding coerce_value is_secured send_command
  set_property properties name value = do
    coerced ← lift (coerce_value py properties name value)
    on_client (λ c. record c { request_id = c.request_id + 1 })
    c ← get_client
    secure ← lift (is_secured c.device.secured)
    let message = set_value_message c.request_id name coerced
    if never_acknowledged name
        then send message secure >> pure none
        else send_command c.request_id message secure >> pure (some c.request_id)

-- The seconds that `set_next_trip` sends for a wall-clock time.
unfoldable pub next_trip_seconds : ℕ → ℕ → ℕ → ℕ
next_trip_seconds hour minute second = hour * 3600 + minute * 60 + second
