-- ===== src/Api/Client/Firmware.antt =====
-- `install_firmware_update`: the wait for the reboot, and the attempts to reach the charger again.
use ha_wattpilot.Base.{
  ℕ, zero, suc, ◌+◌, ◌-◌, ◌*◌, Bool, true, false, not, ◌||◌, Option, none, some, [], ◌∷◌, Text,
  codes, ltb, leb, ◌==◌, min, if◌then◌else◌,
}
use ha_wattpilot.Json.{Value}
use ha_wattpilot.Api.Errors.{Error, connection_error, property_error, no_update, is_final}
use ha_wattpilot.Api.Connection.{resume_reconnecting}
use ha_wattpilot.Api.Client.Properties.{available_firmware_versions}
use ha_wattpilot.Api.Client.State.{
  Raised, Client, wattpilot_raised, other_raised, Outcome, ok, raised, Wattpilot,
  fail_pending_commands,
}

-- `refusal`
unfoldable pub refusal : Wattpilot → Option Error
unfolding is_final
refusal w = elim w.fatal_error [ some e ↦ if is_final e then some e else none | none ↦ none ]

-- `connected`
unfoldable pub connected : Wattpilot → Bool
connected w = w.authenticated

-- What has become of a wait: how long it took, what it raised, if anything, and the client by then.
pub record Waited : Type 0 where
  pub took : ℕ
  pub error : Option Raised
  pub client : Wattpilot

-- `asyncio.timeout(limit)` around a wait.
unfoldable pub within : ℕ → Waited → Waited
within limit a =
    if ltb limit a.took
    then record a { took = limit; error = some (other_raised (codes "TimeoutError")) }
    else a

-- How the attempts after a reboot end.
pub data Reconnected : Type 0 where
  reached : Reconnected
  refused : Raised → Reconnected
  gave_up : Raised → Reconnected

-- An ended wait: how it ended, the time and the client by then, and the attempts that were made.
pub record Ended : Type 0 where
  pub result : Reconnected
  pub now : ℕ
  pub client : Wattpilot
  pub attempts : ℕ

-- A second in the units of time. What an attempt to connect and a pause come to is the environment's:
-- it sees the time, and the attempt what is left of it.
module _ (second : ℕ) (attempt : ℕ → ℕ → Wattpilot → Waited)
    (pause : ℕ → Wattpilot → Wattpilot) where
  -- `_REBOOT_RETRY_PAUSE`
  unfoldable pub reboot_retry_pause : ℕ
  reboot_retry_pause = 2 * second

  -- `_reconnect_within`: whether the charger is reached, or what is raised.
  unfoldable pub reconnect_within : ℕ → ℕ → Wattpilot → Outcome Bool × ℕ × Wattpilot
  unfolding within refusal
  reconnect_within now remaining w =
      let a = within remaining (attempt now remaining w) in
      elim a.error [
        | none ↦ (ok true, now + a.took, a.client)
        | some x ↦ elim (refusal a.client) [
          | some _ ↦ (raised x, now + a.took, a.client)
          | none ↦ (ok false, now + a.took, a.client)
        ]
      ]

  -- The end of `_reconnect_before`.
  unfoldable pub give_up : ℕ → Wattpilot → Ended
  unfolding resume_reconnecting fail_pending_commands
  give_up now w = record {
    result =
        gave_up (
          wattpilot_raised (connection_error (codes "Timeout reconnecting after firmware update")));
    now = now;
    client = resume_reconnecting fail_pending_commands false w;
    attempts = 0;
  }

  -- One more attempt before those that a wait went on to make.
  abbrev pub one_more : Option Ended → Option Ended
  one_more none = none
  one_more (some e) = some (record e { attempts = suc e.attempts })

  -- `_reconnect_before`, on fuel.
  unfoldable pub reconnect_before : ℕ → ℕ → ℕ → ℕ → Wattpilot → Option Ended
  unfolding reconnect_within give_up reboot_retry_pause
  reconnect_before zero deadline closes now w = none
  reconnect_before (suc fuel) deadline closes now w =
      if not (w.close_count == closes) || leb deadline now
      then some (give_up now w)
      else (let (r, now', w') = reconnect_within now (deadline - now) w in
          let rest =
            reconnect_before fuel deadline closes (now' + min reboot_retry_pause (deadline - now'))
              (pause now' w') in
          elim r [
            | ok true ↦ some (record { result = reached; now = now'; client = w'; attempts = 1 })
            | ok false ↦ one_more (if leb deadline now' then some (give_up now' w') else rest)
            | raised x ↦ some (record { result = refused x; now = now'; client = w'; attempts = 1 })
          ])

  -- `install_firmware_update` once its write was acknowledged, `timeout` later at most: the charger
  -- has to sign off for its reboot, and is then tried until the deadline.
  unfoldable pub await_reboot : ℕ → ℕ → ℕ → Waited → Option Ended
  unfolding connected within
  await_reboot start timeout closes reboot =
      let gone = within timeout reboot in
      let now = start + gone.took in
      if connected gone.client
      then some (record {
        result = gave_up (
            wattpilot_raised
              (connection_error (codes "Charger did not disconnect for firmware update")));
        now = now;
        client = gone.client;
        attempts = 0;
      })
      else reconnect_before (suc timeout) (start + timeout) closes now gone.client

-- The version that `install_firmware_update` writes.
unfoldable pub version_to_install : (Value → Text) → Option Text → Client → Outcome Text
unfolding available_firmware_versions
version_to_install str_of (some version) c = ok version
version_to_install str_of none c = elim (available_firmware_versions str_of c) [
  | [] ↦ raised (wattpilot_raised (property_error no_update))
  | version ∷ _ ↦ ok version
]
