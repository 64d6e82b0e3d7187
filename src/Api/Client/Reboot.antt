-- ===== src/Api/Client/Reboot.antt =====
-- That the wait for a reboot ends by its deadline, and how.
use ha_wattpilot.Base.{ℕ, ◌+◌, ◌-◌, ◌*◌, ◌≤◌, ◌<◌, ◌≡◌, ◌⊎◌, false, Option, some, ◌==◌}
use ha_wattpilot.Api.Errors.{Error}
use ha_wattpilot.Api.Connection.{resume_reconnecting}
use ha_wattpilot.Api.Client.State.{Wattpilot, fail_pending_commands}
use ha_wattpilot.Api.Client.Firmware.{refusal, Reconnected, reached, refused, gave_up, Ended}

-- How a wait for a charger may have ended: with the charger reached; with the exception of an attempt
-- that left a final refusal; or given up, at its deadline or after another close, by a client that
-- reconnects by itself again.
abbrev pub IsEnded : ℕ → ℕ → Reconnected → ℕ → Wattpilot → Type 0
IsEnded deadline closes reached now w = now ≤ deadline
IsEnded deadline closes (refused x) now w = (now ≤ deadline) × ((e : Error) × (refusal w ≡ some e))
IsEnded deadline closes (gave_up x) now w =
    (now ≤ deadline)
    × (before : Wattpilot) × (w ≡ resume_reconnecting fail_pending_commands false before)
    × ((deadline ≤ now) ⊎ ((before.close_count == closes) ≡ false))

-- All that a wait from this time on promises, one attempt taking a pause or what is left.
abbrev pub Ends : ℕ → ℕ → ℕ → ℕ → Option Ended → Type 0
Ends second deadline closes now o =
    (e : Ended) × (o ≡ some e)
    × (e.attempts * (2 * second) < (deadline - now) + 2 * second)
    × IsEnded deadline closes e.result e.now e.client
