-- ===== src/Api/Connection/Backoff.antt =====
-- How long the reader waits between two attempts to reach the charger again.
use ha_wattpilot.Base.{
  ℕ, zero, suc, ◌*◌, ◌^◌, ◌≤◌, min, ◌≡◌, refl, ap, true, false, some, arith, Text,
}
use native.Mathlib.Nat.{pow-suc}
use ha_wattpilot.Api.Errors.{is_final_refusal}
use ha_wattpilot.Api.Connection.State.{reading, Connection}
use ha_wattpilot.Api.Connection.Reader.{socket_ended, wake, reconnected}

module _ {C : Type 0} (on_reset : Text → C → C) where
  -- One round of an outage: the socket is gone, the sleep is over, the attempt fails.
  failed_round : Connection C → Connection C
  failed_round c = reconnected false (wake on_reset (socket_ended c))

  pub failed_rounds : ℕ → Connection C → Connection C
  unfolding failed_round
  failed_rounds zero c = c
  failed_rounds (suc k) c = failed_round (failed_rounds k c)

  -- A reader that reads, and may try again.
  pub record IsRetryable (c : Connection C) : Type 0 where
    pub reads : c.message_loop_task ≡ some reading
    pub auto : c.auto_reconnect ≡ true
    pub not_final : is_final_refusal c.fatal_error ≡ false

  failed_round_lem :
      (c : Connection C)
      → IsRetryable c
      → IsRetryable (failed_round c)
        × ((failed_round c).reconnect_delay ≡ min (c.reconnect_delay * 2) c.reconnect_delay_max)
        × ((failed_round c).reconnect_delay_max ≡ c.reconnect_delay_max)
  unfolding failed_round socket_ended wake reconnected is_final_refusal
  failed_round_lem c r = ground arith

  -- The k-th attempt in a row that fails doubles the wait, up to the longest one, and the reader
  -- goes on trying.
  pub failed_rounds-delay :
      (k : ℕ) (c : Connection C)
      → IsRetryable c
      → c.reconnect_delay ≤ c.reconnect_delay_max
      → IsRetryable (failed_rounds k c)
        × ((failed_rounds k c).reconnect_delay
            ≡ min (c.reconnect_delay * 2 ^ k) c.reconnect_delay_max)
        × ((failed_rounds k c).reconnect_delay_max ≡ c.reconnect_delay_max)
  unfolding failed_rounds
  failed_rounds-delay zero c r h = (r, omega arith, refl)
  failed_rounds-delay (suc k) c r h =
      let (r', delay, top) = failed_rounds-delay k c r h in
      let (r'', delay', top') = failed_round_lem (failed_rounds k c) r' in
      (
        r'',
        omega (arith, delay, delay', top, ap (λ (t : ℕ). c.reconnect_delay * t) (pow-suc 2 k)),
        omega arith,
      )
