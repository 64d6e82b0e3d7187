-- ===== src/Readings/Bounds.antt =====
-- How long a session lasted, across a restart of the charger, and how many phases it uses.
use ha_wattpilot.Base.{
  ℕ, ◌+◌, ◌-◌, ◌/◌, ◌≤◌, ◌<◌, ◌≡◌, true, some, arith, ℤ, pos, negsuc, ◌-ℤ◌, codes, text_eq,
  pos_part, neg_part,
}
use ha_wattpilot.Json.{Value, int, end, entry, get, value_eq, number_eq, as_number, float_le}
use ha_wattpilot.Readings.{
  charging_minutes, is_number, minutes, minus, namespace_get, largest_double,
}

-- A cdi reading as the charger sends it.
abbrev pub cdi : ℕ → ℤ → Value
cdi kind value =
    Value.dict (entry (codes "type") (int (pos kind)) (entry (codes "value") (int value) end))

is_number-small : (z : ℤ) → pos_part z + neg_part z ≤ largest_double → is_number (int z) ≡ true
unfolding is_number
is_number-small z h = ground arith

-- A session that began `before + 1` ms ahead of the last restart and is `after` ms into the time since
-- shows the whole minutes of both together; one that began after it, the minutes since it began;
-- and one that has ended, the minutes that the charger counted.
charging_minutes_lem :
    (float_minus : Value → Value → Value) (before after began : ℕ)
    → before + after < largest_double
    → began ≤ after
    → (charging_minutes float_minus (cdi 0 (negsuc before)) (int (pos after))
        ≡ some (pos ((after + before + 1) / 60000)))
      × (charging_minutes float_minus (cdi 0 (pos began)) (int (pos after))
          ≡ some (pos ((after - began) / 60000)))
      × (charging_minutes float_minus (cdi 1 (pos after)) Value.null ≡ some (pos (after / 60000)))
unfolding charging_minutes namespace_get get text_eq minus minutes value_eq number_eq as_number
    float_le ◌-ℤ◌
charging_minutes_lem float_minus before after began small earlier =
    let now = is_number-small (pos after) (omega arith) in
    let start = is_number-small (negsuc before) (omega arith) in
    let began_small = is_number-small (pos began) (omega arith) in
    let across = is_number-small (pos (after + before + 1)) (omega arith) in
    let within = is_number-small (pos (after - began)) (omega arith) in
    (ground arith, ground arith, ground arith)
