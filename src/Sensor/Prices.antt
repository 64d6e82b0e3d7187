-- ===== src/Sensor/Prices.antt =====
-- `price_list` of custom_components/wattpilot/readings.py: the prices that one sensor shows beside its
-- state, from a list or from the Flex's schedule.
use ha_wattpilot.Base.{ℕ, suc, ◌&&◌, Option, none, some, List, [], ◌∷◌, codes, if◌then◌else◌, ◌+ℤ◌}
use ha_wattpilot.Json.{Value, int, list, Items, nil, cons, end, entry, items_to_list, scale}
use ha_wattpilot.Readings.{namespace_get, is_number}
use ha_wattpilot.Sensor.Library.{SensorLibrary}

module _ (py : SensorLibrary) where
  -- `start + i * interval`
  unfoldable pub offset : Value → ℕ → Value → Value
  offset (int a) i (int b) = int (a +ℤ scale b i)
  offset start i interval = py.add_times start i interval

  -- The entries of `_price_schedule`, from a position on.
  unfoldable pub schedule_from : Value → Value → ℕ → Items → List Value
  unfolding offset
  schedule_from start interval i nil = []
  schedule_from start interval i (cons price later) =
      Value.dict (
        entry (codes "start") (offset start i interval) (
          entry (codes "end") (offset start (suc i) interval)
            (entry (codes "marketprice") price end)))
      ∷ schedule_from start interval (suc i) later

  unfoldable pub price_schedule : Value → List Value
  unfolding schedule_from
  price_schedule value =
      let start = namespace_get value (codes "start") in
      let interval = namespace_get value (codes "interval") in
      elim (namespace_get value (codes "marketprice")) [
        | list offered ↦
            if is_number start && is_number interval
            then schedule_from start interval 0 offered
            else []
        | _ ↦ []
      ]

  unfoldable pub price_entry : Value → Option Value
  price_entry price = elim (py.utc_from_timestamp (namespace_get price (codes "start"))) [
    | none ↦ none
    | some begins ↦ elim (py.utc_from_timestamp (namespace_get price (codes "end"))) [
      | none ↦ none
      | some ends ↦ some (
          Value.dict (
            entry (codes "start") begins (
              entry (codes "end") ends
                (entry (codes "price") (namespace_get price (codes "marketprice")) end))))
    ]
  ]

  unfoldable pub usable_prices : List Value → Items
  unfolding price_entry
  usable_prices [] = nil
  usable_prices (price ∷ later) =
      let rest = usable_prices later in
      elim (price_entry price) [ some p ↦ cons p rest | none ↦ rest ]

  unfoldable pub price_list : Value → Value
  unfolding price_schedule usable_prices
  price_list (list offered) = list (usable_prices (items_to_list offered))
  price_list value = list (usable_prices (price_schedule value))
