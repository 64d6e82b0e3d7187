-- ===== src/Sensor/Held.antt =====
-- What a total holds, one number at a time.
use ha_wattpilot.Base.{
  ◌≡◌, refl, true, false, none, some, arith, Text, codes, text_eq, Bool-cases, inl, inr, ◌⊎◌, leb,
  length,
}
use ha_wattpilot.Json.{Value, null}
use ha_wattpilot.Entities.{SensorDescription}
use ha_wattpilot.Readings.{Reading, reads, type_error, is_number, fit_for_state, largest_double}
use ha_wattpilot.Sensor.Library.{SensorLibrary}
use ha_wattpilot.Sensor.Hold.{
  Shown, total_sensor, sensor_class, at_least_number, should_suppress_decrease, suppresses, clamped,
  prepared, held, no_timer,
}
use ha_wattpilot.Sensor.Apply.{expects_number}
use ha_wattpilot.Sensor.Compare.{at_least_number_trans}

fit_for_state-cases :
    (str_of : Value → Text) (v : Value)
    → (fit_for_state str_of v ≡ null) ⊎ (fit_for_state str_of v ≡ v)
unfolding fit_for_state
fit_for_state-cases str_of null = inl refl
fit_for_state-cases str_of v = elim (Bool-cases (leb (length (str_of v)) 255)) [
  | inl short ↦ inr (rw short refl)
  | inr long ↦ inl (rw long refl)
]

-- The descriptions of totals: numbers that only rise, and for which null is unknown.
pub record IsTotal (py : SensorLibrary) (d : SensorDescription) : Type 0 where
  pub class : sensor_class d ≡ total_sensor
  pub rises : d.monotonic ≡ true
  pub tolerant : d.reset_tolerant_monotonic ≡ false
  pub null_shown : d.null_is_zero ≡ false
  pub cards : d.cards_index ≡ none
  pub untimed :
      (elim d.device_class [ some c ↦ text_eq c (codes "timestamp") | none ↦ false ]) ≡ false
  pub plain : d.enum ≡ none
  pub numeric : expects_number py d ≡ true
  pub whole : d.value_index ≡ none
  pub direct : d.namespace_value ≡ none
  pub single : d.highest_reading ≡ false
  pub measured : d.switched_phases ≡ false
  pub alone : d.common.companion_key ≡ none
  pub escaped : d.html_unescape ≡ false

-- The number that is held is at least this one, and it is what is shown, if anything is.
pub record IsAtLeast (total : Value) (s : Shown) : Type 0 where
  pub number : Value
  pub last : s.last_number ≡ some number
  pub counts : is_number number ≡ true
  pub risen : at_least_number number total ≡ true
  pub shown : (s.native_value ≡ null) ⊎ (s.native_value ≡ number)
  pub settled : s.restored_total ≡ none
  pub waits : s.idle_timer ≡ no_timer

-- What is shown of a number.
abbrev pub show_number : SensorLibrary → Reading Value × Shown → Shown
show_number py (number, s') = elim number [
  | type_error ↦ s'
  | reads n ↦ record s' { native_value = fit_for_state py.str_of n }
]

module _ (py : SensorLibrary) (d : SensorDescription) (t : IsTotal py d) (total : Value) where
  pub clamped-is_number : (v : Value) → is_number v ≡ true → is_number (prepared py d v) ≡ true
  unfolding prepared clamped is_number largest_double
  clamped-is_number v h = rw t.tolerant (ground arith)

  held-IsAtLeast :
      (v : Value) (s : Shown)
      → is_number v ≡ true
      → IsAtLeast total s
      → (let (w, s') = held py d total_sensor v s in
          (s'.last_number ≡ some w)
          × (is_number w ≡ true)
          × (at_least_number w total ≡ true)
          × (s'.restored_total ≡ none)
          × (s'.idle_timer ≡ no_timer))
  unfolding held should_suppress_decrease suppresses
  held-IsAtLeast v s h i =
      let p = prepared py d v in
      elim (Bool-cases (at_least_number p i.number)) [
        | inl risen ↦
            rw (i.settled, i.last, risen)
              (
                refl,
                clamped-is_number v h,
                at_least_number_trans p i.number total risen i.risen,
                refl,
                i.waits,
              )
        | inr fallen ↦
            rw (i.settled, i.last, fallen, t.rises) (refl, i.counts, i.risen, refl, i.waits)
      ]

  pub shows-IsAtLeast :
      (str_of : Value → Text) (w : Value) (s : Shown)
      → s.last_number ≡ some w
      → is_number w ≡ true
      → at_least_number w total ≡ true
      → s.restored_total ≡ none
      → s.idle_timer ≡ no_timer
      → IsAtLeast total (record s { native_value = fit_for_state str_of w })
  unfolding fit_for_state
  shows-IsAtLeast str_of w s last counts risen settled waits = record {
    number = w;
    last = last;
    counts = counts;
    risen = risen;
    shown = fit_for_state-cases str_of w;
    settled = settled;
    waits = waits;
  }

  pub unknown-IsAtLeast :
      (s : Shown) → IsAtLeast total s → IsAtLeast total (record s { native_value = null })
  unknown-IsAtLeast s i = record {
    number = i.number;
    last = i.last;
    counts = i.counts;
    risen = i.risen;
    shown = inl refl;
    settled = i.settled;
    waits = i.waits;
  }

  pub show_held-IsAtLeast :
      (v : Value) (s : Shown)
      → is_number v ≡ true
      → IsAtLeast total s
      → (let (w, s') = held py d total_sensor v s in
          IsAtLeast total (record s' { native_value = fit_for_state py.str_of w }))
  show_held-IsAtLeast v s h i =
      let (last, counts, risen, settled, waits) = held-IsAtLeast v s h i in
      let (w, s') = held py d total_sensor v s in
      shows-IsAtLeast py.str_of w s' last counts risen settled waits
