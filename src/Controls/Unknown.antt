-- ===== src/Controls/Unknown.antt =====
-- `_report_unknown` of custom_components/wattpilot/select.py: a warning about a value that no option
-- stands for.
use ha_wattpilot.Base.{
  ℕ, suc, ◌+◌, ◌≤◌, Bool, true, false, not, ◌||◌, List, [], ◌∷◌, arith, if◌then◌else◌,
}
use ha_wattpilot.Json.{Value, null}

-- `_unknown_reported`, and how many warnings there were.
pub record Reports : Type 0 where
  pub reported : Bool
  pub warnings : ℕ

abbrev is_null : Value → Bool
is_null null = true
is_null _ = false

module _ (fixed_table : Bool) where
  unfoldable pub report_unknown : Value → Bool → Reports → Reports
  report_unknown v true r = record r { reported = false }
  report_unknown v false r =
      if is_null v || not fixed_table || r.reported
      then r
      else record { reported = true; warnings = suc r.warnings }

  -- Values one after another, each with whether an option stands for it.
  unfoldable pub report_run : List (Value × Bool) → Reports → Reports
  unfolding report_unknown
  report_run [] r = r
  report_run ((v, known) ∷ vs) r = report_run vs (report_unknown v known r)

  abbrev known_count : List (Value × Bool) → ℕ
  known_count [] = 0
  known_count ((v, known) ∷ vs) = if known then suc (known_count vs) else known_count vs

  abbrev room : Reports → ℕ
  room r = if r.reported then 0 else 1

  report_unknown-room :
      (v : Value) (known : Bool) (r : Reports)
      → (report_unknown v known r).warnings + room (report_unknown v known r)
        ≤ r.warnings + room r + (if known then 1 else 0)
  unfolding report_unknown
  report_unknown-room v true r = ground (arith)
  report_unknown-room v false r = ground (arith)

  -- However many unknown values come, there is one warning at most between two known ones.
  report_run-warnings :
      (vs : List (Value × Bool)) (r : Reports)
      → (report_run vs r).warnings ≤ r.warnings + room r + known_count vs
  unfolding report_run
  report_run-warnings [] r = ground (arith)
  report_run-warnings ((v, true) ∷ vs) r =
      omega (arith, report_unknown-room v true r, report_run-warnings vs (report_unknown v true r))
  report_run-warnings ((v, false) ∷ vs) r =
      omega
        (arith, report_unknown-room v false r, report_run-warnings vs (report_unknown v false r))
