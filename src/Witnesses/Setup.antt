-- ===== src/Witnesses/Setup.antt =====
-- Concrete inputs for the theorems on the setup of an entry.
use ha_wattpilot.Base.{◌≡◌, true, false, none, some, List, [], ◌∷◌, codes, if◌then◌else◌}
use ha_wattpilot.Setup.Firmware.{
  WatchEvent, reported, looked, look, new_watch, watch_run, has_changed, watch_run-reloads,
}

-- An update is pushed twice, and then a newer one, while the connection comes up.
abbrev update_pushes : List WatchEvent
update_pushes =
    reported (some (codes "42.5"))
    ∷ looked true
    ∷ reported (some (codes "43.5"))
    ∷ looked false
    ∷ reported none
    ∷ reported (some (codes "43.6"))
    ∷ []

watch_run-reloads_example :
    (look true (watch_run update_pushes (new_watch (some (codes "42.5"))))).reloads
    ≡ (if has_changed (some (codes "42.5")) update_pushes then 1 else 0)
watch_run-reloads_example = watch_run-reloads (some (codes "42.5")) update_pushes
