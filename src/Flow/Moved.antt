-- ===== src/Flow/Moved.antt =====
-- What the announcement of a charger does to its entry.
use ha_wattpilot.Base.{Bool, not, ◌&&◌, ◌||◌, Text}
use ha_wattpilot.Entries.{ConfigEntry}
use ha_wattpilot.Flow.State.{Home, is_set_up_again, is_new_host}
use ha_wattpilot.Flow.Discovery.{is_at_ipv4, is_loaded, has_failed}

-- Whether an entry follows an announcement: one at an address, and not talking to its charger.
abbrev pub follows : ConfigEntry → Home → Bool
follows e h = is_at_ipv4 e && not (is_loaded (h.state e.entry_id) && h.available e.entry_id)

-- Whether the address is new to it, and its setup has succeeded, has failed or waits for a retry.
abbrev pub is_restarted : Text → ConfigEntry → Home → Bool
is_restarted host e h =
    (has_failed (h.state e.entry_id) || is_set_up_again (h.state e.entry_id)) && is_new_host host e

abbrev is_revived : Text → ConfigEntry → Home → Bool
is_revived host e h = has_failed (h.state e.entry_id) && is_new_host host e
