-- ===== src/Setup/Fork.antt =====
-- What becomes of an entry of the fork.
use ha_wattpilot.Base.{Text}
use ha_wattpilot.Json.{Value}
use ha_wattpilot.Entries.{ConfigEntry}
use ha_wattpilot.Setup.Migrate.{local_data, and_name}

-- The entry that a local one of the fork becomes.
unfoldable pub fork_local : Value → Value → Text → ConfigEntry → ConfigEntry
unfolding and_name local_data
fork_local host password name e = record e { options = and_name name (local_data host password) }
