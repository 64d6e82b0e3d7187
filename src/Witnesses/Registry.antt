-- ===== src/Witnesses/Registry.antt =====
-- Concrete inputs for the theorem on the ids that a migration hands out.
use ha_wattpilot.Base.{List, [], ◌∷◌, codes, All, pos}
use ha_wattpilot.Json.{int, end, entry}
use ha_wattpilot.Entries.{RegistryEntry, known_suffixes, migrate_legacy_unique_ids}
use ha_wattpilot.Entries.Targets.{IsTarget, migrate_legacy_unique_ids-IsTarget}

-- Entities of the fork, one of which no table knows.
abbrev fork_entities : List RegistryEntry
fork_entities =
    record { entity_id = codes "number.amp"; domain = codes "number"; unique_id = codes "box-amp" }
    ∷ record {
      entity_id = codes "sensor.access";
      domain = codes "sensor";
      unique_id = codes "box-AccessState";
    }
    ∷ record {
      entity_id = codes "sensor.odd";
      domain = codes "sensor";
      unique_id = codes "box-odd";
    }
    ∷ []

migrate_legacy_unique_ids-IsTarget_example :
    All
      (λ p. IsTarget (codes "10000001") p.1)
      (migrate_legacy_unique_ids
        (codes "10000001")
        (known_suffixes (codes "22") (entry (codes "amp") (int (pos 16)) end))
        fork_entities).0
migrate_legacy_unique_ids-IsTarget_example =
    migrate_legacy_unique_ids-IsTarget (codes "10000001") (codes "22")
      (entry (codes "amp") (int (pos 16)) end) fork_entities
