-- ===== src/Update/Install.antt =====
-- What an installation sends to the charger, after any pushes.
use ha_wattpilot.Base.{◌≡◌, Option, none, some, List, [], ◌∷◌, Text}
use ha_wattpilot.Update.{
  Versions, Update, UpdateEvent, added, versions_pushed, installed_pushed, raw_versions,
  newest_version,
}

-- What the charger offers after these events: the last list that it has sent.
unfoldable pub listed : List Text → List UpdateEvent → List Text
unfolding raw_versions
listed raw [] = raw
listed raw (added firmware (some v) ∷ es) = listed (raw_versions v) es
listed raw (added firmware none ∷ es) = listed raw es
listed raw (versions_pushed firmware v ∷ es) = listed (raw_versions v) es
listed raw (installed_pushed firmware ∷ es) = listed raw es

-- The newest version, or what is shown in its place.
abbrev or_shown : Option Text → Option Text → Option Text
or_shown shown newest = elim newest [ none ↦ shown | some s ↦ some s ]

module _ {V : Type 0} (py : Versions V) where
  -- What is offered is this list, and the latest is its newest if it has one.
  record Follows (raw : List Text) (u : Update) : Type 0 where
    shown : Option Text
    all_offered : u.offered ≡ raw
    newest_shown : u.latest ≡ or_shown shown (newest_version py raw)
