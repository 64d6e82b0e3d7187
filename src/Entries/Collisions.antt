-- ===== src/Entries/Collisions.antt =====
-- `_report_collisions` and `_show_collisions` of custom_components/wattpilot/registry_migration.py: the
-- repair issue for the entities that a migration left alone.
use ha_wattpilot.Base.{
  ◌≡◌, refl, ap, sym, ◌∙◌, Option, none, some, List, [], ◌∷◌, Text, text_eq, if◌then◌else◌,
}

-- An entity by the id that it keeps and by its entity id.
pub record Entity : Type 0 where
  pub registry_id : Text
  pub entity_id : Text

-- What the registry tells its listeners.
pub data RegistryEvent : Type 0 where
  removed : Text → RegistryEvent
  renamed : Text → Text → RegistryEvent
  -- an update with no `old_entity_id`
  updated : Text → RegistryEvent

-- The registry, the names that the issue shows, if there is one, and the ids that are listened for.
pub record Notice : Type 0 where
  pub registry : List Entity
  pub issue : Option (List Text)
  pub listed : List Text

-- `registry.async_get(name)`, for the id of what it finds.
unfoldable pub id_of : Text → List Entity → Option Text
id_of name [] = none
id_of name (e ∷ es) =
    let rest = id_of name es in if text_eq e.entity_id name then some e.registry_id else rest

unfoldable pub entity_id_of : Text → List Entity → Option Text
entity_id_of id [] = none
entity_id_of id (e ∷ es) =
    let rest = entity_id_of id es in if text_eq e.registry_id id then some e.entity_id else rest

-- What a lookup finds of each, where it finds something.
unfoldable pub found_of : (Text → Option Text) → List Text → List Text
found_of look_up [] = []
found_of look_up (t ∷ ts) =
    let rest = found_of look_up ts in elim (look_up t) [ some s ↦ s ∷ rest | none ↦ rest ]

-- `_show_collisions`. The text of the issue puts the names in their order.
unfoldable pub show_collisions : List Text → Option (List Text)
show_collisions [] = none
show_collisions (c ∷ cs) = some (c ∷ cs)

-- `_report_collisions`
unfoldable pub report_collisions : List Text → List Entity → Notice
unfolding found_of show_collisions id_of
report_collisions collisions registry = record {
  registry = registry;
  issue = show_collisions collisions;
  listed = found_of (λ name. id_of name registry) collisions;
}

-- `_recount`
unfoldable pub recount : Notice → Notice
unfolding found_of show_collisions entity_id_of
recount n = record n {
  issue = show_collisions (found_of (λ id. entity_id_of id n.registry) n.listed);
}

unfoldable pub without_entity : Text → List Entity → List Entity
without_entity id [] = []
without_entity id (e ∷ es) =
    let rest = without_entity id es in if text_eq e.registry_id id then rest else e ∷ rest

unfoldable pub with_name : Text → Text → List Entity → List Entity
with_name id name [] = []
with_name id name (e ∷ es) =
    let rest = with_name id name es in
    (if text_eq e.registry_id id then record e { entity_id = name } else e) ∷ rest

-- A change of the registry, and the listener, which only a removal or a new name wakes.
unfoldable pub registry_step : RegistryEvent → Notice → Notice
unfolding recount without_entity with_name
registry_step (removed id) n = recount (record n { registry = without_entity id n.registry })
registry_step (renamed id name) n = recount (record n { registry = with_name id name n.registry })
registry_step (updated id) n = n

unfoldable pub registry_run : List RegistryEvent → Notice → Notice
unfolding registry_step
registry_run [] n = n
registry_run (e ∷ es) n = registry_run es (registry_step e n)

-- The issue names what is left of the listed entities, as they are called now.
abbrev pub IsUpToDate : Notice → Type 0
IsUpToDate n = n.issue ≡ show_collisions (found_of (λ id. entity_id_of id n.registry) n.listed)

registry_step-IsUpToDate :
    (e : RegistryEvent) (n : Notice) → IsUpToDate n → IsUpToDate (registry_step e n)
unfolding registry_step recount
registry_step-IsUpToDate (removed id) n h = refl
registry_step-IsUpToDate (renamed id name) n h = refl
registry_step-IsUpToDate (updated id) n h = h

registry_run-IsUpToDate :
    (es : List RegistryEvent) (n : Notice) → IsUpToDate n → IsUpToDate (registry_run es n)
unfolding registry_run
registry_run-IsUpToDate [] n h = h
registry_run-IsUpToDate (e ∷ es) n h =
    registry_run-IsUpToDate es (registry_step e n) (registry_step-IsUpToDate e n h)

registry_run-listed : (es : List RegistryEvent) (n : Notice) → (registry_run es n).listed ≡ n.listed
unfolding registry_run registry_step recount
registry_run-listed [] n = refl
registry_run-listed (removed id ∷ es) n = registry_run-listed es _
registry_run-listed (renamed id name ∷ es) n = registry_run-listed es _
registry_run-listed (updated id ∷ es) n = registry_run-listed es n

-- However the entities of the registry are removed, renamed and updated after the report, the repair
-- issue names exactly those of the reported ones that are left, as they are called by then, and it is
-- gone once none is left; given that the registry finds each reported entity by its name and that one
-- again by its id.
report_collisions-run :
    (collisions : List Text) (registry : List Entity) (es : List RegistryEvent)
    → found_of (λ id. entity_id_of id registry) (found_of (λ name. id_of name registry) collisions)
      ≡ collisions
    → (registry_run es (report_collisions collisions registry)).issue
      ≡ show_collisions (
          found_of
            (λ id.
              entity_id_of id (registry_run es (report_collisions collisions registry)).registry)
            (found_of (λ name. id_of name registry) collisions))
unfolding report_collisions
report_collisions-run collisions registry es known =
    let n = report_collisions collisions registry in
    registry_run-IsUpToDate es n (ap show_collisions (sym known))
    ∙ ap
        (λ ids. show_collisions (found_of (λ id. entity_id_of id (registry_run es n).registry) ids))
        (registry_run-listed es n)
