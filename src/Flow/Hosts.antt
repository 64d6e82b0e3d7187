-- ===== src/Flow/Hosts.antt =====
-- What the ways in which the entries change mean for the address of one that knows its serial.
use ha_wattpilot.Base.{
  ◌≡◌, refl, ap, sym, ◌∙◌, Option, none, some, List, is_some, Text, text_eq, text_eq_sound,
  Bool-cases, ◌⊎◌, inl, inr,
}
use ha_wattpilot.Json.{Value, text}
use ha_wattpilot.Entries.{ConfigEntry, awaits_serial}
use ha_wattpilot.Setup.{with_serial, entry_of}
use ha_wattpilot.Setup.Serials.{entry_of-update_entry}
use ha_wattpilot.Flow.Changes.{
  Change, unchanged, adopted, rewritten, added, host_of, Knows, Change-Knows, entry_of-append,
  entry_of-update_entry_same,
}

abbrev host_found : Option ConfigEntry → Option Value
host_found none = none
host_found (some e) = host_of e

-- The address of the entry with this id.
abbrev pub host_at : Text → List ConfigEntry → Option Value
host_at id es = host_found (entry_of id es)

-- The entry stays at its address, or is moved to one that is vouched for.
abbrev pub StaysOr :
    (Text → Text → Type 0) → Text → Text → List ConfigEntry → List ConfigEntry → Type 0
StaysOr V id serial es es' =
    (host_at id es' ≡ host_at id es)
    ⊎ ((host : Text) × (host_at id es' ≡ some (text host)) × V serial host)

pub Change-StaysOr :
    {V : Text → Text → Type 0} (id serial : Text) {es es' : List ConfigEntry}
    → Change V es es'
    → Knows id serial es
    → StaysOr V id serial es es'
unfolding with_serial
Change-StaysOr id serial unchanged k = inl refl
Change-StaysOr id serial {es} (adopted e s found awaits free) k =
    elim (Bool-cases (text_eq e.entry_id id)) [
      | inl itself ↦
          let settled = k.settled in
          let both : some e ≡ some k.keeper =
            sym found ∙ ap (λ t. entry_of t es) (text_eq_sound e.entry_id id itself) ∙ k.found in
          cc
      | inr other ↦ inl (ap host_found (entry_of-update_entry id (with_serial s e) es other))
    ]
Change-StaysOr id serial {es} (rewritten e e' found i u w moves) k =
    elim (Bool-cases (text_eq e.entry_id id)) [
      | inl itself ↦
          let j = text_eq_sound e.entry_id id itself in
          let here = ap (λ t. entry_of t es) (sym j) ∙ found in
          let both : some e ≡ some k.keeper = sym here ∙ k.found in
          let is_e : e ≡ k.keeper = cc in
          let after =
            ap host_found
              (entry_of-update_entry_same id e' es (rw i itself) (ap is_some k.found)) in
          elim moves [
            | inl stays ↦ inl (after ∙ stays ∙ ap host_found (sym here))
            | inr (host, moved, vouched) ↦ inr (
              host,
              after ∙ moved,
              vouched serial (ap (λ (x : ConfigEntry). x.unique_id) is_e ∙ k.serial_known)
                  (ap awaits_serial is_e ∙ k.settled),
            )
          ]
      | inr other ↦ inl (ap host_found (entry_of-update_entry id e' es (rw i other)))
    ]
Change-StaysOr id serial {es} (added e alone) k =
    inl (ap host_found (entry_of-append id k.keeper e es k.found ∙ sym k.found))

-- The same of two changes in a row.
pub Changes-StaysOr :
    {V : Text → Text → Type 0} (id serial : Text) {es fs gs : List ConfigEntry}
    → Change V es fs
    → Change V fs gs
    → Knows id serial es
    → StaysOr V id serial es gs
Changes-StaysOr {V} id serial {es} {fs} {gs} first second k =
    elim (Change-StaysOr id serial second (Change-Knows id serial first k)) [
      | inr moved ↦ inr moved
      | inl stays ↦ elim (Change-StaysOr id serial first k) [
        | inl stayed ↦ inl (stays ∙ stayed)
        | inr (host, there, vouched) ↦ inr (host, stays ∙ there, vouched)
      ]
    ]
