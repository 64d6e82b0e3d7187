-- ===== src/Hub/Announce.antt =====
-- The availability that entities were told of.
use ha_wattpilot.Base.{
  ℕ, ◌≡◌, refl, ap, Bool-cases, Option-cases, inl, inr, ◌==◌, if◌then◌else◌, Bool, true, false, not,
  Option, none, some, List, [], ◌∷◌, arith, Text,
}
use ha_wattpilot.Json.{Value, Dict, end, entry, insert}
use ha_wattpilot.Api.Errors.{Error, is_final_refusal}
use ha_wattpilot.Api.Client.{Wattpilot}
use ha_wattpilot.Hub.State.{
  is_available, Hub, Signal, property, availability, new_hub, is_claimed, send_all,
  update_availability, flush_pending, clear_refusals, report_refusal, connect_begin, connect_end,
  start_dispatch, reconnect_begin, disconnect_begin, disconnect_end, shutdown_begin,
  handle_property_change, check_availability,
}
use ha_wattpilot.Hub.Steps.{
  HubEvent, hub_step, hub_run, connecting_began, connecting_ended, dispatch_started,
  reconnecting_began, disconnecting_began, shutting_down_began, disconnecting_ended, pushed,
  flush_due, check_due,
}

-- The announcements of availability alone, the latest first.
unfoldable pub announced : List Signal → List Bool
announced [] = []
announced (property _ _ ∷ ss) = announced ss
announced (availability a ∷ ss) = a ∷ announced ss

-- Each differs from the one before it.
abbrev pub IsAlternating : List Bool → Type 0
IsAlternating [] = Unit
IsAlternating (a ∷ []) = Unit
IsAlternating (a ∷ b ∷ bs) = (a ≡ not b) × IsAlternating (b ∷ bs)

abbrev pub latest : List Bool → Option Bool
latest [] = none
latest (a ∷ _) = some a

pub record IsAnnounced (h : Hub) : Type 0 where
  pub current : latest (announced h.signals) ≡ h.last_available
  pub alternating : IsAlternating (announced h.signals)

announced-send_all : (d : Dict) (ss : List Signal) → announced (send_all d ss) ≡ announced ss
unfolding announced send_all
announced-send_all end ss = refl
announced-send_all (entry k v d) ss = announced-send_all d (property k v ∷ ss)

IsAlternating-cons :
    (a : Bool) (bs : List Bool)
    → is_claimed a (latest bs) ≡ false
    → IsAlternating bs
    → IsAlternating (a ∷ bs)
unfolding is_claimed
IsAlternating-cons a [] differs h = tt
IsAlternating-cons true (b ∷ bs) differs h = (ground arith, h)
IsAlternating-cons false (b ∷ bs) differs h = (ground arith, h)

-- A new announcement, on top of those there were.
announce-IsAnnounced :
    (a : Bool) (h h' : Hub)
    → announced h'.signals ≡ a ∷ announced h.signals
    → h'.last_available ≡ some a
    → is_claimed a h.last_available ≡ false
    → IsAnnounced h
    → IsAnnounced h'
announce-IsAnnounced a h h' grown claim fresh s = record {
  current = rw (grown, claim) refl;
  alternating =
      rw grown (IsAlternating-cons a (announced h.signals) (rw s.current fresh) s.alternating);
}

update_availability-IsAnnounced :
    (a : Bool) (h : Hub) → IsAnnounced h → IsAnnounced (update_availability a h)
unfolding update_availability announced clear_refusals flush_pending
update_availability-IsAnnounced a h s = elim (Bool-cases (is_claimed a h.last_available)) [
  | inl claimed ↦ rw (claimed, update_availability) s
  | inr fresh ↦
      rw (fresh, update_availability) (announce-IsAnnounced a h _ (told a) (held a) fresh s)
]
  where
    next : Bool → Hub
    next b =
        let claimed = record h { last_available = some b } in
        let t = if b then clear_refusals (flush_pending claimed) else claimed in
        record t { signals = availability b ∷ t.signals }

    told : (b : Bool) → announced (next b).signals ≡ b ∷ announced h.signals
    told true = ap (λ (bs : List Bool). true ∷ bs) (announced-send_all h.pending h.signals)
    told false = refl

    held : (b : Bool) → (next b).last_available ≡ some b
    held true = refl
    held false = refl

-- A change that says nothing of availability.
quiet-IsAnnounced :
    (h h' : Hub)
    → announced h'.signals ≡ announced h.signals
    → h'.last_available ≡ h.last_available
    → IsAnnounced h
    → IsAnnounced h'
quiet-IsAnnounced h h' same claim s = record {
  current = rw (same, claim) s.current;
  alternating = rw same s.alternating;
}

report_refusal-IsAnnounced :
    (known : Bool) (serial : Text) (e : Error) (h : Hub)
    → IsAnnounced h
    → IsAnnounced (report_refusal known serial e h)
unfolding report_refusal
report_refusal-IsAnnounced known serial e h s = ground arith

check_availability-IsAnnounced :
    (known : Bool) (w : Wattpilot) (h : Hub)
    → IsAnnounced h
    → IsAnnounced (check_availability known w h)
unfolding check_availability
check_availability-IsAnnounced known w h s =
    let checked = update_availability (is_available w h) h in
    let c = update_availability-IsAnnounced (is_available w h) h s in
    elim (Option-cases w.fatal_error) [
      | inl clear ↦ rw (clear, check_availability) c
      | inr (e, refused) ↦
          rw (refused, check_availability)
            (elim (Bool-cases (is_final_refusal (some e))) [
              | inl final ↦
                  rw final (report_refusal-IsAnnounced known w.owner.device.serial e checked c)
              | inr passing ↦ rw passing c
            ])
    ]

handle_property_change-IsAnnounced :
    (w : Wattpilot) (k : Text) (v : Value) (h : Hub)
    → IsAnnounced h
    → IsAnnounced (handle_property_change w k v h)
unfolding handle_property_change announced
handle_property_change-IsAnnounced w k v h s = elim (Bool-cases (h.update_interval == 0)) [
  | inl at_once ↦
      (let h' = record h { signals = property k v ∷ h.signals } in
        rw (at_once, handle_property_change)
          (update_availability-IsAnnounced (is_available w h') h'
            (quiet-IsAnnounced h h' refl refl s)))
  | inr held ↦
      (let h' = record h { pending = insert k v h.pending } in
        rw (held, handle_property_change)
          (update_availability-IsAnnounced (is_available w h') h'
            (quiet-IsAnnounced h h' refl refl s)))
]

hub_step-IsAnnounced : (e : HubEvent) (h : Hub) → IsAnnounced h → IsAnnounced (hub_step e h)
unfolding hub_step connect_begin connect_end start_dispatch reconnect_begin disconnect_begin
    disconnect_end shutdown_begin clear_refusals flush_pending
hub_step-IsAnnounced connecting_began h s = ground arith
hub_step-IsAnnounced (connecting_ended reached) h s =
    ground (arith, update_availability-IsAnnounced true h s)
hub_step-IsAnnounced dispatch_started h s = ground arith
hub_step-IsAnnounced reconnecting_began h s = ground arith
hub_step-IsAnnounced disconnecting_began h s = ground arith
hub_step-IsAnnounced shutting_down_began h s = ground arith
hub_step-IsAnnounced disconnecting_ended h s = update_availability-IsAnnounced false h s
hub_step-IsAnnounced (pushed w k v) h s =
    ground (arith, handle_property_change-IsAnnounced w k v h s)
hub_step-IsAnnounced flush_due h s = ground (arith, announced-send_all h.pending h.signals)
hub_step-IsAnnounced (check_due known w) h s =
    ground (arith, check_availability-IsAnnounced known w h s)

hub_run-IsAnnounced : (es : List HubEvent) (h : Hub) → IsAnnounced h → IsAnnounced (hub_run es h)
unfolding hub_run
hub_run-IsAnnounced [] h s = s
hub_run-IsAnnounced (e ∷ es) h s =
    hub_run-IsAnnounced es (hub_step e h) (hub_step-IsAnnounced e h s)

-- Through any life of a hub, the entities are told of a change of availability exactly when there
-- is one: two announcements in a row never agree, and the last one is what the hub holds, none
-- before the first.
pub new_hub-run-IsAnnounced :
    (interval : ℕ) (es : List HubEvent) → IsAnnounced (hub_run es (new_hub interval))
unfolding new_hub announced
new_hub-run-IsAnnounced interval es = hub_run-IsAnnounced es (new_hub interval) (ground arith)
