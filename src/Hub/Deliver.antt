-- ===== src/Hub/Deliver.antt =====
-- What the entities last heard of a property, and what is on its way to them.
use ha_wattpilot.Base.{
  ◌≡◌, refl, ap, sym, ◌∙◌, Bool-cases, Option-cases, inl, inr, ◌==◌, if◌then◌else◌, Bool, true,
  false, Option, none, some, List, [], ◌∷◌, arith, Text, text_eq, text_eq_iff, All,
}
use mathlib.Core.Path.{subst}
use ha_wattpilot.Json.{Value, Dict, end, entry, insert, get, get-insert}
use ha_wattpilot.Api.Client.{Wattpilot}
use ha_wattpilot.Api.Errors.{Error, is_final_refusal}
use ha_wattpilot.Hub.Steps.{
  HubEvent, hub_step, hub_run, connecting_began, connecting_ended, dispatch_started,
  reconnecting_began, disconnecting_began, shutting_down_began, disconnecting_ended, pushed,
  flush_due, check_due,
}
use ha_wattpilot.Hub.State.{
  report_refusal, check_availability, connect_begin, connect_end, start_dispatch, reconnect_begin,
  disconnect_end, Hub, Signal, property, availability, send_all, update_availability, flush_pending,
  clear_refusals, handle_property_change, is_available,
}

-- The latest value of a property among the signals.
unfoldable pub heard : Text → List Signal → Option Value
heard k [] = none
heard k (property j v ∷ ss) = if text_eq j k then some v else heard k ss
heard k (availability _ ∷ ss) = heard k ss

-- What an entity of the property knows, or is about to be told.
unfoldable pub current : Text → Hub → Option Value
unfolding heard
current k h = elim (get k h.pending) [ some v ↦ some v | none ↦ heard k h.signals ]

-- No key stands twice in a dict.
unfoldable pub is_distinct : Dict → Bool
is_distinct end = true
is_distinct (entry k v d) =
    let rest = is_distinct d in elim (get k d) [ none ↦ rest | some _ ↦ false ]

heard-send_all :
    (k : Text) (d : Dict) (ss : List Signal)
    → is_distinct d ≡ true
    → heard k (send_all d ss) ≡ (elim (get k d) [ some v ↦ some v | none ↦ heard k ss ])
unfolding heard send_all get is_distinct
heard-send_all k end ss h = refl
heard-send_all k (entry j v d) ss h =
    ground (arith, heard-send_all k d (property j v ∷ ss), text_eq_iff j k)

get-absent-insert :
    (j k : Text) (v : Value) (d : Dict)
    → get k d ≡ none
    → text_eq j k ≡ false
    → get k (insert j v d) ≡ none
get-absent-insert j k v d absent other = rw (get-insert j k v d) (rw (other, absent) refl)

is_distinct-insert :
    (k : Text) (v : Value) (d : Dict) → is_distinct d ≡ true → is_distinct (insert k v d) ≡ true
unfolding is_distinct insert get
is_distinct-insert k v end h = refl
is_distinct-insert k v (entry j w d) h = elim (Bool-cases (text_eq j k)) [
  | inl same ↦ rw same h
  | inr other ↦ rw other (
      ground
        (arith, is_distinct-insert k v d, get-insert k j v d, text_eq_iff k j, text_eq_iff j k))
]

-- A hub that forwards pushes, with a buffer that holds each property once, and none at all
-- where there is no interval.
pub record IsForwarding (h : Hub) : Type 0 where
  pub forwards : h.subscribed ≡ true
  pub distinct : is_distinct h.pending ≡ true
  pub direct : (h.update_interval == 0) ≡ true → h.pending ≡ end

-- The hub after a step, next to the one before it: nothing on its way is lost.
pub record IsKept (k : Text) (value : Option Value) (h' : Hub) : Type 0 where
  pub forwarding : IsForwarding h'
  pub kept : current k h' ≡ value

flush_pending-IsKept :
    (k : Text) (h : Hub) → IsForwarding h → IsKept k (current k h) (flush_pending h)
unfolding flush_pending current get is_distinct
flush_pending-IsKept k h f = record {
  forwarding = record { forwards = f.forwards; distinct = refl; direct = λ e. refl };
  kept = heard-send_all k h.pending h.signals f.distinct;
}

update_availability-IsKept :
    (k : Text) (a : Bool) (h : Hub)
    → IsForwarding h
    → IsKept k (current k h) (update_availability a h)
unfolding update_availability clear_refusals current heard
update_availability-IsKept k a h f =
    let claimed = record h { last_available = some a } in
    let f' : IsForwarding claimed = ground arith in
    let flushed = flush_pending-IsKept k claimed f' in ground arith

handle_property_change-IsKept :
    (k j : Text) (w : Wattpilot) (v : Value) (h : Hub)
    → IsForwarding h
    → IsKept k (if text_eq j k then some v else current k h) (handle_property_change w j v h)
unfolding handle_property_change current heard get
handle_property_change-IsKept k j w v h f = elim (Bool-cases (h.update_interval == 0)) [
  | inl at_once ↦
      (let h' = record h { signals = property j v ∷ h.signals } in
        let empty = f.direct at_once in
        let f' : IsForwarding h' = ground arith in
        let now : current k h' ≡ (if text_eq j k then some v else current k h) = rw empty refl in
        let updated = update_availability-IsKept k (is_available w h') h' f' in
        rw (at_once, handle_property_change)
          (record { forwarding = updated.forwarding; kept = updated.kept ∙ now }))
  | inr held ↦
      (let h' = record h { pending = insert j v h.pending } in
        let distinct = is_distinct-insert j v h.pending f.distinct in
        let f' : IsForwarding h' = ground arith in
        let now : current k h' ≡ (if text_eq j k then some v else current k h) =
          ground (arith, get-insert j k v h.pending) in
        let updated = update_availability-IsKept k (is_available w h') h' f' in
        rw (held, handle_property_change)
          (record { forwarding = updated.forwarding; kept = updated.kept ∙ now }))
]

-- The last value that was pushed of a property; the one before these steps where there was none.
unfoldable pub last_pushed : Text → List HubEvent → Option Value → Option Value
last_pushed k [] old = old
last_pushed k (pushed w j v ∷ es) old = last_pushed k es (if text_eq j k then some v else old)
last_pushed k (_ ∷ es) old = last_pushed k es old

abbrev pub tears_down : HubEvent → Bool
tears_down disconnecting_began = true
tears_down shutting_down_began = true
tears_down _ = false

report_refusal-IsKept :
    (k : Text) (known : Bool) (serial : Text) (e : Error) (h : Hub) (value : Option Value)
    → IsKept k value h
    → IsKept k value (report_refusal known serial e h)
unfolding report_refusal current
report_refusal-IsKept k known serial e h value s = ground arith

check_availability-IsKept :
    (k : Text) (known : Bool) (w : Wattpilot) (h : Hub)
    → IsForwarding h
    → IsKept k (current k h) (check_availability known w h)
unfolding check_availability
check_availability-IsKept k known w h f =
    let checked = update_availability (is_available w h) h in
    let c = update_availability-IsKept k (is_available w h) h f in
    elim (Option-cases w.fatal_error) [
      | inl clear ↦ rw (clear, check_availability) c
      | inr (e, refused) ↦
          rw (refused, check_availability)
            (elim (Bool-cases (is_final_refusal (some e))) [
              | inl final ↦
                  rw final
                    (report_refusal-IsKept k known w.owner.device.serial e checked (current k h) c)
              | inr passing ↦ rw passing c
            ])
    ]

pushed_step :
    (w : Wattpilot) (j : Text) (v : Value) (h : Hub)
    → h.subscribed ≡ true
    → hub_step (pushed w j v) h ≡ handle_property_change w j v h
unfolding hub_step
pushed_step w j v h on = ap (λ b. if b then handle_property_change w j v h else h) on

-- One step that is no teardown.
hub_step-IsKept :
    (k : Text) (e : HubEvent) (h : Hub)
    → tears_down e ≡ false
    → IsForwarding h
    → IsKept k (last_pushed k (e ∷ []) (current k h)) (hub_step e h)
unfolding hub_step last_pushed connect_begin connect_end start_dispatch reconnect_begin
    disconnect_end current
hub_step-IsKept k (connecting_ended reached) h on f =
    ground (arith, update_availability-IsKept k true h f)
hub_step-IsKept k disconnecting_ended h on f = update_availability-IsKept k false h f
hub_step-IsKept k (pushed w j v) h on f =
    subst (IsKept k (if text_eq j k then some v else current k h))
      (sym (pushed_step w j v h f.forwards)) (handle_property_change-IsKept k j w v h f)
hub_step-IsKept k flush_due h on f = ground (arith, flush_pending-IsKept k h f)
hub_step-IsKept k (check_due known w) h on f =
    ground (arith, check_availability-IsKept k known w h f)
hub_step-IsKept k connecting_began h on f = ground arith
hub_step-IsKept k dispatch_started h on f = ground arith
hub_step-IsKept k reconnecting_began h on f = ground arith
hub_step-IsKept k disconnecting_began h on f = cc
hub_step-IsKept k shutting_down_began h on f = cc

last_pushed-cons :
    (k : Text) (e : HubEvent) (es : List HubEvent) (old : Option Value)
    → last_pushed k es (last_pushed k (e ∷ []) old) ≡ last_pushed k (e ∷ es) old
unfolding last_pushed
last_pushed-cons k (pushed w j v) es old = refl
last_pushed-cons k (connecting_ended _) es old = refl
last_pushed-cons k (check_due _ _) es old = refl
last_pushed-cons k connecting_began es old = refl
last_pushed-cons k dispatch_started es old = refl
last_pushed-cons k reconnecting_began es old = refl
last_pushed-cons k disconnecting_began es old = refl
last_pushed-cons k shutting_down_began es old = refl
last_pushed-cons k disconnecting_ended es old = refl
last_pushed-cons k flush_due es old = refl

hub_run-IsKept :
    (k : Text) (es : List HubEvent) (h : Hub)
    → All (λ e. tears_down e ≡ false) es
    → IsForwarding h
    → IsKept k (last_pushed k es (current k h)) (hub_run es h)
unfolding hub_run last_pushed
hub_run-IsKept k [] h on f = record { forwarding = f; kept = refl }
hub_run-IsKept k (e ∷ es) h on f =
    let here = hub_step-IsKept k e h on.0 f in
    let rest = hub_run-IsKept k es (hub_step e h) on.1 here.forwarding in
    record {
      forwarding = rest.forwarding;
      kept = rest.kept ∙ (ap (last_pushed k es) here.kept ∙ last_pushed-cons k e es (current k h));
    }

-- However pushes, flushes, checks and reconnects follow each other on a hub that is not torn down
-- meanwhile, and whatever its interval, the next flush leaves the entity of every property with
-- the value that the charger pushed last: none is lost, and none is overtaken by an older one.
pub hub_run-flush_pending-heard :
    (k : Text) (es : List HubEvent) (h : Hub)
    → All (λ e. tears_down e ≡ false) es
    → IsForwarding h
    → heard k (flush_pending (hub_run es h)).signals ≡ last_pushed k es (current k h)
unfolding flush_pending current get
hub_run-flush_pending-heard k es h on f =
    let ran = hub_run-IsKept k es h on f in
    (flush_pending-IsKept k (hub_run es h) ran.forwarding).kept ∙ ran.kept
