-- ===== src/Setup/Firmware.antt =====
-- `_reload_when_firmware_changes`: one reload for a charger whose firmware changed.
use ha_wattpilot.Base.{
  ℕ, ◌+◌, ◌≡◌, refl, ap, ◌∙◌, Bool, true, false, not, ◌&&◌, Option, none, some, List, [], ◌∷◌,
  arith, Text, text_eq, if◌then◌else◌, is_some, Bool-cases, inl, inr,
}

-- What the closure keeps: the firmware it knows, whether it waits, whether its task still polls, and
-- how many reloads it has scheduled.
pub record Watch : Type 0 where
  pub known : Option Text
  pub waiting : Bool
  pub polling : Bool
  pub reloads : ℕ

unfoldable pub new_watch : Option Text → Watch
new_watch firmware = record { known = firmware; waiting = false; polling = false; reloads = 0 }

-- `value is None or value == known`
unfoldable pub is_known : Option Text → Option Text → Bool
is_known none known = true
is_known (some v) none = false
is_known (some v) (some k) = text_eq v k

-- `_on_firmware`, with the firmware that the hub reports by then.
unfoldable pub on_firmware : Option Text → Watch → Watch
unfolding is_known
on_firmware value w =
    if is_known value w.known
    then w
    else if is_some w.known && not w.waiting
    then record w { known = value; waiting = true; polling = true }
    else record w { known = value }

-- A look of `_reload_once_settled`; it is over with the reload.
unfoldable pub look : Bool → Watch → Watch
look settled w =
    if w.polling && settled then record w { polling = false; reloads = w.reloads + 1 } else w

pub data WatchEvent : Type 0 where
  reported : Option Text → WatchEvent
  looked : Bool → WatchEvent

unfoldable pub watch_run : List WatchEvent → Watch → Watch
unfolding on_firmware look
watch_run [] w = w
watch_run (reported value ∷ es) w = watch_run es (on_firmware value w)
watch_run (looked settled ∷ es) w = watch_run es (look settled w)

-- Whether a charger that was known by this firmware reports another one.
unfoldable pub has_changed : Option Text → List WatchEvent → Bool
has_changed known [] = false
has_changed known (looked settled ∷ es) = has_changed known es
has_changed known (reported none ∷ es) = has_changed known es
has_changed none (reported (some v) ∷ es) = has_changed (some v) es
has_changed (some k) (reported (some v) ∷ es) =
    let rest = has_changed (some k) es in if text_eq v k then rest else true

-- A watch that has its one change behind it, with the reload still due or done.
record HasFired (w : Watch) : Type 0 where
  waits : w.waiting ≡ true
  once : (if w.polling then w.reloads + 1 else w.reloads) ≡ 1

on_firmware-HasFired :
    (value : Option Text) (w : Watch) → HasFired w → HasFired (on_firmware value w)
unfolding on_firmware
on_firmware-HasFired value w h =
    let quiet : (is_some w.known && not w.waiting) ≡ false = ground (arith, h.waits) in
    elim (Bool-cases (is_known value w.known)) [
      | inl same ↦ rw same h
      | inr other ↦ rw (other, quiet) (record { waits = h.waits; once = h.once })
    ]

look-HasFired : (settled : Bool) (w : Watch) → HasFired w → HasFired (look settled w)
unfolding look
look-HasFired settled w h = elim (Bool-cases (w.polling && settled)) [
  | inl due ↦ rw due (record { waits = h.waits; once = ground (arith, h.once) })
  | inr early ↦ rw early h
]

watch_run-HasFired : (es : List WatchEvent) (w : Watch) → HasFired w → HasFired (watch_run es w)
unfolding watch_run
watch_run-HasFired [] w h = h
watch_run-HasFired (reported value ∷ es) w h =
    watch_run-HasFired es (on_firmware value w) (on_firmware-HasFired value w h)
watch_run-HasFired (looked settled ∷ es) w h =
    watch_run-HasFired es (look settled w) (look-HasFired settled w h)

look-reloads : (w : Watch) → HasFired w → (look true w).reloads ≡ 1
unfolding look
look-reloads w h = ground (arith, h.once)

on_firmware-same :
    (k v : Text)
    → text_eq v k ≡ true
    → on_firmware (some v) (new_watch (some k)) ≡ new_watch (some k)
unfolding on_firmware new_watch
on_firmware-same k v same = rw same refl

on_firmware-other :
    (k v : Text)
    → text_eq v k ≡ false
    → on_firmware (some v) (new_watch (some k))
      ≡ record { known = some v; waiting = true; polling = true; reloads = 0 }
unfolding on_firmware new_watch
on_firmware-other k v other = rw other refl

has_changed-same :
    (k v : Text) (es : List WatchEvent)
    → text_eq v k ≡ true
    → has_changed (some k) es ≡ has_changed (some k) (reported (some v) ∷ es)
unfolding has_changed
has_changed-same k v es same = rw same refl

has_changed-other :
    (k v : Text) (es : List WatchEvent)
    → text_eq v k ≡ false
    → true ≡ has_changed (some k) (reported (some v) ∷ es)
unfolding has_changed
has_changed-other k v es other = rw other refl

-- Whatever the charger reports, and whenever the connection stands again, the first settled look
-- afterwards leaves exactly one reload scheduled if the firmware changed from a known one, and none
-- if it did not.
pub watch_run-reloads :
    (firmware : Option Text) (es : List WatchEvent)
    → (look true (watch_run es (new_watch firmware))).reloads
      ≡ (if has_changed firmware es then 1 else 0)
unfolding new_watch watch_run has_changed
watch_run-reloads firmware [] = refl
watch_run-reloads firmware (looked settled ∷ es) = watch_run-reloads firmware es
watch_run-reloads firmware (reported none ∷ es) = watch_run-reloads firmware es
watch_run-reloads none (reported (some v) ∷ es) = watch_run-reloads (some v) es
watch_run-reloads (some k) (reported (some v) ∷ es) = elim (Bool-cases (text_eq v k)) [
  | inl same ↦
      ap (λ w. (look true (watch_run es w)).reloads) (on_firmware-same k v same)
      ∙ watch_run-reloads (some k) es
      ∙ ap (λ b. if b then 1 else 0) (has_changed-same k v es same)
  | inr other ↦
      ap (λ w. (look true (watch_run es w)).reloads) (on_firmware-other k v other)
      ∙ look-reloads _ (watch_run-HasFired es _ (record { waits = refl; once = refl }))
      ∙ ap (λ b. if b then 1 else 0) (has_changed-other k v es other)
]
