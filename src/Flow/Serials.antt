-- ===== src/Flow/Serials.antt =====
-- That no flow and no setup, in whatever order, gives two entries one charger or one entry another.
use ha_wattpilot.Base.{◌≡◌, refl, true, Bool, none, some, List, [], ◌∷◌, Text}
use ha_wattpilot.Json.{Dict}
use ha_wattpilot.Setup.{entry_of, setup_run}
use ha_wattpilot.Setup.Serials.{are_apart}
use ha_wattpilot.Flow.State.{Home, Manager, entries, EntryState}
use ha_wattpilot.Flow.Probe.{Checked, no_errors}
use ha_wattpilot.Flow.Steps.{
  abort_if_awaiting_entry_at, user_probed, step_zeroconf_confirm, step_ignore, reauth_confirm,
  reconfigure, with_password, reconfigured,
}
use ha_wattpilot.Flow.Discovery.{Address, step_zeroconf, announced_serial, announced_ipv4}
use ha_wattpilot.Flow.Changes.{Change-are_apart, Change-Knows, Knows, unchanged}
use ha_wattpilot.Flow.Hosts.{StaysOr, Changes-StaysOr}
use ha_wattpilot.Flow.Refines.{
  setup_run-Change, finish_for-Change, Moves-with_password, Moves-reconfigured,
  awaits_serial-with_password, awaits_serial-reconfigured,
}
use ha_wattpilot.Flow.Creates.{user_probed-Change, step_zeroconf_confirm-Change, step_ignore-Change}
use ha_wattpilot.Flow.Announces.{Changes, abort_if_awaiting_entry_at-entries, step_zeroconf-Changes}

-- What may happen to the entries: a setup of one, whose charger reports any serial; the look for an
-- entry at the address that the form is given; a step of a flow, whose probe ended in any way; or, without the entries, changes of their states. A new entry gets an
-- id that no entry has.
pub data Step (m : Manager) (h : Home) : Home → Type 0 where
  set_up :
      (id serial : Text)
      → Step m h (record h { installation = setup_run ((id, serial) ∷ []) h.installation })
  meanwhile :
      (state : Text → EntryState) (available : Text → Bool) (reloads : List Text)
      → Step m h (record h { state = state; available = available; reloads = reloads })
  asked : (host : Text) → Step m h (abort_if_awaiting_entry_at host h).1
  submitted :
      (id host password : Text) (checked : Checked)
      → entry_of id (entries h) ≡ none
      → Step m h (user_probed m id host password checked h).1
  announced :
      (in_progress : Bool) (addresses : List Address) (properties : Dict)
      → Step m h (step_zeroconf m in_progress addresses properties h).1
  confirmed :
      (serial host id password : Text) (checked : Checked)
      → entry_of id (entries h) ≡ none
      → Step m h (step_zeroconf_confirm m serial host id password checked h).1
  ignored : (serial : Text) → Step m h (step_ignore m serial h).1
  reauthenticated :
      (id password : Text) (checked : Checked) → Step m h (reauth_confirm id password checked h).1
  moved :
      (id host password : Text) (checked : Checked)
      → Step m h (reconfigure id host password checked h).1

pub data Reach (m : Manager) (h : Home) : Home → Type 0 where
  here : Reach m h h
  next : {i j : Home} → Reach m h i → Step m i j → Reach m h j

-- Where a step may move an entry: to where its probe has found the charger with this serial, or to
-- where that is announced to be.
unfoldable pub Vouches : {m : Manager} {h h' : Home} → Step m h h' → Text → Text → Type 0
unfolding announced_serial announced_ipv4
Vouches (moved id host password checked) serial at = (checked ≡ no_errors serial) × (at ≡ host)
Vouches (announced in_progress addresses properties) serial at =
    (announced_serial properties ≡ some serial) × (announced_ipv4 addresses ≡ some at)
Vouches _ serial at = ⊥

-- Each step is two changes at most of those that Flow/Changes.antt lists.
Step-Changes :
    (m : Manager) {h h' : Home} (s : Step m h h')
    → are_apart (entries h) ≡ true
    → Changes (Vouches s) (entries h) (entries h')
unfolding reauth_confirm reconfigure with_password reconfigured Vouches
Step-Changes m {h} (set_up id serial) apart =
    (entries h, unchanged, setup_run-Change id serial h.installation)
Step-Changes m {h} (meanwhile state available reloads) apart = (entries h, unchanged, unchanged)
Step-Changes m {h} (asked host) apart =
    (entries h, unchanged, rw (abort_if_awaiting_entry_at-entries host h) unchanged)
Step-Changes m {h} (submitted id host password checked new) apart =
    (entries h, unchanged, user_probed-Change m id host password checked h new)
Step-Changes m {h} (announced in_progress addresses properties) apart =
    step_zeroconf-Changes m in_progress addresses properties h apart
Step-Changes m {h} (confirmed serial host id password checked new) apart =
    (entries h, unchanged, step_zeroconf_confirm-Change m serial host id password checked h new)
Step-Changes m {h} (ignored serial) apart = (entries h, unchanged, step_ignore-Change m serial h)
Step-Changes m {h} (reauthenticated id password checked) apart = (
  entries h,
  unchanged,
  finish_for-Change _ (with_password password) id h checked (λ e. refl) (λ e. refl)
      (awaits_serial-with_password password)
      (λ e serial ended accepted. Moves-with_password password e),
)
Step-Changes m {h} (moved id host password checked) apart = (
  entries h,
  unchanged,
  finish_for-Change _ (reconfigured host password) id h checked (λ e. refl) (λ e. refl)
      (awaits_serial-reconfigured host password)
      (λ e serial ended accepted.
        Moves-reconfigured host password checked e serial (entries h) ended accepted),
)

-- Through any flows and setups, in any order and whatever their probes and their chargers report,
-- entries with ids and serials of their own go on to have them, new, moved and adopted ones included,
-- given that Home Assistant ends a flow for a serial that has an entry, adds an entry after the others,
-- and lets an ignored card replace no entry but one with its serial.
pub Reach-are_apart :
    (m : Manager) {h h' : Home}
    → Reach m h h'
    → are_apart (entries h) ≡ true
    → are_apart (entries h') ≡ true
Reach-are_apart m here apart = apart
Reach-are_apart m (next r s) apart =
    let before = Reach-are_apart m r apart in
    let (between, first, second) = Step-Changes m s before in
    Change-are_apart second (Change-are_apart first before)

-- An entry that knows its serial is still there and knows the same one after any flows and setups,
-- those of other entries included, whatever their probes, their chargers and announcements report: no
-- step gives its id to another charger or makes it await a serial again, given entries with ids and
-- serials of their own, and that Home Assistant ends a flow for a serial that has an entry, adds an
-- entry after the others, and lets an ignored card replace no entry but one with its serial.
pub Reach-Knows :
    (m : Manager) (id serial : Text) {h h' : Home}
    → Reach m h h'
    → are_apart (entries h) ≡ true
    → Knows id serial (entries h)
    → Knows id serial (entries h')
Reach-Knows m id serial here apart k = k
Reach-Knows m id serial (next r s) apart k =
    let before = Reach-are_apart m r apart in
    let (between, first, second) = Step-Changes m s before in
    Change-Knows id serial second (Change-Knows id serial first (Reach-Knows m id serial r apart k))

-- In a step an entry that knows its serial is moved to no address but one where the probe of a form for
-- a new address has found the charger with that serial, or one that is announced with that serial;
-- otherwise its address stays, whatever else the step does; given entries with ids and serials of their
-- own, and that Home Assistant ends a flow for a serial that has an entry, adds an entry after the
-- others, and lets an ignored card replace no entry but one with its serial.
pub Step-StaysOr :
    (m : Manager) (id serial : Text) {h h' : Home} (s : Step m h h')
    → are_apart (entries h) ≡ true
    → Knows id serial (entries h)
    → StaysOr (Vouches s) id serial (entries h) (entries h')
unfolding Vouches
Step-StaysOr m id serial s apart k =
    let (between, first, second) = Step-Changes m s apart in
    Changes-StaysOr id serial first second k
