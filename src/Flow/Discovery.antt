-- ===== src/Flow/Discovery.antt =====
-- `async_step_zeroconf` with `_announced_ipv4`, `_address_update` and `reload_failed_entry`.
use ha_wattpilot.Base.{
  ℕ, ◌-◌, Bool, true, false, not, ◌&&◌, Option, none, some, List, [], ◌∷◌, ◌++◌, all, length, Text,
  codes, is_ascii_digit, if◌then◌else◌, leb, ltb, ◌==◌, show_nat, read_nat,
}
use ha_wattpilot.Json.{null, text, Dict, get_else}
use ha_wattpilot.Entries.{ConfigEntry, is_value}
use ha_wattpilot.Setup.{update_entry}
use ha_wattpilot.Flow.State.{
  EntryState, loaded, setup_error, Home, Manager, FlowResult, show_form, aborted, entry_with,
  with_host,
}
use ha_wattpilot.Flow.Steps.{set_entries, schedule_reload, abort_if_awaiting_entry_at}

-- An announced address; of one of IPv6 only that it is one counts.
pub data Address : Type 0 where
  ipv4 : ℕ → ℕ → ℕ → ℕ → Address
  ipv6 : Address

-- `str(address)`
unfoldable pub dotted : ℕ → ℕ → ℕ → ℕ → Text
dotted a b c d = show_nat a ++ b'.' ∷ (show_nat b ++ b'.' ∷ (show_nat c ++ b'.' ∷ show_nat d))

-- `_announced_ipv4`
unfoldable pub announced_ipv4 : List Address → Option Text
unfolding dotted
announced_ipv4 [] = none
announced_ipv4 (ipv6 ∷ rest) = announced_ipv4 rest
announced_ipv4 (ipv4 a b c d ∷ rest) =
    let later = announced_ipv4 rest in
    if not (a == 169 && b == 254) then some (dotted a b c d) else later

-- A decimal from 0 to 255 with no leading zero, as `ipaddress` takes it.
unfoldable pub is_octet : Text → Bool
is_octet [] = false
is_octet (c ∷ s) =
    all is_ascii_digit (c ∷ s)
    && leb (length s) 2
    && not (c == b'0' && ltb 0 (length s))
    && leb (read_nat (c ∷ s)) 255

-- Whether this many parts more are left, with the digits of the first read so far, in reverse order.
unfoldable pub is_dotted : ℕ → Text → Text → Bool
unfolding is_octet
is_dotted more part [] = more == 0 && is_octet part
is_dotted more part (c ∷ s) =
    let next = is_dotted (more - 1) [] s in
    let same = is_dotted more (part ++ c ∷ []) s in
    if c == b'.' then ltb 0 more && (is_octet part && next) else same

-- `_is_ipv4`
unfoldable pub is_ipv4 : Text → Bool
unfolding is_dotted
is_ipv4 = is_dotted 3 []

abbrev pub is_loaded : EntryState → Bool
is_loaded loaded = true
is_loaded _ = false

abbrev pub has_failed : EntryState → Bool
has_failed setup_error = true
has_failed _ = false

-- `_is_ipv4(known.data.get("host", ""))`
unfoldable pub is_at_ipv4 : ConfigEntry → Bool
unfolding is_ipv4
is_at_ipv4 e = elim (get_else (codes "host") (text []) e.options) [ text t ↦ is_ipv4 t | _ ↦ false ]

-- `_address_update`
unfoldable pub address_update : Option ConfigEntry → Text → Home → Option Text
unfolding is_at_ipv4
address_update none host h = none
address_update (some e) host h =
    if not (is_at_ipv4 e)
    then none
    else if is_loaded (h.state e.entry_id) && h.available e.entry_id
    then none
    else some host

-- `reload_failed_entry`
unfoldable pub reload_failed_entry : Option ConfigEntry → Option Text → Home → Home
unfolding with_host is_value update_entry set_entries schedule_reload
reload_failed_entry (some e) (some host) h =
    if has_failed (h.state e.entry_id)
      && not (is_value host (get_else (codes "host") null e.options))
    then schedule_reload e.entry_id
        (set_entries (update_entry (with_host host e) h.installation.entries) h)
    else h
reload_failed_entry (some e) none h = h
reload_failed_entry none updates h = h

-- `discovery_info.properties.get("serial")`, unless it is missing or empty.
unfoldable pub announced_serial : Dict → Option Text
announced_serial properties = elim (get_else (codes "serial") null properties) [
  | text (c ∷ s) ↦ some (c ∷ s)
  | _ ↦ none
]

module _ (m : Manager) where
  -- `_abort_if_unique_id_configured(updates=updates)`, for an entry that it aborts for. An entry that
  -- `reload_failed_entry` has changed by then is in none of the states that are reloaded here.
  unfoldable pub take_updates : Option ConfigEntry → Option Text → Home → Home
  unfolding schedule_reload
  take_updates (some e) (some host) h =
      let h' = record h { installation = m.take e host h.installation } in
      if m.reloads_for e host (h.state e.entry_id) then schedule_reload e.entry_id h' else h'
  take_updates (some e) none h = h
  take_updates none updates h = h

  -- `async_step_zeroconf` from the unique id on.
  unfoldable pub announce : Text → Text → Home → FlowResult × Home
  unfolding entry_with address_update reload_failed_entry take_updates abort_if_awaiting_entry_at
  announce serial host h =
      let known = entry_with serial h.installation.entries in
      let updates = address_update known host h in
      let h' = reload_failed_entry known updates h in
      let (awaiting, h'') = abort_if_awaiting_entry_at host h' in
      if m.configured false serial h'.installation
      then (aborted (codes "already_configured"), take_updates known updates h')
      else if awaiting
      then (aborted (codes "already_configured"), h'')
      else (
        show_form (codes "zeroconf_confirm") none,
        record h'' {
          installation = record h''.installation { cards = serial ∷ h''.installation.cards };
        },
      )

  -- `async_step_zeroconf`, given whether another flow is in progress for the same serial.
  unfoldable pub step_zeroconf : Bool → List Address → Dict → Home → FlowResult × Home
  unfolding announced_ipv4 announced_serial announce
  step_zeroconf in_progress addresses properties h = elim (announced_ipv4 addresses) [
    | none ↦ (aborted (codes "no_ipv4_address"), h)
    | some host ↦ elim (announced_serial properties) [
      | none ↦ (aborted (codes "incomplete_discovery"), h)
      | some serial ↦
          if in_progress then (aborted (codes "already_in_progress"), h) else announce serial host h
    ]
  ]
