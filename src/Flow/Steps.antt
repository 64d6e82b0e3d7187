-- ===== src/Flow/Steps.antt =====
-- The steps of `WattpilotConfigFlow`, each from what its probe has found, and `WattpilotOptionsFlow`.
use ha_wattpilot.Base.{
  Bool, true, false, not, none, some, List, ◌∷◌, Text, codes, text_eq, if◌then◌else◌, pos,
}
use ha_wattpilot.Json.{Value, bool, int, text, Dict, end, entry, get, get_else, insert}
use ha_wattpilot.Entries.{ConfigEntry, awaits_serial, entry_awaiting_serial_at, new_device_name}
use ha_wattpilot.Setup.{update_entry, entry_of}
use ha_wattpilot.Flow.State.{
  EntryState, setup_retry, Home, Manager, FlowResult, show_form, aborted, created, ignored_entry,
  updated, crashed, endless,
}
use ha_wattpilot.Flow.Probe.{Checked, no_errors, form_error, escaped, validate_for}

abbrev pub in_retry : EntryState → Bool
in_retry setup_retry = true
in_retry _ = false

unfoldable pub set_entries : List ConfigEntry → Home → Home
set_entries es h = record h { installation = record h.installation { entries = es } }

unfoldable pub schedule_reload : Text → Home → Home
schedule_reload id h = record h { reloads = id ∷ h.reloads }

-- `_abort_if_awaiting_entry_at`: the abort, if any, with the reload that it schedules.
unfoldable pub abort_if_awaiting_entry_at : Text → Home → Bool × Home
unfolding entry_awaiting_serial_at schedule_reload
abort_if_awaiting_entry_at host h = elim (entry_awaiting_serial_at host h.installation.entries) [
  | none ↦ (false, h)
  | some e ↦ (true, (if in_retry (h.state e.entry_id) then schedule_reload e.entry_id h else h))
]

-- `data` of `_create_local_entry`
unfoldable pub new_entry_data : Text → Text → Text → Dict
new_entry_data name host password = entry (codes "name") (text name) (
    entry (codes "connection_type") (text (codes "local"))
      (entry (codes "host") (text host) (entry (codes "password") (text password) end)))

unfoldable pub new_entry : Text → Text → Text → Text → Text → ConfigEntry
unfolding new_entry_data
new_entry id serial name host password = record {
  entry_id = id;
  unique_id = some serial;
  title = name;
  options = new_entry_data name host password;
}

-- `_local_entry_data`
unfoldable pub local_entry_data : ConfigEntry → Text → Text → Dict
unfolding awaits_serial
local_entry_data e host password =
    let local =
      entry (codes "connection_type") (text (codes "local"))
        (entry (codes "host") (text host) (entry (codes "password") (text password) end)) in
    let kept =
      if awaits_serial e then insert (codes "awaiting_serial") (bool true) local else local in
    elim (get (codes "name") e.options) [
      | some name ↦ insert (codes "name") name kept
      | none ↦ kept
    ]

-- `{**entry.data, "password": password}`
unfoldable pub with_password : Text → ConfigEntry → ConfigEntry
with_password password e = record e {
  options = insert (codes "password") (text password) e.options;
}

unfoldable pub reconfigured : Text → Text → ConfigEntry → ConfigEntry
unfolding local_entry_data
reconfigured host password e = record e { options = local_entry_data e host password }

-- `async_update_reload_and_abort`
unfoldable pub update_and_reload : ConfigEntry → Home → FlowResult × Home
unfolding update_entry set_entries schedule_reload
update_and_reload e h =
    (updated e, schedule_reload e.entry_id (set_entries (update_entry e h.installation.entries) h))

-- The end of `async_step_reauth_confirm` and of `async_step_reconfigure`, from what the probe for
-- their entry ended with: they rewrite the entry, or show their form again.
unfoldable pub finish : Text → ConfigEntry → Checked → Home → FlowResult × Home
unfolding update_and_reload
finish step e' (no_errors serial) h = update_and_reload e' h
finish step e' (form_error field key) h = (show_form step (some (field, key)), h)
finish step e' (escaped x) h = (crashed x, h)

-- An entry that is gone is not brought back.
unfoldable pub finish_for :
    Text → (ConfigEntry → ConfigEntry) → Text → Checked → Home → FlowResult × Home
unfolding finish validate_for entry_of
finish_for step change id checked h = elim (entry_of id h.installation.entries) [
  | none ↦ (aborted (codes "unknown_entry"), h)
  | some e ↦ finish step (change e) (validate_for e checked h.installation.entries) h
]

unfoldable pub reauth_confirm : Text → Text → Checked → Home → FlowResult × Home
unfolding finish_for with_password
reauth_confirm id password = finish_for (codes "reauth_confirm") (with_password password) id

unfoldable pub reconfigure : Text → Text → Text → Checked → Home → FlowResult × Home
unfolding finish_for reconfigured
reconfigure id host password = finish_for (codes "reconfigure") (reconfigured host password) id

module _ (m : Manager) where
  -- `_create_local_entry`, with the id that the entry gets.
  unfoldable pub create_local_entry : Text → Text → Text → Text → Home → FlowResult × Home
  unfolding new_device_name new_entry
  create_local_entry id serial host password h =
      elim (new_device_name none none h.installation.entries) [
        | none ↦ (endless, h)
        | some name ↦
            let e = new_entry id serial name host password in
            (created e, record h { installation = m.add e h.installation })
      ]

  -- What `async_step_user` does once its probe is over.
  unfoldable pub user_probed : Text → Text → Text → Checked → Home → FlowResult × Home
  unfolding create_local_entry
  user_probed id host password (no_errors serial) h =
      if m.configured true serial h.installation
      then (aborted (codes "already_configured"), h)
      else create_local_entry id serial host password h
  user_probed id host password (form_error field key) h =
      (show_form (codes "user") (some (field, key)), h)
  user_probed id host password (escaped x) h = (crashed x, h)

  -- `async_step_user` with its input, given what its probe ends with and what becomes of the home
  -- while it lasts.
  unfoldable pub step_user : Text → Text → Text → Checked → (Home → Home) → Home → FlowResult × Home
  unfolding abort_if_awaiting_entry_at user_probed
  step_user id host password checked meanwhile h =
      let (awaiting, h') = abort_if_awaiting_entry_at host h in
      if awaiting
      then (aborted (codes "already_configured"), h')
      else user_probed id host password checked (meanwhile h')

  -- `async_step_zeroconf_confirm`, once its probe is over, of a card for this serial and address.
  unfoldable pub step_zeroconf_confirm :
      Text → Text → Text → Text → Checked → Home → FlowResult × Home
  unfolding create_local_entry
  step_zeroconf_confirm announced host id password (no_errors serial) h =
      if not (text_eq serial announced)
      then (aborted (codes "announcement_mismatch"), h)
      else if m.configured false announced h.installation
      then (aborted (codes "already_configured"), h)
      else create_local_entry id announced host password h
  step_zeroconf_confirm announced host id password (form_error field key) h =
      (show_form (codes "zeroconf_confirm") (some (field, key)), h)
  step_zeroconf_confirm announced host id password (escaped x) h = (crashed x, h)

  -- `async_step_ignore`
  unfoldable pub step_ignore : Text → Home → FlowResult × Home
  step_ignore serial h =
      if m.configured false serial h.installation
      then (aborted (codes "already_configured"), h)
      else (ignored_entry serial, record h { installation = m.ignore serial h.installation })

-- What the form of `async_step_init` suggests, from `entry.options`.
unfoldable pub current_interval : Dict → Value
current_interval = get_else (codes "update_interval") (int (pos 5))
