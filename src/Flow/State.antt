-- ===== src/Flow/State.antt =====
-- What the flows of custom_components/wattpilot/config_flow.py see of Home Assistant, what they ask it
-- to do, and what they answer.
use ha_wattpilot.Base.{
  ◌≡◌, Bool, true, false, not, ◌&&◌, Option, none, some, List, [], ◌∷◌, ◌++◌, Text, codes,
  if◌then◌else◌,
}
use ha_wattpilot.Json.{null, text, insert, get_else}
use ha_wattpilot.Api.Client.{Raised}
use ha_wattpilot.Entries.{ConfigEntry, has_unique_id, is_value}
use ha_wattpilot.Setup.{Installation, update_entry}
use ha_wattpilot.Setup.Serials.{shares}

-- `ConfigEntryState`, as far as the flows tell its members apart.
pub data EntryState : Type 0 where
  loaded setup_retry setup_error other_state : EntryState

-- The entries with their states, by entry id, whether the hub of a loaded one is available, and the
-- entries whose reload the flows have scheduled.
pub record Home : Type 0 where
  pub installation : Installation
  pub state : Text → EntryState
  pub available : Text → Bool
  pub reloads : List Text

abbrev pub entries : Home → List ConfigEntry
entries h = h.installation.entries

-- The answer of a step: a form with its error, by field and key; a form for a discovered charger; the
-- end of the flow, with an entry that is new, changed or an ignored card, or without one; or an
-- exception that none expects.
pub data FlowResult : Type 0 where
  show_form : Text → Option (Text × Text) → FlowResult
  aborted : Text → FlowResult
  created : ConfigEntry → FlowResult
  updated : ConfigEntry → FlowResult
  crashed : Raised → FlowResult
  ignored_entry : Text → FlowResult
  endless : FlowResult

-- The entry with this serial. An ignored card with it has no address, and takes none.
unfoldable pub entry_with : Text → List ConfigEntry → Option ConfigEntry
unfolding has_unique_id
entry_with serial [] = none
entry_with serial (e ∷ es) =
    let rest = entry_with serial es in if has_unique_id serial e then some e else rest

-- `{**entry.data, "host": host}`
unfoldable pub with_host : Text → ConfigEntry → ConfigEntry
with_host host e = record e { options = insert (codes "host") (text host) e.options }

-- The states in which Home Assistant sets an entry up again after an update from a discovery.
abbrev pub is_set_up_again : EntryState → Bool
is_set_up_again loaded = true
is_set_up_again setup_retry = true
is_set_up_again _ = false

-- Whether the address is not the one that the entry has.
abbrev pub is_new_host : Text → ConfigEntry → Bool
is_new_host host e = not (is_value host (get_else (codes "host") null e.options))

-- What Home Assistant's config entries do for a flow, as it documents it.
pub record Manager : Type 0 where
  -- `_abort_if_unique_id_configured`, in a flow that the user began or in another one
  pub configured : Bool → Text → Installation → Bool
  -- what it does with the updates of an entry that it aborts for
  pub take : ConfigEntry → Text → Installation → Installation
  -- whether it then schedules a reload of the entry, given its state
  pub reloads_for : ConfigEntry → Text → EntryState → Bool
  -- an entry, once its flow has created it
  pub add : ConfigEntry → Installation → Installation
  -- the `async_step_ignore` that every flow has
  pub ignore : Text → Installation → Installation
  -- An entry with this serial ends any flow.
  pub configured_lem :
      (by_user : Bool) (serial : Text) (e : ConfigEntry) (h : Installation)
      → entry_with serial h.entries ≡ some e
      → configured by_user serial h ≡ true
  -- The entry takes the address.
  pub take_lem :
      (e : ConfigEntry) (host : Text) (h : Installation)
      → (take e host h).entries ≡ update_entry (with_host host e) h.entries
  -- Only a loaded or retrying entry is reloaded, and only for a change.
  pub reloads_for_lem :
      (e : ConfigEntry) (host : Text) (s : EntryState)
      → reloads_for e host s ≡ (is_set_up_again s && is_new_host host e)
  -- An entry with an id and a serial of its own comes after the others.
  pub add_lem :
      (e : ConfigEntry) (h : Installation)
      → shares e h.entries ≡ false
      → (add e h).entries ≡ h.entries ++ e ∷ []
  -- An ignored card replaces an entry with its serial, and no other.
  pub ignore_lem :
      (serial : Text) (h : Installation)
      → entry_with serial h.entries ≡ none
      → (ignore serial h).entries ≡ h.entries
