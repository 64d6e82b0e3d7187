-- ===== src/Update.antt =====
-- custom_components/wattpilot/update.py: the firmware versions on offer, and what may be installed.
-- `packaging.version.Version` is a parameter: how a text is read, and which version is older.
pub mod Newest
pub mod Install
use ha_wattpilot.Base.{
  ◌≡◌, Bool, true, false, not, ◌&&◌, Option, none, some, List, [], ◌∷◌, Text, text_eq, is_blank,
  if◌then◌else◌,
}
use ha_wattpilot.Json.{Value, null, text, list, items_to_list}
use ha_wattpilot.Api.Models.{is_text}

-- `Version`, and `none` for an InvalidVersion.
pub record Versions (V : Type 0) : Type 0 where
  pub parse : Text → Option V
  pub is_older : V → V → Bool

-- `[entry for entry in entries if _is_version(entry)]`
unfoldable pub offered_of : List Value → List Text
unfolding is_text
offered_of [] = []
offered_of (text s ∷ vs) = let rest = offered_of vs in if is_text (text s) then s ∷ rest else rest
offered_of (_ ∷ vs) = offered_of vs

-- `value if isinstance(value, list) else [value]`
unfoldable pub raw_versions : Value → List Text
unfolding offered_of
raw_versions (list vs) = offered_of (items_to_list vs)
raw_versions v = offered_of (v ∷ [])

-- The entity: what is installed, what is offered, and the latest of that.
pub record Update : Type 0 where
  pub installed : Option Text
  pub offered : List Text
  pub latest : Option Text

-- The entity before it is added.
unfoldable pub new_update : Update
new_update = record { installed = none; offered = []; latest = none }

pub data UpdateEvent : Type 0 where
  added : Option Text → Option Value → UpdateEvent
  versions_pushed : Option Text → Value → UpdateEvent
  installed_pushed : Option Text → UpdateEvent

unfoldable pub is_offered : Option Text → List Text → Bool
is_offered none ss = false
is_offered (some s) [] = false
is_offered (some s) (t ∷ ts) =
    let rest = is_offered (some s) ts in if text_eq t s then true else rest

-- `async_install`: the version handed to the hub, `none` being the error for one not offered.
unfoldable pub install : Option Text → Update → Option Text
unfolding is_offered
install version u =
    let chosen : Option Text = elim version [ none ↦ u.latest | some s ↦ some s ] in
    if is_offered chosen u.offered then chosen else none

module _ {V : Type 0} (py : Versions V) where
  -- The list `ranked`.
  unfoldable pub ranked : List Text → List (Text × V)
  ranked [] = []
  ranked (s ∷ ss) =
      let rest = ranked ss in elim (py.parse s) [ some v ↦ (s, v) ∷ rest | none ↦ rest ]

  -- `max` by version keeps the first of those that are equal.
  unfoldable pub newest_of : Text × V → List (Text × V) → Text × V
  newest_of best [] = best
  newest_of best (r ∷ rs) = newest_of (if py.is_older best.1 r.1 then r else best) rs

  -- `_newest_version`
  unfoldable pub newest_version : List Text → Option Text
  unfolding ranked newest_of
  newest_version ss = elim (ranked ss) [
    | r ∷ rs ↦ some (newest_of r rs).0
    | [] ↦ elim ss [ [] ↦ none | s ∷ _ ↦ some s ]
  ]

  -- `_apply_value`, with the firmware that the hub reports.
  unfoldable pub apply_value : Option Text → Value → Update
  unfolding raw_versions newest_version
  apply_value firmware v =
      let raw = raw_versions v in
      record {
        installed = firmware;
        offered = raw;
        latest = elim (newest_version raw) [ some s ↦ some s | none ↦ firmware ];
      }

  -- What happens to the entity, with the firmware that the hub reports then: it is added, given the
  -- versions on offer if the charger has sent them; a push of them; or one of the installed version.
  unfoldable pub update_step : UpdateEvent → Update → Update
  unfolding apply_value
  update_step (added firmware (some v)) u = apply_value firmware v
  update_step (added firmware none) u = u
  update_step (versions_pushed firmware v) u = apply_value firmware v
  update_step (installed_pushed firmware) u = record u { installed = firmware }

  unfoldable pub update_run : List UpdateEvent → Update → Update
  unfolding update_step
  update_run [] u = u
  update_run (e ∷ es) u = update_run es (update_step e u)
