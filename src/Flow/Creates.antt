-- ===== src/Flow/Creates.antt =====
-- That the flows which add an entry, ignore a card or take an announced address change the entries in
-- the ways of Flow/Changes.antt.
use ha_wattpilot.Base.{
  ◌≡◌, refl, Bool, true, false, none, some, List, [], ◌∷◌, arith, Text, text_eq, Bool-cases,
  Option-cases, inl, inr,
}
use ha_wattpilot.Entries.{ConfigEntry, new_device_name}
use ha_wattpilot.Setup.{Installation, entry_of}
use ha_wattpilot.Setup.Serials.{shares}
use ha_wattpilot.Flow.State.{Home, Manager, entries, entry_with}
use ha_wattpilot.Flow.Probe.{Checked, no_errors, form_error, escaped}
use ha_wattpilot.Flow.Steps.{
  new_entry, create_local_entry, user_probed, step_zeroconf_confirm, step_ignore,
}
use ha_wattpilot.Flow.Changes.{Change, unchanged, added}

-- An entry whose id and serial no entry has shares neither.
pub shares-new :
    (e : ConfigEntry) (serial : Text) (es : List ConfigEntry)
    → e.unique_id ≡ some serial
    → entry_of e.entry_id es ≡ none
    → entry_with serial es ≡ none
    → shares e es ≡ false
unfolding shares entry_of entry_with
shares-new e serial [] u i s = refl
shares-new e serial (o ∷ es) u i s = ground (arith, u, i, s, shares-new e serial es u)

module _ (m : Manager) where
  pub entry_with-configured :
      (by_user : Bool) (serial : Text) (h : Installation)
      → m.configured by_user serial h ≡ false
      → entry_with serial h.entries ≡ none
  entry_with-configured by_user serial h free = elim (Option-cases (entry_with serial h.entries)) [
    | inl missing ↦ missing
    | inr (e, found) ↦ cc (m.configured_lem by_user serial e h found)
  ]

module _ {V : Text → Text → Type 0} (m : Manager) where
  create_local_entry-Change :
      (id serial host password : Text) (h : Home)
      → entry_of id (entries h) ≡ none
      → entry_with serial (entries h) ≡ none
      → Change V (entries h) (entries (create_local_entry m id serial host password h).1)
  unfolding new_entry create_local_entry
  create_local_entry-Change id serial host password h new free =
      elim (Option-cases (new_device_name none none (entries h))) [
        | inl missing ↦ rw (create_local_entry, missing) unchanged
        | inr (name, named) ↦
            let e = new_entry id serial name host password in
            let alone = shares-new e serial (entries h) refl new free in
            rw (create_local_entry, named) (rw (m.add_lem e h.installation alone) (added e alone))
      ]

  pub user_probed-Change :
      (id host password : Text) (checked : Checked) (h : Home)
      → entry_of id (entries h) ≡ none
      → Change V (entries h) (entries (user_probed m id host password checked h).1)
  unfolding user_probed
  user_probed-Change id host password (form_error field key) h new = unchanged
  user_probed-Change id host password (escaped x) h new = unchanged
  user_probed-Change id host password (no_errors serial) h new =
      elim (Bool-cases (m.configured true serial h.installation)) [
        | inl taken ↦ rw taken unchanged
        | inr free ↦ rw free (
            create_local_entry-Change id serial host password h new
              (entry_with-configured m true serial h.installation free))
      ]

  pub step_zeroconf_confirm-Change :
      (announced host id password : Text) (checked : Checked) (h : Home)
      → entry_of id (entries h) ≡ none
      → Change V
          (entries h)
          (entries (step_zeroconf_confirm m announced host id password checked h).1)
  unfolding step_zeroconf_confirm
  step_zeroconf_confirm-Change announced host id password (form_error field key) h new = unchanged
  step_zeroconf_confirm-Change announced host id password (escaped x) h new = unchanged
  step_zeroconf_confirm-Change announced host id password (no_errors serial) h new =
      elim (Bool-cases (text_eq serial announced)) [
        | inr other ↦ rw other unchanged
        | inl same ↦ elim (Bool-cases (m.configured false announced h.installation)) [
          | inl taken ↦ rw (same, taken) unchanged
          | inr free ↦
              rw (same, free)
                (create_local_entry-Change id announced host password h new
                  (entry_with-configured m false announced h.installation free))
        ]
      ]

  pub step_ignore-Change :
      (serial : Text) (h : Home) → Change V (entries h) (entries (step_ignore m serial h).1)
  unfolding step_ignore
  step_ignore-Change serial h = elim (Bool-cases (m.configured false serial h.installation)) [
    | inl taken ↦ rw taken unchanged
    | inr free ↦
        let missing = entry_with-configured m false serial h.installation free in
        rw free (rw (m.ignore_lem serial h.installation missing) unchanged)
  ]
