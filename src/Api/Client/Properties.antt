-- ===== src/Api/Client/Properties.antt =====
-- The property cache and the callbacks on it.
use ha_wattpilot.Base.{
  ℕ, ◌&&◌, none, some, List, [], ◌∷◌, ◌++◌, Text, codes, text_eq, ◌==◌, if◌then◌else◌,
}
use ha_wattpilot.Json.{
  Value, null, text, list, namespace, Dict, end, entry, Items, nil, cons, insert, get_else,
}
use ha_wattpilot.Json.Namespaces.{plain_json}
use ha_wattpilot.Api.Models.{is_text}
use ha_wattpilot.Api.Connection.{skip}
use ha_wattpilot.Api.Client.State.{value_raised, Callback, Client, ok, raised, Action, ⊤}

-- The cache and the named caches of `_update_property`.
unfoldable pub store_property : Text → Value → Client → Client
unfolding is_text
store_property name value c =
    let stored = record c { all_props = insert name value c.all_props } in
    if text_eq name (codes "cak")
    then record stored { cak = value }
    else if text_eq name (codes "fwv") && is_text value
    then record stored { firmware = value }
    else stored

-- `for cb in self._property_callbacks: cb(name, value)`
unfoldable pub call_all : List Callback → Text → Value → Action ⊤
call_all [] name value w = (ok tt, w)
call_all (cb ∷ cbs) name value w =
    let w' = record w { owner = record w.owner { calls = (cb.id, name, value) ∷ w.owner.calls } } in
    let rest = call_all cbs name value w' in
    elim (cb.raises name value) [ none ↦ rest | some x ↦ (raised x, w') ]

unfoldable pub update_property : Text → Value → Action ⊤
unfolding store_property call_all
update_property name value w =
    let plain = plain_json value in
    let w' = record w { owner = store_property name plain w.owner } in
    call_all w'.owner.property_callbacks name plain w'

-- The loop of `_apply_status`: an exception of the kinds it expects is skipped, any other ends it.
unfoldable pub apply_items : Dict → Action ⊤
unfolding update_property
apply_items end w = (ok tt, w)
apply_items (entry key value d) w =
    let (r, w') = update_property key value w in
    let rest = apply_items d w' in
    let skipped = λ (cause : Text). apply_items d (skip cause w') in
    elim r [ ok _ ↦ rest | raised (value_raised cause) ↦ skipped cause | raised x ↦ (raised x, w') ]

-- `_apply_status`: only a namespace has a `__dict__`.
unfoldable pub apply_status : Value → Action ⊤
unfolding apply_items
apply_status (namespace d) w = apply_items d w
apply_status _ w = (ok tt, w)

unfoldable pub on_property_change : Callback → Client → Client
on_property_change cb c = record c { property_callbacks = c.property_callbacks ++ cb ∷ [] }

-- `list.remove`, which takes out the first that is equal.
unfoldable pub remove_callback : ℕ → List Callback → List Callback
remove_callback n [] = []
remove_callback n (cb ∷ cbs) = if cb.id == n then cbs else cb ∷ remove_callback n cbs

unfoldable pub unsubscribe : ℕ → Client → Client
unfolding remove_callback
unsubscribe n c = record c { property_callbacks = remove_callback n c.property_callbacks }

-- `available_firmware_versions`. The spelling of an entry that is no text is the library's.
module _ (str_of : Value → Text) where
  unfoldable pub spell_all : Items → List Text
  spell_all nil = []
  spell_all (cons (text s) vs) = s ∷ spell_all vs
  spell_all (cons v vs) = str_of v ∷ spell_all vs

  unfoldable pub available_firmware_versions : Client → List Text
  unfolding spell_all
  available_firmware_versions c = elim (get_else (codes "onv") null c.all_props) [
    | list vs ↦ spell_all vs
    | text (x ∷ s) ↦ (x ∷ s) ∷ []
    | _ ↦ []
  ]
