-- ===== src/Api/Client/Cache.antt =====
-- What a push leaves in the property cache, whatever the callbacks on it raise.
use ha_wattpilot.Base.{
  ◌≡◌, refl, ap, ◌∙◌, Bool, true, false, Option, none, some, List, [], ◌∷◌, arith, Text, All,
}
use ha_wattpilot.Json.{Value, namespace, Dict, end, entry, insert}
use ha_wattpilot.Json.Namespaces.{plain_json}
use ha_wattpilot.Api.Connection.{skip}
use ha_wattpilot.Api.Client.State.{
  Raised, value_raised, other_raised, wattpilot_raised, Callback, Client, Outcome, ok, raised,
  Wattpilot, ⊤,
}
use ha_wattpilot.Api.Client.Properties.{
  store_property, call_all, update_property, apply_items, apply_status,
}

-- The cache that a push leaves, told apart from how the code goes about it.
unfoldable pub stored_all : Dict → Dict → Dict
stored_all end props = props
stored_all (entry k v d) props = stored_all d (insert k (plain_json v) props)

abbrev is_caught : Option Raised → Bool
is_caught none = true
is_caught (some (value_raised _)) = true
is_caught (some _) = false

-- Nothing that the callbacks raise is of a kind that `_apply_status` does not expect.
abbrev pub AreCaught : List Callback → Type 0
AreCaught = All (λ cb. (name : Text) (v : Value) → is_caught (cb.raises name v) ≡ true)

abbrev expected : Outcome ⊤ → Bool
expected (ok _) = true
expected (raised (value_raised _)) = true
expected (raised _) = false

-- What a push of one property has done when it ends, or is ended by a callback.
record IsStored (props : Dict) (c : Client) (o : Outcome ⊤ × Wattpilot) : Type 0 where
  outcome : expected o.0 ≡ true
  cached : o.1.owner.all_props ≡ props
  callbacks : o.1.owner.property_callbacks ≡ c.property_callbacks
  futures : o.1.owner.futures ≡ c.futures

call_all-IsStored :
    (cbs : List Callback) (name : Text) (v : Value) (w : Wattpilot)
    → AreCaught cbs
    → IsStored w.owner.all_props w.owner (call_all cbs name v w)
unfolding call_all
call_all-IsStored [] name v w caught = ground arith
call_all-IsStored (cb ∷ cbs) name v w caught =
    let w' = record w { owner = record w.owner { calls = (cb.id, name, v) ∷ w.owner.calls } } in
    let here = caught.0 name v in
    let there = call_all-IsStored cbs name v w' caught.1 in ground arith

update_property-IsStored :
    (name : Text) (v : Value) (w : Wattpilot)
    → AreCaught w.owner.property_callbacks
    → IsStored (insert name (plain_json v) w.owner.all_props) w.owner (update_property name v w)
unfolding update_property store_property
update_property-IsStored name v w caught =
    let c = store_property name (plain_json v) w.owner in
    let kept : c.property_callbacks ≡ w.owner.property_callbacks = ground arith in
    let untouched : c.futures ≡ w.owner.futures = ground arith in
    let cached : c.all_props ≡ insert name (plain_json v) w.owner.all_props = ground arith in
    let called =
      call_all-IsStored c.property_callbacks name (plain_json v) (record w { owner = c })
        (rw kept caught) in
    ground arith

skip_owner : (cause : Text) (w : Wattpilot) → (skip cause w).owner ≡ w.owner
unfolding skip
skip_owner cause w = ground arith

-- Where a push of several properties ends.
pub record IsApplied (d : Dict) (c : Client) (o : Outcome ⊤ × Wattpilot) : Type 0 where
  pub outcome : o.0 ≡ ok tt
  pub cached : o.1.owner.all_props ≡ stored_all d c.all_props
  pub futures : o.1.owner.futures ≡ c.futures

apply_items-IsApplied :
    (d : Dict) (w : Wattpilot)
    → AreCaught w.owner.property_callbacks
    → IsApplied d w.owner (apply_items d w)
unfolding apply_items stored_all
apply_items-IsApplied end w caught = ground arith
apply_items-IsApplied (entry k v d) w caught =
    after (update_property k v w).0 (update_property k v w).1
      (update_property-IsStored k v w caught) (apply_items-IsApplied d)
  where
    after :
        (r : Outcome ⊤) (w' : Wattpilot)
        → IsStored (insert k (plain_json v) w.owner.all_props) w.owner (r, w')
        → ((u : Wattpilot)
            → AreCaught u.owner.property_callbacks
            → IsApplied d u.owner (apply_items d u))
        → IsApplied (entry k v d) w.owner (
            let o : Outcome ⊤ × Wattpilot = elim r [
              | ok _ ↦ apply_items d w'
              | raised (value_raised cause) ↦ apply_items d (skip cause w')
              | raised x ↦ (raised x, w')
            ] in
            o)
    after (ok _) w' s ih =
        let rest = ih w' (rw s.callbacks caught) in
        let here = ap (stored_all d) s.cached in ground arith
    after (raised (value_raised cause)) w' s ih =
        let same = skip_owner cause w' in
        let rest = ih (skip cause w') (rw same (rw s.callbacks caught)) in
        let here = ap (λ c. stored_all d c.all_props) same ∙ ap (stored_all d) s.cached in
        let there = ap (λ c. c.futures) same in ground arith
    after (raised (other_raised _)) w' s ih = cc
    after (raised (wattpilot_raised _)) w' s ih = cc

-- A push of a namespace ends without an error, puts every one of its properties into the cache, in
-- its order and with plain values, and settles no command, whichever callbacks raise on which
-- property, as long as they raise nothing but what `_apply_status` expects.
pub apply_status_cached :
    (d : Dict) (w : Wattpilot)
    → AreCaught w.owner.property_callbacks
    → IsApplied d w.owner (apply_status (namespace d) w)
unfolding apply_status
apply_status_cached d w caught = apply_items-IsApplied d w caught

pub apply_status-futures :
    (v : Value) (w : Wattpilot)
    → AreCaught w.owner.property_callbacks
    → ((apply_status v w).0 ≡ ok tt) × ((apply_status v w).1.owner.futures ≡ w.owner.futures)
unfolding apply_status
apply_status-futures (namespace d) w caught =
    let applied = apply_items-IsApplied d w caught in (applied.outcome, applied.futures)
apply_status-futures _ w caught = (refl, refl)
