-- ===== src/Api/Client/Sound/Actions.antt =====
-- Each handler of the client keeps its connection sound.
use ha_wattpilot.Base.{
  if◌then◌else◌, Bool, true, false, some, List, [], ◌∷◌, arith, Text, codes, text_eq, Bool-cases,
  Option-cases, inl, inr,
}
use ha_wattpilot.Json.{Value, null, bool, namespace, Dict, end, entry, get_else, truthy}
use ha_wattpilot.Json.Namespaces.{plain_json}
use ha_wattpilot.Api.Errors.{identity_error, mask_serial}
use ha_wattpilot.Api.Library.{Library}
use ha_wattpilot.Api.Models.{missing_field}
use ha_wattpilot.Api.Connection.{skip, receive_full_status, receive_delta_status}
use ha_wattpilot.Api.Connection.Invariant.{
  IsSound, reject-IsSound, skip-IsSound, receive_full_status-IsSound, receive_delta_status-IsSound,
}
use ha_wattpilot.Api.Client.State.{
  value_raised, other_raised, wattpilot_raised, Callback, Client, accepted, Outcome, ok, raised,
  Wattpilot, Action, ⊤, ◌>>=◌, pure, on_client, on_connection,
}
use ha_wattpilot.Api.Client.Properties.{
  call_all, update_property, store_property, apply_items, apply_status,
}
use ha_wattpilot.Api.Client.Commands.{write, correlation_key, pending_for}
use ha_wattpilot.Api.Client.Handshake.{
  on_hello, identity_accepted, greet, text_of, on_auth_required, requested_hash,
  update_hashed_password, auth_message, on_handshake,
}
use ha_wattpilot.Api.Client.Messages.{
  on_full_status, on_delta_status, status_object, on_response, answer,
}

owner-IsSound : (w : Wattpilot) (c : Client) → IsSound w → IsSound (record w { owner = c })
owner-IsSound w c s = ground arith

call_all-IsSound :
    (cbs : List Callback) (name : Text) (value : Value) (w : Wattpilot)
    → IsSound w
    → IsSound (call_all cbs name value w).1
unfolding call_all
call_all-IsSound [] name value w s = s
call_all-IsSound (cb ∷ cbs) name value w s =
    let c = record w.owner { calls = (cb.id, name, value) ∷ w.owner.calls } in
    let called = owner-IsSound w c s in
    ground (arith, called, call_all-IsSound cbs name value (record w { owner = c }) called)

update_property-IsSound :
    (name : Text) (value : Value) (w : Wattpilot)
    → IsSound w
    → IsSound (update_property name value w).1
unfolding update_property
update_property-IsSound name value w s =
    let c = store_property name (plain_json value) w.owner in
    call_all-IsSound c.property_callbacks name (plain_json value) (record w { owner = c })
      (owner-IsSound w c s)

apply_items-IsSound : (d : Dict) (w : Wattpilot) → IsSound w → IsSound (apply_items d w).1
unfolding apply_items
apply_items-IsSound end w s = s
apply_items-IsSound (entry k v d) w s =
    after (update_property k v w).0 (update_property k v w).1 (update_property-IsSound k v w s)
      (apply_items-IsSound d)
  where
    after :
        (r : Outcome ⊤) (w' : Wattpilot)
        → IsSound w'
        → ((u : Wattpilot) → IsSound u → IsSound (apply_items d u).1)
        → IsSound (
            let rest = apply_items d w' in
            let skipped = λ (cause : Text). apply_items d (skip cause w') in
            let o : Outcome ⊤ × Wattpilot = elim r [
              | ok _ ↦ rest
              | raised (value_raised cause) ↦ skipped cause
              | raised x ↦ (raised x, w')
            ] in
            o.1)
    after (ok _) w' s' ih = ih w' s'
    after (raised (value_raised cause)) w' s' ih = ih (skip cause w') (skip-IsSound cause w' s')
    after (raised (other_raised _)) w' s' ih = s'
    after (raised (wattpilot_raised _)) w' s' ih = s'

apply_status-IsSound : (v : Value) (w : Wattpilot) → IsSound w → IsSound (apply_status v w).1
unfolding apply_status
apply_status-IsSound (namespace d) w s = apply_items-IsSound d w s
apply_status-IsSound _ w s = s

write-IsSound : (message : Dict) (w : Wattpilot) → IsSound w → IsSound (write message w).1
unfolding write
write-IsSound message w s = ground arith

-- An action that keeps the connection sound, and the rule for a chain of them.
abbrev pub Preserves : {A : Type 0} → Action A → Type 0
Preserves m = (w : Wattpilot) → IsSound w → IsSound (m w).1

bind-Preserves :
    {A B : Type 0} (m : Action A) (f : A → Action B)
    → Preserves m
    → ((a : A) → Preserves (f a))
    → Preserves (m >>= f)
bind-Preserves {A} {B} m f hm hf w s = go (m w).0 (m w).1 (hm w s)
  where
    go :
        (r : Outcome A) (w' : Wattpilot)
        → IsSound w'
        → IsSound (
            let o : Outcome B × Wattpilot = elim r [ ok a ↦ f a w' | raised x ↦ (raised x, w') ] in
            o.1)
    go (ok a) w' s' = hf a w' s'
    go (raised x) w' s' = s'

identity_accepted-Preserves : (serial : Text) → Preserves (identity_accepted serial)
unfolding identity_accepted
identity_accepted-Preserves serial w s = ground (
  arith,
  reject-IsSound
      (identity_error (mask_serial (some w.owner.device.serial)) (mask_serial (some serial)) serial)
      w s,
)

greet-Preserves :
    (serial : Text) (msg : Dict) (accepted : Bool)
    → Preserves (
        if accepted
        then on_client (λ c. record c { device = greet serial msg c.device })
        else pure tt)
greet-Preserves serial msg true w s =
    owner-IsSound w (record w.owner { device = greet serial msg w.owner.device }) s
greet-Preserves serial msg false w s = s

on_hello-Preserves : (msg : Dict) → Preserves (on_hello msg)
unfolding on_hello
on_hello-Preserves msg =
    let serial = text_of (get_else (codes "serial") null msg) in
    bind-Preserves (identity_accepted serial)
      (λ accepted.
        if accepted
        then on_client (λ c. record c { device = greet serial msg c.device })
        else pure tt)
      (identity_accepted-Preserves serial) (greet-Preserves serial msg)

update_hashed_password-Preserves : (py : Library) → Preserves (update_hashed_password py)
unfolding update_hashed_password
update_hashed_password-Preserves py w s = ground arith

on_auth_required-Preserves :
    (py : Library) (token3 : Text) (msg : Dict) → Preserves (on_auth_required py token3 msg)
unfolding on_auth_required
on_auth_required-Preserves py token3 msg w s = elim (Option-cases (requested_hash msg w.owner)) [
  | inl unknown ↦ rw (unknown, on_auth_required) (reject-IsSound _ w s)
  | inr (h, known) ↦
      rw (known, on_auth_required)
        (bind-Preserves (update_hashed_password py)
          (λ _ w'.
            write
              (auth_message py (text_of (get_else (codes "token1") null msg))
                (text_of (get_else (codes "token2") null msg)) token3 w'.owner.hashed_password)
              w')
          (update_hashed_password-Preserves py) (λ _ w' s'. write-IsSound _ w' s')
          (record w { owner = record w.owner { auth_hash_type = h } }) (owner-IsSound w _ s))
]

pub on_handshake-Preserves :
    (py : Library) (token3 t : Text) (msg : Dict) → Preserves (on_handshake py token3 t msg)
unfolding on_handshake
on_handshake-Preserves py token3 t msg w s =
    elim (Option-cases (missing_field t msg w.owner.device.serial)) [
      | inr (field, lacking) ↦ rw (lacking, on_handshake) (reject-IsSound _ w s)
      | inl complete ↦ elim (Bool-cases (text_eq t (codes "hello"))) [
        | inl hello ↦ rw (complete, on_handshake) (rw hello (on_hello-Preserves msg w s))
        | inr other ↦
            rw (complete, on_handshake) (rw other (on_auth_required-Preserves py token3 msg w s))
      ]
    ]

pub on_full_status-Preserves : (msg : Dict) → Preserves (on_full_status msg)
unfolding on_full_status
on_full_status-Preserves msg =
    let partial = truthy (get_else (codes "partial") (bool false) msg) in
    bind-Preserves (λ w. (status_object msg, w))
      (λ status. apply_status status >>= λ _. on_connection (receive_full_status partial))
      (λ w s. s)
      (λ status.
        bind-Preserves (apply_status status) (λ _. on_connection (receive_full_status partial))
          (apply_status-IsSound status) (λ _ w s. receive_full_status-IsSound partial w s))

pub on_delta_status-Preserves : (msg : Dict) → Preserves (on_delta_status msg)
unfolding on_delta_status
on_delta_status-Preserves msg =
    bind-Preserves (λ w. (status_object msg, w))
      (λ status. on_connection receive_delta_status >>= λ _. apply_status status) (λ w s. s)
      (λ status.
        bind-Preserves (on_connection receive_delta_status) (λ _. apply_status status)
          receive_delta_status-IsSound (λ _. apply_status-IsSound status))

pub on_response-Preserves : (py : Library) (msg : Dict) → Preserves (on_response py msg)
unfolding on_response
on_response-Preserves py msg w s =
    let found =
      pending_for (correlation_key py.str_of (get_else (codes "requestId") null msg))
        w.owner.pending_commands in
    elim (Bool-cases (truthy (get_else (codes "success") null msg))) [
      | inl success ↦ rw success (
          bind-Preserves (apply_status (get_else (codes "status") null msg))
            (λ _. on_client (answer found accepted)) (apply_status-IsSound _)
            (λ _ w' s'. owner-IsSound w' (answer found accepted w'.owner) s') w s)
      | inr refusal ↦ rw refusal (owner-IsSound w _ s)
    ]
