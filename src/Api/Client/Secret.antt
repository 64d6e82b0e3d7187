-- ===== src/Api/Client/Secret.antt =====
-- The secret that the client signs in with is always the one of its current password, serial and hash.
use ha_wattpilot.Base.{
  ◌≡◌, ◌≢◌, refl, ap, ◌∙◌, ◌⊎◌, ℕ, List, ◌∷◌, codes, true, Option, none, some, [], arith, Text,
  text_eq, text_eq_iff, text_eq_sound, Bool-cases, Option-cases, inl, inr,
}
use ha_wattpilot.Api.Library.{Library}
use ha_wattpilot.Api.Models.{AuthHashType, pbkdf2, bcrypt}
use ha_wattpilot.Api.Auth.{hash_password}
use ha_wattpilot.Api.Client.State.{Client, value_raised, Outcome, ⊤, ok, raised, Wattpilot}
use ha_wattpilot.Api.Client.Handshake.{
  update_hashed_password, same_inputs, hash_type_eq, on_auth_required, requested_hash, auth_message,
  text_of,
}
use ha_wattpilot.Api.Client.Commands.{write}
use ha_wattpilot.Api.Connection.{live}
use ha_wattpilot.Json.{null, Dict, get_else}

module _ (py : Library) where
  -- What the secret was made from gives the secret.
  abbrev pub IsCoherent : Client → Type 0
  IsCoherent c =
      (p s : Text) (h : AuthHashType)
      → c.hashed_from ≡ some (p, s, h)
      → hash_password py p s h ≡ some c.hashed_password

  hash_type_eq_sound : (g h : AuthHashType) → hash_type_eq g h ≡ true → g ≡ h
  hash_type_eq_sound pbkdf2 pbkdf2 e = refl
  hash_type_eq_sound pbkdf2 bcrypt e = cc
  hash_type_eq_sound bcrypt pbkdf2 e = cc
  hash_type_eq_sound bcrypt bcrypt e = refl

  same_inputs_sound :
      (from : Option (Text × Text × AuthHashType)) (p s : Text) (h : AuthHashType)
      → same_inputs from p s h ≡ true
      → from ≡ some (p, s, h)
  same_inputs_sound none p s h e = cc
  same_inputs_sound (some (p', s', h')) p s h e =
      ground (arith, text_eq_sound p' p, text_eq_sound s' s, hash_type_eq_sound h' h)

  abbrev from : Text → Text → AuthHashType → Option (Text × Text × AuthHashType)
  from p s h = some (p, s, h)

  -- With a password, the update keeps or computes the secret in force, or fails for want of one.
  update_hashed_password-cases :
      (w : Wattpilot)
      → IsCoherent w.owner
      → w.owner.password ≢ []
      → let made = hash_password py w.owner.password w.owner.device.serial w.owner.auth_hash_type in
        ((made ≡ none)
          × (update_hashed_password py w ≡ (raised (value_raised (codes "ValueError")), w)))
        ⊎ ((u : Wattpilot) × (update_hashed_password py w ≡ (ok tt, u))
            × (made ≡ some u.owner.hashed_password)
            × IsCoherent u.owner
            × (u.socket ≡ w.socket)
            × (u.owner.sent ≡ w.owner.sent))
  unfolding update_hashed_password
  update_hashed_password-cases w coherent given =
      let c = w.owner in
      let p = c.password in
      let s = c.device.serial in
      let h = c.auth_hash_type in
      elim (Bool-cases (text_eq p [])) [
        | inl empty ↦ absurd (given ((text_eq_iff p []).0 empty))
        | inr full ↦ elim (Bool-cases (same_inputs c.hashed_from p s h)) [
          | inl same ↦ inr (
            w,
            rw (full, update_hashed_password, same) refl,
            coherent p s h (same_inputs_sound c.hashed_from p s h same),
            coherent,
            refl,
            refl,
          )
          | inr changed ↦ elim (Option-cases (hash_password py p s h)) [
            | inl refused ↦ inl (refused, rw (full, update_hashed_password, changed, refused) refl)
            | inr (secret, made) ↦ inr (
              record w {
                owner = record c { hashed_password = secret; hashed_from = some (p, s, h) };
              },
              rw (full, update_hashed_password, changed, made) refl,
              made,
              λ p' s' h' e. recomputed p s h secret made p' s' h' e,
              refl,
              refl,
            )
          ]
        ]
      ]
    where
      recomputed :
          (p s : Text) (h : AuthHashType) (secret : List ℕ)
          → hash_password py p s h ≡ some secret
          → (p' s' : Text) (h' : AuthHashType) → from p s h ≡ from p' s' h'
          → hash_password py p' s' h' ≡ some secret
      recomputed p s h secret made p' s' h' e = cc

  -- What follows the update: the answer, or what the update has raised.
  abbrev answer_to : Text → Dict → Outcome ⊤ × Wattpilot → Outcome ⊤ × Wattpilot
  answer_to token3 msg updated = elim updated.0 [
    | ok _ ↦
        write
          (auth_message py (text_of (get_else (codes "token1") null msg))
            (text_of (get_else (codes "token2") null msg)) token3 updated.1.owner.hashed_password)
          updated.1
    | raised x ↦ (raised x, updated.1)
  ]

  on_auth_required_lem :
      (token3 : Text) (msg : Dict) (h : AuthHashType) (w : Wattpilot)
      → requested_hash msg w.owner ≡ some h
      → on_auth_required py token3 msg w
        ≡ answer_to token3 msg
            (update_hashed_password py (record w { owner = record w.owner { auth_hash_type = h } }))
  unfolding on_auth_required
  on_auth_required_lem token3 msg h w asked = rw (on_auth_required, asked) refl

  -- With a password and an open socket, the answer to a request to sign in, however often the charger
  -- asks, is made with the hash of this client's password, the charger's serial and the hash that the
  -- request asks for, whether it is computed now or kept from an earlier connection, or there is no
  -- answer, because no such hash exists; given that a secret kept by the client is the hash of what it
  -- was made from, which the client goes on to satisfy.
  pub on_auth_required-secret :
      (token3 : Text) (msg : Dict) (h : AuthHashType) (w : Wattpilot)
      → IsCoherent w.owner
      → w.owner.password ≢ []
      → w.socket ≡ some live
      → requested_hash msg w.owner ≡ some h
      → let o = on_auth_required py token3 msg w in
        let made = hash_password py w.owner.password w.owner.device.serial h in
        IsCoherent o.1.owner
        × (((made ≡ none)
              × (o.0 ≡ raised (value_raised (codes "ValueError")))
              × (o.1.owner.sent ≡ w.owner.sent))
            ⊎ ((secret : List ℕ) × (made ≡ some secret)
                × (o.0 ≡ ok tt)
                × (o.1.owner.sent
                    ≡ auth_message py
                        (text_of (get_else (codes "token1") null msg))
                        (text_of (get_else (codes "token2") null msg))
                        token3
                        secret
                      ∷ w.owner.sent)))
  unfolding write
  on_auth_required-secret token3 msg h w coherent given dialed asked =
      let w1 = record w { owner = record w.owner { auth_hash_type = h } } in
      elim (update_hashed_password-cases w1 coherent given) [
        | inl (refused, ended) ↦
            rw (on_auth_required_lem token3 msg h w asked ∙ ap (answer_to token3 msg) ended)
              (coherent, inl (refused, refl, refl))
        | inr (u, ended, made, after, socket, sent) ↦
            rw
              (
                on_auth_required_lem token3 msg h w asked ∙ ap (answer_to token3 msg) ended,
                socket ∙ dialed,
                write,
              )
              (
                after,
                inr (
                  u.owner.hashed_password,
                  made,
                  refl,
                  ap
                      (λ ms.
                        auth_message py (text_of (get_else (codes "token1") null msg))
                          (text_of (get_else (codes "token2") null msg)) token3
                          u.owner.hashed_password
                        ∷ ms)
                      sent,
                ),
              )
      ]
