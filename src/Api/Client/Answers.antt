-- ===== src/Api/Client/Answers.antt =====
-- Commands and the answers to them: each answer finds the command that asked.
use ha_wattpilot.Base.{
  ℕ, ◌≡◌, refl, ap, ◌∙◌, Bool, true, some, List, [], ◌∷◌, arith, Text, codes, text_eq, text_eq_refl,
  text_eq_iff, if◌then◌else◌, inl, inr, ◌⊎◌, Bool-cases, ◌==◌, ==_iff, pos, show_int, show_nat,
}
use ha_wattpilot.Json.{Value, int, text, Dict, null, get_else, truthy}
use ha_wattpilot.Api.Library.{Library}
use ha_wattpilot.Api.Errors.{rejected, device_text}
use ha_wattpilot.Api.Client.State.{
  Client, Future, waiting, accepted, failed, Wattpilot, Outcome, ok, raised, ⊤, is_waiting, settle,
  bind-run, ◌>>=◌, on_client,
}
use ha_wattpilot.Api.Client.Commands.{
  write, pend, pending_for, unpend, future_of, forget, send, send_command, correlation_key,
}
use ha_wattpilot.Api.Client.Properties.{apply_status}
use ha_wattpilot.Api.Client.Cache.{AreCaught, apply_status-futures}
use ha_wattpilot.Api.Client.Messages.{answer, on_response}

pending_for-pend :
    (k j : Text) (n : ℕ) (ps : List (Text × ℕ))
    → pending_for j (pend k n ps) ≡ (if text_eq k j then some n else pending_for j ps)
unfolding pending_for pend
pending_for-pend k j n [] = refl
pending_for-pend k j n ((i, m) ∷ ps) =
    ground (arith, pending_for-pend k j n ps, text_eq_iff i k, text_eq_iff i j, text_eq_iff k j)

future_of-settle :
    (n m : ℕ) (r : Future) (fs : List (ℕ × Future))
    → is_waiting n fs ≡ true
    → future_of m (settle n r fs) ≡ (if m == n then some r else future_of m fs)
unfolding future_of settle is_waiting
future_of-settle n m r [] w = cc
future_of-settle n m r ((i, f) ∷ fs) w = ground (arith, future_of-settle n m r fs)

-- A command that is being waited for: its key finds its number, and its future is not done.
pub record IsAwaited (n : ℕ) (c : Client) : Type 0 where
  pub found : pending_for (show_nat n) c.pending_commands ≡ some n
  pub undone : is_waiting n c.futures ≡ true

future_of-answer :
    (n m : ℕ) (r : Future) (c : Client)
    → is_waiting n c.futures ≡ true
    → future_of m (answer (some n) r c).futures ≡ (if m == n then some r else future_of m c.futures)
unfolding answer
future_of-answer n m r c w = rw w (future_of-settle n m r c.futures w)

-- What an answer says, apart from its side effect on the cache.
abbrev pub verdict : Text → Dict → Future
verdict key msg =
    if truthy (get_else (codes "success") null msg)
    then accepted
    else failed
        (rejected key (device_text (get_else (codes "message") (text (codes "unknown")) msg)))

correlation_key-known :
    (str_of : Value → Text) (n : ℕ) (v : Value)
    → (v ≡ int (pos n)) ⊎ (v ≡ text (show_nat n))
    → correlation_key str_of v ≡ show_nat n
unfolding correlation_key show_nat show_int
correlation_key-known str_of n v (inl e) = rw e refl
correlation_key-known str_of n v (inr e) = rw e refl

accepted-future :
    (v : Value) (n m : ℕ) (w : Wattpilot)
    → AreCaught w.owner.property_callbacks
    → is_waiting n w.owner.futures ≡ true
    → future_of m ((apply_status v >>= λ _. on_client (answer (some n) accepted)) w).1.owner.futures
      ≡ (if m == n then some accepted else future_of m w.owner.futures)
accepted-future v n m w caught undone =
    let applied = apply_status-futures v w caught in
    let w' = (apply_status v w).1 in
    let split : apply_status v w ≡ (ok tt, w') = ap (λ r. (r, w')) applied.0 in
    let whole =
      bind-run (apply_status v) (λ _. on_client (answer (some n) accepted)) w w' tt split in
    let answered = future_of-answer n m accepted w'.owner (rw applied.1 undone) in
    ap (λ o. future_of m o.1.owner.futures) whole
    ∙ (answered ∙ ap (λ fs. if m == n then some accepted else future_of m fs) applied.1)

-- An answer that names an awaited command, by its number or by a text that spells it, settles that
-- command and no other: the one is accepted, or failed with the charger's message, as the answer
-- says, and every other future is as it was. Callbacks on the pushed properties may raise what
-- `_apply_status` expects.
pub on_response-future_of :
    (py : Library) (n m : ℕ) (msg : Dict) (w : Wattpilot)
    → AreCaught w.owner.property_callbacks
    → IsAwaited n w.owner
    → (get_else (codes "requestId") null msg ≡ int (pos n))
      ⊎ (get_else (codes "requestId") null msg ≡ text (show_nat n))
    → future_of m (on_response py msg w).1.owner.futures
      ≡ (if m == n then some (verdict (show_nat n) msg) else future_of m w.owner.futures)
unfolding on_response
on_response-future_of py n m msg w caught awaited named =
    let key = correlation_key-known py.str_of n (get_else (codes "requestId") null msg) named in
    rw key (
      rw awaited.found (elim (Bool-cases (truthy (get_else (codes "success") null msg))) [
        | inl success ↦
            rw success
              (accepted-future (get_else (codes "status") null msg) n m w caught awaited.undone)
        | inr refusal ↦ rw refusal (future_of-answer n m _ w.owner awaited.undone)
      ]))

-- Sending touches nothing of the client but what was sent.
send-pending :
    (py : Library) (message : Dict) (secure : Bool) (w : Wattpilot)
    → ((send py message secure w).1.owner.futures ≡ w.owner.futures)
      × ((send py message secure w).1.owner.pending_commands ≡ w.owner.pending_commands)
unfolding send write
send-pending py message secure w = ground arith

-- A command that went out is awaited: an answer under its number will find it.
pub send_command-IsAwaited :
    (py : Library) (n : ℕ) (message : Dict) (secure : Bool) (w : Wattpilot)
    → (send_command py n message secure w).0 ≡ ok tt
    → IsAwaited n (send_command py n message secure w).1.owner
unfolding send_command is_waiting
send_command-IsAwaited py n message secure w e =
    let kept = send-pending py message secure w' in
    after (send py message secure w').0 (send py message secure w').1 kept.0 kept.1 e
  where
    w' : Wattpilot
    w' = record w {
      owner = record w.owner {
        futures = (n, waiting) ∷ w.owner.futures;
        pending_commands = pend (show_nat n) n w.owner.pending_commands;
      };
    }

    after :
        (r : Outcome ⊤) (u : Wattpilot)
        → u.owner.futures ≡ (n, waiting) ∷ w.owner.futures
        → u.owner.pending_commands ≡ pend (show_nat n) n w.owner.pending_commands
        → (let o : Outcome ⊤ × Wattpilot = elim r [
          | ok _ ↦ (ok tt, u)
          | raised x ↦ (
            raised x,
            record u {
              owner = record u.owner {
                pending_commands = unpend (show_nat n) u.owner.pending_commands;
                futures = forget n u.owner.futures;
              };
            },
          )
        ] in
            o.0 ≡ ok tt → IsAwaited n o.1.owner)
    after (ok _) u futures pending fine =
        let registered = pending_for-pend (show_nat n) (show_nat n) n w.owner.pending_commands in
        let same = text_eq_refl (show_nat n) in
        let alike = (==_iff n n).1 refl in
        record {
          found = ap (pending_for (show_nat n)) pending ∙ (registered ∙ rw same refl);
          undone = ap (is_waiting n) futures ∙ rw alike refl;
        }
    after (raised x) u futures pending fine = cc
