-- ===== src/Api/Client/State.antt =====
-- The fields of `Wattpilot`, and the actions that its methods are: they change the connection and
-- the client behind it, and may raise.
use ha_wattpilot.Base.{
  ℕ, ◌≡◌, ap, Bool, true, false, Option, none, some, List, [], ◌∷◌, Text, if◌then◌else◌, pos, ◌==◌,
}
use ha_wattpilot.Json.{Value, null, text, int, Dict, end}
use ha_wattpilot.Api.Errors.{Error, CommandReason, abandoned}
use ha_wattpilot.Api.Models.{AuthHashType, pbkdf2, DeviceInfo}
use ha_wattpilot.Api.Connection.{Connection}

-- An exception, by its class and place (the cause that a log names) where it is none of the client's.
pub data Raised : Type 0 where
  -- ValueError, TypeError, LookupError, AttributeError or RecursionError
  value_raised : Text → Raised
  other_raised : Text → Raised
  wattpilot_raised : Error → Raised

-- A registered callback: a name to tell it by, and what it raises on a push, if anything.
pub record Callback : Type 0 where
  pub id : ℕ
  pub raises : Text → Value → Option Raised

-- A future of `_pending_commands`.
pub data Future : Type 0 where
  waiting accepted : Future
  failed : CommandReason → Future

pub record Client : Type 0 where
  pub device : DeviceInfo
  pub password : Text
  pub hashed_password : List ℕ
  pub hashed_from : Option (Text × Text × AuthHashType)
  pub auth_hash_type : AuthHashType
  pub request_id : ℕ
  -- key ↦ the number of the command that waits under it
  pub pending_commands : List (Text × ℕ)
  -- The future of each command by its number, the latest first.
  pub futures : List (ℕ × Future)
  pub all_props : Dict
  -- `None` until the charger reports them
  pub firmware : Value
  pub cak : Value
  pub property_callbacks : List Callback
  -- What was written to a socket, and which callback was called with what, the latest first.
  pub sent : List Dict
  pub calls : List (ℕ × Text × Value)

unfoldable pub new_client : Text → Option Text → Client
new_client password serial = record {
  device = record {
    serial = elim serial [ none ↦ [] | some s ↦ s ];
    name = text [];
    manufacturer = text [];
    device_type = text [];
    secured = int (pos 0);
  };
  password = password;
  hashed_password = [];
  hashed_from = none;
  auth_hash_type = pbkdf2;
  request_id = 0;
  pending_commands = [];
  futures = [];
  all_props = end;
  firmware = null;
  cak = null;
  property_callbacks = [];
  sent = [];
  calls = [];
}

pub data Outcome (A : Type 0) : Type 0 where
  ok : A → Outcome A
  raised : Raised → Outcome A

abbrev pub Wattpilot : Type 0
Wattpilot = Connection Client

abbrev pub Action : Type 0 → Type 0
Action A = Wattpilot → Outcome A × Wattpilot

abbrev pub ⊤ : Type 0
⊤ = Unit

abbrev pub pure : {A : Type 0} → A → Action A
pure a w = (ok a, w)

abbrev pub raise : {A : Type 0} → Raised → Action A
raise r w = (raised r, w)

infixl 5 ◌>>=◌ ◌>>◌
abbrev pub ◌>>=◌ : {A B : Type 0} → Action A → (A → Action B) → Action B
◌>>=◌ m f w = let (r, w') = m w in elim r [ ok a ↦ f a w' | raised x ↦ raise x w' ]

pub bind-run :
    {A B : Type 0} (m : Action A) (f : A → Action B) (w w' : Wattpilot) (a : A)
    → m w ≡ (ok a, w')
    → (m >>= f) w ≡ f a w'
bind-run {A} {B} m f w w' a e =
    ap
      (λ (p : Outcome A × Wattpilot).
        (let o : Outcome B × Wattpilot = elim p.0 [ ok x ↦ f x p.1 | raised x ↦ (raised x, p.1) ] in
          o))
      e

abbrev pub ◌>>◌ : {A B : Type 0} → Action A → Action B → Action B
m >> k = m >>= λ _. k

-- A change of the connection, of the client behind it, and a look at it.
abbrev pub on_connection : (Wattpilot → Wattpilot) → Action ⊤
on_connection f w = (ok tt, f w)

abbrev pub on_client : (Client → Client) → Action ⊤
on_client f w = (ok tt, record w { owner = f w.owner })

abbrev pub get_client : Action Client
get_client w = (ok w.owner, w)

-- `not future.done()`, for the number that `get` found, if any.
unfoldable pub is_waiting : ℕ → List (ℕ × Future) → Bool
is_waiting n [] = false
is_waiting n ((m, f) ∷ fs) =
    if n == m then (elim f [ waiting ↦ true | _ ↦ false ]) else is_waiting n fs

-- `future.set_result` and `set_exception`.
unfoldable pub settle : ℕ → Future → List (ℕ × Future) → List (ℕ × Future)
settle n r [] = []
settle n r ((m, f) ∷ fs) = if n == m then (m, r) ∷ fs else (m, f) ∷ settle n r fs

-- The loop of `_fail_pending_commands`.
unfoldable pub abandon_all : Text → List (Text × ℕ) → List (ℕ × Future) → List (ℕ × Future)
unfolding is_waiting settle
abandon_all reason [] fs = fs
abandon_all reason ((key, n) ∷ ps) fs =
    abandon_all reason ps
      (if is_waiting n fs then settle n (failed (abandoned key reason)) fs else fs)

-- `_fail_pending_commands`, which a connection calls when it is reset.
unfoldable pub fail_pending_commands : Text → Client → Client
unfolding abandon_all
fail_pending_commands reason c = record c {
  futures = abandon_all reason c.pending_commands c.futures;
  pending_commands = [];
}
