-- ===== src/Api/Connection/Snapshot.antt =====
-- When the charger's first full status counts as complete.
use ha_wattpilot.Base.{◌≡◌, refl, ap, sym, ◌∙◌, Bool, true, false, List, [], ◌∷◌, ◌++◌, arith, All}
use mathlib.Core.Path.{subst}
use ha_wattpilot.Api.Connection.State.{Connection, receive_full_status, receive_delta_status}

-- A frame of properties, as the connection is told of it.
pub data Status : Type 0 where
  -- a chunk of the full status, with its `partial`
  chunk : Bool → Status
  delta : Status

abbrev pub is_last : Status → Bool
is_last (chunk false) = true
is_last _ = false

-- No last chunk among them.
abbrev pub IsUnfinished : List Status → Type 0
IsUnfinished = All (λ s. is_last s ≡ false)

module _ {C : Type 0} where
  pub receive : Status → Connection C → Connection C
  receive (chunk partial) c = receive_full_status partial c
  receive delta c = receive_delta_status c

  pub receive_all : List Status → Connection C → Connection C
  unfolding receive
  receive_all [] c = c
  receive_all (s ∷ ss) c = receive_all ss (receive s c)

  delta_streaming : (c : Connection C) → c.streaming_full_status ≡ true → receive_delta_status c ≡ c
  unfolding receive_delta_status
  delta_streaming c on = ground arith

  receive_all_streaming :
      (ss : List Status) (c : Connection C)
      → IsUnfinished ss
      → c.streaming_full_status ≡ true
      → ((receive_all ss c).initialized ≡ c.initialized)
        × ((receive_all ss c).streaming_full_status ≡ true)
  unfolding receive_all receive_full_status
  receive_all_streaming [] c h on = (refl, on)
  receive_all_streaming (chunk true ∷ ss) c h on = receive_all_streaming ss _ h.1 refl
  receive_all_streaming (chunk false ∷ ss) c h on = cc (h.0)
  receive_all_streaming (delta ∷ ss) c h on =
      subst
        (λ d.
          ((receive_all ss d).initialized ≡ c.initialized)
          × ((receive_all ss d).streaming_full_status ≡ true))
        (sym (delta_streaming c on)) (receive_all_streaming ss c h.1 on)

  receive_all-append :
      (ss ts : List Status) (c : Connection C)
      → receive_all (ss ++ ts) c ≡ receive_all ts (receive_all ss c)
  unfolding receive_all
  receive_all-append [] ts c = refl
  receive_all-append (s ∷ ss) ts c = receive_all-append ss ts (receive s c)

  -- Once the first chunk of a full status has come, neither the chunks that follow it nor any delta
  -- between them completes it: the connection counts as initialized exactly with the last chunk.
  receive_all-initialized :
      (ss : List Status) (c : Connection C)
      → IsUnfinished ss
      → c.initialized ≡ false
      → ((receive_all (chunk true ∷ ss) c).initialized ≡ false)
        × ((receive_all (chunk true ∷ (ss ++ chunk false ∷ [])) c).initialized ≡ true)
  unfolding receive_all receive_full_status
  receive_all-initialized ss c h new =
      let c' = receive_full_status true c in
      (
        (receive_all_streaming ss c' h refl).0 ∙ new,
        ap (λ (d : Connection C). d.initialized) (receive_all-append ss (chunk false ∷ []) c'),
      )
