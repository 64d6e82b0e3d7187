-- ===== src/Api/Connection/State.antt =====
-- `Connection`: its fields, and what the message handlers report to it.
use ha_wattpilot.Base.{
  ℕ, Bool, true, false, Option, none, some, List, [], ◌∷◌, Text, text_eq, if◌then◌else◌, ◌||◌,
}
use ha_wattpilot.Api.Errors.{Error}

-- A socket that is still there may have been closed by either side.
pub data Socket : Type 0 where
  live dead : Socket

-- Where the reader task stands between two of its steps.
pub data Reader : Type 0 where
  -- in `_read_frames`
  reading : Reader
  -- in the sleep before it connects again
  sleeping : Reader
  -- in `connect`, after `begin`
  connecting : Reader
  -- its loop has ended; the task is still held
  finished : Reader

-- Where the one attempt to open stands.
pub data Phase : Type 0 where
  -- in `connect`, after `begin`
  dialing : Phase
  awaiting_authentication awaiting_initialization : Phase
  -- `_finish_initialization` of a connection that is up
  completing : Phase

-- What waits for the owner of the connection: `C` is the state that `on_reset` changes.
pub record Connection (C : Type 0) : Type 0 where
  pub authenticated : Bool
  pub initialized : Bool
  pub streaming_full_status : Bool
  pub skipped : List Text
  pub warnings : List Text
  pub authenticated_event : Bool
  pub initialized_event : Bool
  pub disconnected_event : Bool
  pub fatal_error : Option Error
  pub socket : Option Socket
  pub message_loop_task : Option Reader
  pub readiness_guard : Bool
  -- The attempt, and whether it found a reader to replace (`had_reader`).
  pub opening : Option (Phase × Bool)
  pub closing : Bool
  pub stopped : Bool
  pub close_count : ℕ
  pub auto_reconnect : Bool
  pub reconnect_delay_min : ℕ
  pub reconnect_delay_max : ℕ
  pub reconnect_delay : ℕ
  pub owner : C

-- `await socket.close()`
abbrev pub close_socket : Option Socket → Option Socket
close_socket none = none
close_socket (some _) = some dead

-- `cause in self._skipped`
unfoldable pub is_skipped : Text → List Text → Bool
is_skipped cause [] = false
is_skipped cause (s ∷ ss) = text_eq s cause || is_skipped cause ss

module _ {C : Type 0} where
  -- `__init__`; delays are whole multiples of a unit that divides both.
  unfoldable pub new_connection : Bool → ℕ → ℕ → C → Connection C
  new_connection auto_reconnect lo hi owner = record {
    authenticated = false;
    initialized = false;
    streaming_full_status = false;
    skipped = [];
    warnings = [];
    authenticated_event = false;
    initialized_event = false;
    disconnected_event = true;
    fatal_error = none;
    socket = none;
    message_loop_task = none;
    readiness_guard = false;
    opening = none;
    closing = false;
    stopped = false;
    close_count = 0;
    auto_reconnect = auto_reconnect;
    reconnect_delay_min = lo;
    reconnect_delay_max = hi;
    reconnect_delay = lo;
    owner = owner;
  }

  unfoldable pub set_authenticated : Bool → Connection C → Connection C
  set_authenticated true c = record c {
    authenticated = true;
    disconnected_event = false;
    authenticated_event = true;
  }
  set_authenticated false c = record c {
    authenticated = false;
    authenticated_event = false;
    disconnected_event = true;
  }

  unfoldable pub mark_authenticated : Connection C → Connection C
  unfolding set_authenticated
  mark_authenticated c = set_authenticated true c

  unfoldable pub mark_initialized : Connection C → Connection C
  mark_initialized c = record c {
    initialized = true;
    reconnect_delay = c.reconnect_delay_min;
    initialized_event = true;
  }

  unfoldable pub receive_full_status : Bool → Connection C → Connection C
  unfolding mark_initialized
  receive_full_status partial c =
      let noted = record c { streaming_full_status = partial } in
      if partial then noted else mark_initialized noted

  unfoldable pub receive_delta_status : Connection C → Connection C
  unfolding mark_initialized
  receive_delta_status c = if c.streaming_full_status then c else mark_initialized c

  unfoldable pub fail : Error → Connection C → Connection C
  unfolding set_authenticated
  fail error c = record (set_authenticated false (record c { fatal_error = some error })) {
    authenticated_event = true;
    initialized_event = true;
  }

  unfoldable pub reject : Error → Connection C → Connection C
  unfolding fail
  reject error c = let c' = fail error c in record c' { socket = close_socket c'.socket }

  -- A cause is warned of once per connection; the subject of the message is left out.
  unfoldable pub skip : Text → Connection C → Connection C
  unfolding is_skipped
  skip cause c =
      if is_skipped cause c.skipped
      then c
      else record c { skipped = cause ∷ c.skipped; warnings = cause ∷ c.warnings }
