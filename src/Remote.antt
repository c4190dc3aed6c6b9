-- ===== src/Remote.antt =====
-- App/remote/RemoteClient.cpp, RemoteClient.h: the client that keys a remote transceiver, and the
-- management of its MOX (transmit) state.
-- The lines that went out on the current connection are kept as commands, newest last (`wire`);
-- `line_of` is their text. `Network` says what the sockets answer: each call of sendRaw has a
-- number. m_moxMutex makes each operation a step of its own; the thread of moxTimerLoop is in
-- Session. std::rand gives the mask of frame number n.
pub mod Base64
pub mod Frame
pub mod Handshake
pub mod Socket
pub mod Session
pub mod Wire
pub mod Stages
pub mod Events
pub mod Straight
pub mod Winsock
mod Tests
use cwkeyer.Base.{
  ℕ, zero, suc, ◌+◌, ◌-◌, ◌/◌, ◌%◌, ◌^◌, Bool, true, false, ◌&&◌, ◌||◌, not, List, [], ◌∷◌, ◌++◌,
  Option, none, some, leb, ltb, ◌==◌, if◌then◌else◌,
}
use cwkeyer.Base.Int.{ℤ, pos, negsuc, ◌+ℤ◌, ltb_ℤ}
use cwkeyer.Base.Text.{codes}
use cwkeyer.Timing.{KeyerItem, dit, dah}
use Frame.{MaskKey, frame}
use Handshake.{perform_web_socket_handshake}

pub data Command : Type 0 where
  trx : Bool → Command
  keyer : Bool → Command
  keyer_timed : ℤ → Command

-- The decimal digits of a number, before `rest`; the number itself is fuel enough.
unfoldable pub digits : ℕ → ℕ → List ℕ → List ℕ
digits zero n rest = (48 + n % 10) ∷ rest
digits (suc fuel) n rest =
    let more = digits fuel (n / 10) ((48 + n % 10) ∷ rest) in
    if ltb n 10 then (48 + n) ∷ rest else more

-- std::to_string
unfoldable pub to_string : ℤ → List ℕ
unfolding digits
to_string (pos n) = digits n n []
to_string (negsuc n) = b'-' ∷ digits (suc n) (suc n) []

-- The text of a command.
unfoldable pub line_of : Command → List ℕ
unfolding to_string
line_of (trx b) = if b then codes "trx:0,true;" else codes "trx:0,false;"
line_of (keyer b) = if b then codes "keyer:0,true;" else codes "keyer:0,false;"
line_of (keyer_timed d) = codes "keyer:0,true," ++ to_string d ++ codes ";"

-- What the other side of the sockets does.
pub record Network : Type 0 where
  pub accepts : ℕ → List ℕ → Bool
  pub mask : ℕ → MaskKey

pub record RemoteClient : Type 0 where
  pub socket_fd : Option ℕ
  pub running : Bool
  pub mox_active : Bool
  pub stop_timer : Bool
  pub scheduled : Bool
  pub token : ℕ
  pub deactivation_at : ℕ
  pub release_delay : ℤ
  pub wire : List Command
  pub sends : ℕ

unfoldable pub new_client : RemoteClient
new_client = record {
  socket_fd = none;
  running = false;
  mox_active = false;
  stop_timer = false;
  scheduled = false;
  token = 0;
  deactivation_at = 0;
  release_delay = pos 250;
  wire = [];
  sends = 0;
}

abbrev pub u64 : ℕ → ℕ
u64 n = n % 2 ^ 64

-- static_cast<uint64_t> of an `int`.
unfoldable pub to_u64 : ℤ → ℕ
to_u64 (pos n) = u64 n
to_u64 (negsuc n) = 2 ^ 64 - suc n

abbrev pub is_open : Option ℕ → Bool
is_open none = false
is_open (some fd) = true

-- scheduleMoxReleaseLocked, at the time `now`.
unfoldable pub schedule_mox_release : ℤ → ℕ → RemoteClient → RemoteClient
unfolding ◌+ℤ◌ to_u64
schedule_mox_release duration now r = record r {
  scheduled = true;
  deactivation_at = u64 (now + to_u64 (r.release_delay +ℤ duration));
  token = u64 (r.token + 1);
}

-- resetMoxStateLocked
unfoldable pub reset_mox_state : ℤ → RemoteClient → RemoteClient
reset_mox_state delay r = record r {
  release_delay = if ltb_ℤ delay (pos 0) then pos 0 else delay;
  mox_active = false;
  stop_timer = false;
  scheduled = false;
  token = u64 (r.token + 1);
  deactivation_at = 0;
}

module _ (net : Network) where
  -- sendLine: the line goes out as one frame; a failure ends `running`.
  unfoldable pub send_line : Command → RemoteClient → RemoteClient × Bool
  send_line c r =
      if not r.running || not (is_open r.socket_fd)
      then (r, false)
      else if net.accepts r.sends (frame (net.mask r.sends) (line_of c))
      then (record r { sends = suc r.sends; wire = r.wire ++ c ∷ [] }, true)
      else (record r { sends = suc r.sends; running = false }, false)

  -- activateMoxLocked
  unfoldable pub activate_mox : RemoteClient → RemoteClient × Bool
  activate_mox r =
      let (r₁, sent) = send_line (trx true) r in
      if sent then (record r₁ { mox_active = true }, true) else (r₁, false)

  -- `m_moxActive || activateMoxLocked()`
  unfoldable pub ensure_mox : RemoteClient → RemoteClient × Bool
  ensure_mox r = if r.mox_active then (r, true) else activate_mox r

  -- deactivateMoxLocked
  unfoldable pub deactivate_mox : RemoteClient → RemoteClient
  deactivate_mox r = record (send_line (trx false) r).0 { mox_active = false }

  -- The end of sendKeyerCommand, once the command is out.
  unfoldable pub release_after : ℤ → ℕ → RemoteClient → RemoteClient × Bool
  release_after duration now r =
      if ltb_ℤ (pos 0) r.release_delay
      then (schedule_mox_release duration now r, true)
      else (deactivate_mox r, (deactivate_mox r).running)

  unfoldable pub send_command_line : Command → ℤ → ℕ → RemoteClient → RemoteClient × Bool
  send_command_line c duration now r =
      let (r₁, sent) = send_line c r in if sent then release_after duration now r₁ else (r₁, false)

  -- sendKeyerCommand
  unfoldable pub send_keyer_command : Command → ℤ → ℕ → RemoteClient → RemoteClient × Bool
  send_keyer_command c duration now r =
      if not r.running || not (is_open r.socket_fd)
      then (r, false)
      else let r₁ = record r { scheduled = false; token = u64 (r.token + 1) } in
        let (r₂, keyed) = ensure_mox r₁ in
        if keyed then send_command_line c duration now r₂ else (r₂, false)

  -- sendDuration and sendTimedCommand
  unfoldable pub send_duration : ℤ → ℕ → RemoteClient → RemoteClient × Bool
  send_duration duration now r =
      if not r.running || not (ltb_ℤ (pos 0) duration)
      then (r, false)
      else send_keyer_command (keyer_timed duration) duration now r

  unfoldable pub run_cw : KeyerItem → ℤ → ℕ → RemoteClient → RemoteClient
  run_cw dit duration now r = (send_duration duration now r).0
  run_cw dah duration now r = (send_duration duration now r).0
  run_cw _ duration now r = r

  -- sendCommand, from startRunCw and stopRunCw.
  unfoldable pub send_command : Bool → ℕ → RemoteClient → RemoteClient × Bool
  send_command key_down now r = send_keyer_command (keyer key_down) (pos 0) now r

  unfoldable pub start_run_cw : ℕ → RemoteClient → RemoteClient
  start_run_cw now r = (send_command true now r).0

  unfoldable pub stop_run_cw : ℕ → RemoteClient → RemoteClient
  stop_run_cw now r = (send_command false now r).0
