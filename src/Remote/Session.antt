-- ===== src/Remote/Session.antt =====
-- RemoteClient::start, stop and the thread of moxTimerLoop (App/remote/RemoteClient.cpp).
use cwkeyer.Base.{
  ℕ, ◌+◌, Bool, true, false, ◌&&◌, ◌||◌, not, List, [], Option, none, some, ltb, ◌==◌,
  if◌then◌else◌,
}
use cwkeyer.Base.Int.{ℤ, pos, ltb_ℤ}
use cwkeyer.Remote.{Network, RemoteClient, u64, is_open, reset_mox_state, deactivate_mox}
use cwkeyer.Remote.Handshake.{perform_web_socket_handshake}

unfoldable pub close_connection : RemoteClient → RemoteClient
close_connection r = record r { socket_fd = none }

-- Where the thread of moxTimerLoop stands: before the first wait, in wait_for with the token and the
-- deadline that it has read, or past its loop.
pub data Timer : Type 0 where
  idle : Timer
  armed : ℕ → ℕ → Timer
  ended : Timer

-- What start meets outside: platformInit, the descriptor from openConnection, the result of sending
-- the request, and the chunks of the answer.
pub record Connecting : Type 0 where
  pub platform_init : Bool
  pub connection : Option ℕ
  pub request_sent : Bool
  pub answer : List (List ℕ)

abbrev pub is_nil : List ℕ → Bool
is_nil [] = true
is_nil _ = false

-- The first thing that stop does, under the mutex.
abbrev pub halting : RemoteClient → RemoteClient
halting r = record r {
  stop_timer = true;
  scheduled = false;
  token = u64 (r.token + 1);
  deactivation_at = 0;
}

module _ (net : Network) where
  -- The release at the end of a round of moxTimerLoop.
  unfoldable pub fire : RemoteClient → RemoteClient
  fire r =
      let r₁ = record r { scheduled = false } in if r.mox_active then deactivate_mox net r₁ else r₁

  -- What the thread does when it gets the mutex at the time `now`.
  unfoldable pub timer_step : ℕ → Timer → RemoteClient → Timer × RemoteClient
  timer_step now idle r =
      if r.stop_timer
      then (ended, r)
      else if r.scheduled
      then (if ltb now r.deactivation_at
          then (armed r.token r.deactivation_at, r)
          else (idle, fire r))
      else (idle, r)
  timer_step now (armed token deadline) r =
      if r.stop_timer || not r.scheduled || not (r.token == token)
      then (idle, r)
      else if ltb now deadline
      then (armed token deadline, r)
      else (idle, fire r)
  timer_step now ended r = (ended, r)

  -- The other parts of stop: the release of the MOX, with shouldDeactivateMox, once the thread is
  -- joined; the reset under the mutex; and the end.
  unfoldable pub releasing : Bool → RemoteClient → RemoteClient
  releasing should r =
      if r.running && should && is_open r.socket_fd then deactivate_mox net r else r

  unfoldable pub clearing : RemoteClient → RemoteClient
  clearing r = record r { mox_active = false; stop_timer = false }

  unfoldable pub ending : RemoteClient → RemoteClient
  unfolding close_connection
  ending r = close_connection (record r { running = false })

  -- stop, with nothing in between but the join of the thread.
  unfoldable pub stop : RemoteClient → RemoteClient
  unfolding releasing clearing ending
  stop r = ending (clearing (releasing r.mox_active (halting r)))

  -- The part of start behind openConnection.
  unfoldable pub connected : ℤ → Connecting → ℕ → RemoteClient → RemoteClient × Bool
  unfolding close_connection
  connected delay env fd r =
      let r₁ = record r { socket_fd = some fd; wire = [] } in
      if perform_web_socket_handshake env.request_sent env.answer
      then (record (reset_mox_state delay r₁) { running = true }, true)
      else (close_connection r₁, false)

  unfoldable pub open_and_connect : ℤ → Connecting → Option ℕ → RemoteClient → RemoteClient × Bool
  open_and_connect delay env none r = (r, false)
  open_and_connect delay env (some fd) r = connected delay env fd r

  -- start's guards before its stop, and what is behind it.
  abbrev pub refuses : List ℕ → ℤ → Bool
  refuses server_ip port = not (ltb_ℤ (pos 0) port) || ltb_ℤ (pos 65535) port || is_nil server_ip

  unfoldable pub start_stopped : ℤ → Connecting → RemoteClient → RemoteClient × Bool
  start_stopped delay env r =
      if not env.platform_init then (r, false) else open_and_connect delay env env.connection r

  -- start
  unfoldable pub start : List ℕ → ℤ → ℤ → Connecting → RemoteClient → RemoteClient × Bool
  unfolding start_stopped
  start server_ip port delay env r =
      if refuses server_ip port then (r, false) else start_stopped delay env (stop r)
