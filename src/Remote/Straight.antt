-- ===== src/Remote/Straight.antt =====
-- A straight key on RemoteClient (App/remote/RemoteClient.cpp): key down is an untimed command.
use mathlib.Core.List.{append_assoc}
use cwkeyer.Base.{ℕ, suc, ◌+◌, ◌<◌, ◌≤◌, ◌^◌, ◌≡◌, true, false, List, [], ◌∷◌, ◌++◌, arith}
use cwkeyer.Base.Int.{pos, ◌+ℤ◌}
use cwkeyer.Remote.{
  Network, RemoteClient, Command, trx, keyer, is_open, start_run_cw, send_keyer_command, ensure_mox,
  activate_mox, send_command_line, release_after, schedule_mox_release, deactivate_mox, send_line,
  send_command, to_u64, u64, line_of,
}
use cwkeyer.Remote.Frame.{frame}
use cwkeyer.Remote.Session.{idle, timer_step, fire}

abbrev pub sent : Command → RemoteClient → RemoteClient
sent c r = record r { sends = suc r.sends; wire = r.wire ++ c ∷ [] }

pub send_line-sent :
    (net : Network) (c : Command) (r : RemoteClient)
    → ((n : ℕ) (bytes : List ℕ) → net.accepts n bytes ≡ true)
    → r.running ≡ true
    → is_open r.socket_fd ≡ true
    → send_line net c r ≡ (sent c r, true)
unfolding send_line
send_line-sent net c r takes on is_up =
    ground (arith, takes r.sends (frame (net.mask r.sends) (line_of c)))

-- On a network that takes every frame, for a client that runs with the MOX inactive and a release
-- delay of d > 0 milliseconds, before the clock wraps around: if the key goes down at `now` and is
-- still down when the timer thread looks at now + d or later, the thread switches the transmitter
-- off under the pressed key.
pub held_key_loses_mox :
    (net : Network) (d now later : ℕ) (r : RemoteClient)
    → ((n : ℕ) (bytes : List ℕ) → net.accepts n bytes ≡ true)
    → r.running ≡ true
    → is_open r.socket_fd ≡ true
    → r.mox_active ≡ false
    → r.stop_timer ≡ false
    → r.release_delay ≡ pos (suc d)
    → now + suc d < 2 ^ 64
    → now + suc d ≤ later
    → (timer_step net later idle (start_run_cw net now r)).1.wire
      ≡ r.wire ++ trx true ∷ keyer true ∷ trx false ∷ []
unfolding start_run_cw send_command send_keyer_command ensure_mox activate_mox send_command_line
    release_after schedule_mox_release deactivate_mox timer_step fire ◌+ℤ◌ to_u64
held_key_loses_mox net d now later r takes on is_up off live delay fits late =
    let r₁ = record r { scheduled = false; token = u64 (r.token + 1) } in
    let r₂ = record (sent (trx true) r₁) { mox_active = true } in
    let r₃ = sent (keyer true) r₂ in
    let r₄ = schedule_mox_release (pos 0) now r₃ in
    let r₅ = record r₄ { scheduled = false } in
    ground (
      arith,
      send_line-sent net (trx true) r₁ takes,
      send_line-sent net (keyer true) r₂ takes,
      send_line-sent net (trx false) r₅ takes,
      append_assoc r.wire (trx true ∷ []) (keyer true ∷ []),
      append_assoc r.wire (trx true ∷ keyer true ∷ []) (trx false ∷ []),
    )
