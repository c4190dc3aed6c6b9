-- ===== src/Chain/Release.antt =====
-- The end of the elements that a keyer plays: moxTimerLoop of App/remote/RemoteClient.cpp switches the
-- MOX off.
use mathlib.Core.List.{append_assoc}
use cwkeyer.Base.{ℕ, suc, ◌≤◌, ◌≡◌, true, false, List, [], ◌∷◌, ◌++◌, arith, length}
use cwkeyer.Remote.{Network, RemoteClient, trx, deactivate_mox}
use cwkeyer.Remote.Session.{Timer, idle, armed, ended, timer_step, fire}
use cwkeyer.Remote.Straight.{send_line-sent}
use cwkeyer.Chain.Mox.{Play, Live, InTime, due, timed, turn_all, play_all, play_all-Played}

-- The MOX is off, and the last command said so.
abbrev Off : RemoteClient → Timer × RemoteClient → Type 0
Off r s = (s.1.mox_active ≡ false) × (s.1.wire ≡ r.wire ++ trx false ∷ [])

module _ (net : Network) (takes : (n : ℕ) (bytes : List ℕ) → net.accepts n bytes ≡ true) where
  turn-released :
      (q later latest : ℕ) (timer : Timer) (r : RemoteClient)
      → Live true q 0 timer r
      → r.scheduled ≡ true
      → r.deactivation_at ≤ later
      → r.deactivation_at ≤ latest
      → Off r (turn_all net (later ∷ latest ∷ []) (timer, r))
  unfolding turn_all timer_step fire deactivate_mox
  turn-released q later latest idle r v s h h' =
      ground (arith, send_line-sent net (trx false) (record r { scheduled = false }) takes)
  turn-released q later latest (armed tok deadline) r v s h h' =
      ground (arith, send_line-sent net (trx false) (record r { scheduled = false }) takes)
  turn-released q later latest ended r v s h h' = ground arith

  -- On a network that takes every frame, for a connected client with the MOX off, a release delay of
  -- q + 1 ms and tokens that do not wrap around: after one or more elements, each at least 1 ms long
  -- and each in time before the release that the element before it scheduled, with the clock in range,
  -- two turns of the thread at or after the time at which the release of the last one is due switch
  -- the MOX off, and `trx false` is the one command behind the elements.
  pub mox_released :
      (q later latest : ℕ) (p : Play) (ps : List Play) (timer : Timer) (r : RemoteClient)
      → Live false q (suc (length ps)) timer r
      → InTime q (p ∷ ps)
      → due q p ps ≤ later
      → due q p ps ≤ latest
      → let s = turn_all net (later ∷ latest ∷ []) (play_all net (p ∷ ps) (timer, r)) in
        (s.1.mox_active ≡ false)
        × (s.1.wire ≡ r.wire ++ trx true ∷ timed (p ∷ ps) ++ trx false ∷ [])
  unfolding turn_all
  mox_released q later latest p ps timer r v t h h' =
      let played = play_all-Played net takes q p ps timer r v t in
      let off =
        turn-released q later latest (play_all net (p ∷ ps) (timer, r)).0
          (play_all net (p ∷ ps) (timer, r)).1 played.1 played.2 (ground arith) (ground arith) in
      ground (arith, append_assoc r.wire (trx true ∷ timed (p ∷ ps)) (trx false ∷ []))
