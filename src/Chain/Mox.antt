-- ===== src/Chain/Mox.antt =====
-- The MOX of the remote client (App/remote/RemoteClient.cpp) over the elements that a keyer plays.
use mathlib.Core.List.{append-nil, append_assoc}
use cwkeyer.Base.{
  ℕ, suc, ◌+◌, ◌*◌, ◌^◌, ◌≤◌, ◌<◌, ◌≡◌, refl, sym, ◌⊎◌, Bool, true, false, List, [], ◌∷◌, ◌++◌,
  arith, length,
}
use cwkeyer.Base.Int.{pos, ◌+ℤ◌}
use cwkeyer.Timing.{KeyerItem, dit, dah}
use cwkeyer.Remote.{
  Network, RemoteClient, Command, trx, keyer_timed, is_open, u64, to_u64, run_cw, send_duration,
  send_keyer_command, ensure_mox, activate_mox, send_command_line, release_after,
  schedule_mox_release,
}
use cwkeyer.Remote.Session.{Timer, idle, armed, ended, timer_step}
use cwkeyer.Remote.Straight.{send_line-sent}

-- An element: whether it is a dah, its length less a millisecond, when it begins, and when the
-- timer thread runs before the next element.
pub record Play : Type 0 where
  pub is_dah : Bool
  pub shorter : ℕ
  pub now : ℕ
  pub turns : List ℕ

abbrev pub item_of : Bool → KeyerItem
item_of true = dah
item_of false = dit

unfoldable pub turn_all : Network → List ℕ → Timer × RemoteClient → Timer × RemoteClient
turn_all net [] s = s
turn_all net (t ∷ ts) (timer, r) = turn_all net ts (timer_step net t timer r)

unfoldable pub play_all : Network → List Play → Timer × RemoteClient → Timer × RemoteClient
unfolding turn_all
play_all net [] s = s
play_all net (p ∷ ps) (timer, r) =
    play_all net ps
      (turn_all net p.turns (timer, run_cw net (item_of p.is_dah) (pos (suc p.shorter)) p.now r))

-- The thread runs before the release is due.
abbrev pub Before : ℕ → List ℕ → Type 0
Before deadline [] = Unit {0}
Before deadline (t ∷ ts) = (t < deadline) × Before deadline ts

-- With a release delay of q + 1 ms, the next element comes, and the clock stays in range.
abbrev pub InTime : ℕ → List Play → Type 0
InTime q [] = Unit {0}
InTime q (p ∷ ps) =
    (p.now + (q + 1 + (p.shorter + 1)) < 2 ^ 64)
    × Before (p.now + (q + 1 + (p.shorter + 1))) p.turns
    × InTime q ps

abbrev pub timed : List Play → List Command
timed [] = []
timed (p ∷ ps) = keyer_timed (pos (suc p.shorter)) ∷ timed ps

-- The thread waits for nothing, for an older release, or for the one that is scheduled.
abbrev pub Waits : Timer → RemoteClient → Type 0
Waits idle r = Unit {0}
Waits (armed tok deadline) r = (tok ≤ r.token) × ((tok < r.token) ⊎ (deadline ≡ r.deactivation_at))
Waits ended r = ⊥

-- A connected client, with the MOX as given, whose tokens do not wrap around in the next `left`
-- elements, and its thread.
pub record Live (active : Bool) (q left : ℕ) (timer : Timer) (r : RemoteClient) : Type 0 where
  pub running : r.running ≡ true
  pub opened : is_open r.socket_fd ≡ true
  pub on : r.mox_active ≡ active
  pub going : r.stop_timer ≡ false
  pub delay : r.release_delay ≡ pos (suc q)
  pub waits : Waits timer r
  pub tokens : r.token + 2 * left < 2 ^ 64

-- The client after an element of s + 1 ms.
abbrev pub keyed : ℕ → ℕ → ℕ → RemoteClient → RemoteClient
keyed q s now r = record r {
  scheduled = true;
  deactivation_at = now + (q + 1 + (s + 1));
  token = r.token + 2;
  wire = r.wire ++ keyer_timed (pos (suc s)) ∷ [];
  sends = suc r.sends;
}

-- When the release is due, after the last of the elements.
abbrev pub due : ℕ → Play → List Play → ℕ
due q p [] = p.now + (q + 1 + (p.shorter + 1))
due q p (p' ∷ ps) = due q p' ps

-- The turns left the client alone.
abbrev Turned : ℕ → ℕ → RemoteClient → Timer × RemoteClient → Type 0
Turned q left r s = (s.1 ≡ r) × Live true q left s.0 r

-- The client with its MOX switched on.
abbrev pub activated : RemoteClient → RemoteClient
activated r = record r { mox_active = true; wire = r.wire ++ trx true ∷ []; sends = suc r.sends }

-- The commands went out, and the release is due then.
abbrev pub Played : ℕ → List Command → ℕ → RemoteClient → Timer × RemoteClient → Type 0
Played q commands at r s =
    (s.1.wire ≡ r.wire ++ commands)
    × Live true q 0 s.0 s.1
    × (s.1.scheduled ≡ true)
    × (s.1.deactivation_at ≡ at)

module _ (net : Network) (takes : (n : ℕ) (bytes : List ℕ) → net.accepts n bytes ≡ true) where
  -- A turn of the thread before the deadline leaves the client as it is.
  turn-Live :
      (q left t : ℕ) (timer : Timer) (r : RemoteClient)
      → Live true q left timer r
      → r.scheduled ≡ true
      → t < r.deactivation_at
      → ((timer_step net t timer r).1 ≡ r) × Live true q left (timer_step net t timer r).0 r
  unfolding timer_step
  turn-Live q left t idle r v s h = ground arith
  turn-Live q left t (armed tok deadline) r v s h = ground arith
  turn-Live q left t ended r v s h = ground arith

  turn_all-Live :
      (q left : ℕ) (ts : List ℕ) (timer : Timer) (r : RemoteClient)
      → Live true q left timer r
      → r.scheduled ≡ true
      → Before r.deactivation_at ts
      → Turned q left r (turn_all net ts (timer, r))
  unfolding turn_all
  turn_all-Live q left [] timer r v s b = (refl, v)
  turn_all-Live q left (t ∷ ts) timer r v s b =
      let (same, live) = turn-Live q left t timer r v s b.0 in
      let rest = turn_all-Live q left ts (timer_step net t timer r).0 r live s b.1 in ground arith

  -- An element that comes while the MOX is active goes out, and the release moves on.
  run_cw-Live :
      (q left s now : ℕ) (b : Bool) (timer : Timer) (r : RemoteClient)
      → Live true q (suc left) timer r
      → now + (q + 1 + (s + 1)) < 2 ^ 64
      → (run_cw net (item_of b) (pos (suc s)) now r ≡ keyed q s now r)
        × Live true q left timer (keyed q s now r)
  unfolding run_cw send_duration send_keyer_command ensure_mox send_command_line release_after
      schedule_mox_release ◌+ℤ◌ to_u64
  run_cw-Live q left s now true timer r v fits = ground (
    arith,
    send_line-sent net (keyer_timed (pos (suc s)))
        (record r { scheduled = false; token = u64 (r.token + 1) }) takes,
  )
  run_cw-Live q left s now false timer r v fits = ground (
    arith,
    send_line-sent net (keyer_timed (pos (suc s)))
        (record r { scheduled = false; token = u64 (r.token + 1) }) takes,
  )

  run_cw-first :
      (q left s now : ℕ) (b : Bool) (timer : Timer) (r : RemoteClient)
      → Live false q (suc left) timer r
      → now + (q + 1 + (s + 1)) < 2 ^ 64
      → (run_cw net (item_of b) (pos (suc s)) now r ≡ keyed q s now (activated r))
        × Live true q left timer (keyed q s now (activated r))
  unfolding run_cw send_duration send_keyer_command ensure_mox activate_mox send_command_line
      release_after schedule_mox_release ◌+ℤ◌ to_u64
  run_cw-first q left s now true timer r v fits = ground (
    arith,
    send_line-sent net (trx true) (record r { scheduled = false; token = u64 (r.token + 1) }) takes,
    send_line-sent net (keyer_timed (pos (suc s)))
        (record (activated r) { scheduled = false; token = u64 (r.token + 1) }) takes,
  )
  run_cw-first q left s now false timer r v fits = ground (
    arith,
    send_line-sent net (trx true) (record r { scheduled = false; token = u64 (r.token + 1) }) takes,
    send_line-sent net (keyer_timed (pos (suc s)))
        (record (activated r) { scheduled = false; token = u64 (r.token + 1) }) takes,
  )

  -- The elements behind the first.
  play_all-Live :
      (q : ℕ) (p₀ : Play) (ps : List Play) (timer : Timer) (r : RemoteClient)
      → Live true q (length ps) timer r
      → r.scheduled ≡ true
      → r.deactivation_at ≡ due q p₀ []
      → InTime q ps
      → Played q (timed ps) (due q p₀ ps) r (play_all net ps (timer, r))
  unfolding play_all
  play_all-Live q p₀ [] timer r v s d t = (sym (append-nil r.wire), v, s, d)
  play_all-Live q p₀ (p ∷ ps) timer r v s d t =
      let r₁ = keyed q p.shorter p.now r in
      let (went, live) = run_cw-Live q (length ps) p.shorter p.now p.is_dah timer r v t.0 in
      let (same, still) = turn_all-Live q (length ps) p.turns timer r₁ live refl t.1 in
      let rest = play_all-Live q p ps (turn_all net p.turns (timer, r₁)).0 r₁ still refl refl t.2 in
      ground (arith, append_assoc r.wire (keyer_timed (pos (suc p.shorter)) ∷ []) (timed ps))

  -- From a client whose MOX is off.
  pub play_all-Played :
      (q : ℕ) (p : Play) (ps : List Play) (timer : Timer) (r : RemoteClient)
      → Live false q (suc (length ps)) timer r
      → InTime q (p ∷ ps)
      → Played q (trx true ∷ timed (p ∷ ps)) (due q p ps) r (play_all net (p ∷ ps) (timer, r))
  unfolding play_all
  play_all-Played q p ps timer r v t =
      let r₁ = keyed q p.shorter p.now (activated r) in
      let (went, live) = run_cw-first q (length ps) p.shorter p.now p.is_dah timer r v t.0 in
      let (same, still) = turn_all-Live q (length ps) p.turns timer r₁ live refl t.1 in
      let rest = play_all-Live q p ps (turn_all net p.turns (timer, r₁)).0 r₁ still refl refl t.2 in
      ground (
        arith,
        append_assoc r.wire (trx true ∷ []) (keyer_timed (pos (suc p.shorter)) ∷ []),
        append_assoc r.wire (trx true ∷ keyer_timed (pos (suc p.shorter)) ∷ []) (timed ps),
      )

  -- On a network that takes every frame, for a connected client with the MOX off, a release delay
  -- of q + 1 ms and tokens that do not wrap around: if each of one or more elements, each at least
  -- 1 ms long, comes while the thread that switches the MOX off runs only before the release that the
  -- element before it scheduled is due, and the clock stays in range, then after the last element
  -- and those turns the MOX is on, and exactly `trx true` and the elements with their lengths, in
  -- order, went out: never a `trx false` between them.
  pub mox_held :
      (q : ℕ) (p : Play) (ps : List Play) (timer : Timer) (r : RemoteClient)
      → Live false q (suc (length ps)) timer r
      → InTime q (p ∷ ps)
      → ((play_all net (p ∷ ps) (timer, r)).1.mox_active ≡ true)
        × ((play_all net (p ∷ ps) (timer, r)).1.wire ≡ r.wire ++ trx true ∷ timed (p ∷ ps))
  mox_held q p ps timer r v t =
      let played = play_all-Played q p ps timer r v t in (played.1.on, played.0)
