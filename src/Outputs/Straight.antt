-- ===== src/Outputs/Straight.antt =====
-- The straight key: from the calls of IDitDah through Keyer::onStraight (App/keyer/Keyer.cpp) to what
-- the output devices put out.
use mathlib.Core.List.{append_assoc, append-nil}
use cwkeyer.Base.{
  ℕ, ◌≡◌, refl, sym, ap, ◌∙◌, Bool, true, false, List, [], ◌∷◌, ◌++◌, Option, some, arith,
  if◌then◌else◌,
}
use cwkeyer.Paddle.{Call, on_dit, on_dah, on_straight, straight_after, Edges}
use cwkeyer.Keyer.{Keyer, Output, run_cw, start_run_cw, stop_run_cw, sleep_for, enqueue}
use cwkeyer.Keyer
use cwkeyer.Keyer.Calls.{call, calls}
use cwkeyer.Serial.Proxy.{Monitor, Told, dsr_monitor_loop, last_reading, dsr_monitor_loop-Told}
use cwkeyer.Outputs.{KeyerCw, play}

-- What a sequence of calls sends to the devices.
unfoldable pub straight_outputs : List Call → List Output
straight_outputs [] = []
straight_outputs (on_straight pressed ∷ cs) =
    (if pressed then start_run_cw else stop_run_cw) ∷ straight_outputs cs
straight_outputs (_ ∷ cs) = straight_outputs cs

call-log : (c : Call) (k : Keyer) → (call c k).log ≡ k.log ++ straight_outputs (c ∷ [])
unfolding call Keyer.on_dit Keyer.on_dah Keyer.on_straight enqueue straight_outputs
call-log (on_dit pressed) k = ground (arith, append-nil k.log)
call-log (on_dah pressed) k = ground (arith, append-nil k.log)
call-log (on_straight pressed) k = refl

straight_outputs-cons :
    (c : Call) (cs : List Call)
    → straight_outputs (c ∷ cs) ≡ straight_outputs (c ∷ []) ++ straight_outputs cs
unfolding straight_outputs
straight_outputs-cons (on_dit pressed) cs = refl
straight_outputs-cons (on_dah pressed) cs = refl
straight_outputs-cons (on_straight pressed) cs = refl

pub calls-log : (cs : List Call) (k : Keyer) → (calls cs k).log ≡ k.log ++ straight_outputs cs
unfolding calls straight_outputs
calls-log [] k = sym (append-nil k.log)
calls-log (c ∷ cs) k =
    calls-log cs (call c k)
    ∙ rw (call-log c k, append_assoc k.log (straight_outputs (c ∷ [])) (straight_outputs cs))
        (ap (◌++◌ k.log) (sym (straight_outputs-cons c cs)))

-- What a device with a straight key promises: while it is ready, startRunCw keys it, stopRunCw ends
-- that, and it stays ready.
pub record StraightKey {D : Type 0} (cw : KeyerCw D) : Type 1 where
  pub Ready : D → Type 0
  pub keyed : D → Bool
  pub starts :
      (now : ℕ) (d : D)
      → Ready d
      → Ready (cw.start_run_cw now d) × (keyed (cw.start_run_cw now d) ≡ true)
  pub stops :
      (now : ℕ) (d : D)
      → Ready d
      → Ready (cw.stop_run_cw now d) × (keyed (cw.stop_run_cw now d) ≡ false)

module _ {D : Type 0} (cw : KeyerCw D) (key : StraightKey cw) (late : ℕ → ℕ) where
  play-straight_outputs :
      (n now : ℕ) (cs : List Call) (d : D)
      → key.Ready d
      → key.Ready (play cw late n now (straight_outputs cs) d)
        × (key.keyed (play cw late n now (straight_outputs cs) d) ≡ straight_after (key.keyed d) cs)
  unfolding play straight_outputs straight_after
  play-straight_outputs n now [] d r = (r, refl)
  play-straight_outputs n now (on_dit b ∷ cs) d r = play-straight_outputs n now cs d r
  play-straight_outputs n now (on_dah b ∷ cs) d r = play-straight_outputs n now cs d r
  play-straight_outputs n now (on_straight true ∷ cs) d r =
      let (ready, on) = key.starts now d r in
      let (still, known) = play-straight_outputs n now cs (cw.start_run_cw now d) ready in
      (still, known ∙ ap (λ b. straight_after b cs) on)
  play-straight_outputs n now (on_straight false ∷ cs) d r =
      let (ready, off) = key.stops now d r in
      let (still, known) = play-straight_outputs n now cs (cw.stop_run_cw now d) ready in
      (still, known ∙ ap (λ b. straight_after b cs) off)

  -- For a device that keeps the promise of a straight key and is ready, behind a keyer that has sent
  -- nothing yet: if the monitor of the DSR line has told nothing yet, and the device is keyed exactly if
  -- the line was up when it was last read, then after any sequence of readings, failed ones included,
  -- and the calls that the monitor makes of them, the device is ready and is keyed exactly if the line
  -- was up when it was last read.
  pub line_keys_device :
      (n now : ℕ) (rs : List (Option Bool)) (m : Monitor) (k : Keyer) (d : D)
      → key.Ready d
      → k.log ≡ []
      → m.calls ≡ []
      → m.last_dsr ≡ some (key.keyed d)
      → let played = play cw late n now (calls (dsr_monitor_loop rs m).calls k).log d in
        key.Ready played × (key.keyed played ≡ last_reading (key.keyed d) rs)
  unfolding straight_after Edges
  line_keys_device n now rs m k d r quiet untold known =
      let told : Told (key.keyed d) m = record { edges = rw untold tt; known = rw untold known } in
      let (still, last) = dsr_monitor_loop-Told (key.keyed d) (key.keyed d) rs m told known in
      let cs = (dsr_monitor_loop rs m).calls in
      let sent : (calls cs k).log ≡ straight_outputs cs =
        calls-log cs k ∙ ap (λ l. l ++ straight_outputs cs) quiet in
      let (ready, keyed) = play-straight_outputs n now cs d r in rw sent (ready, keyed ∙ last)
