-- ===== src/Remote/Events.antt =====
-- RemoteClient (App/remote/RemoteClient.cpp) under any sequence of calls and turns of its thread. stop
-- takes m_moxMutex three times; each part of it, with what follows up to the next, is a step, and the
-- keyer's calls may come between them. start calls stop first.
use cwkeyer.Base.{
  ℕ, ◌≡◌, refl, if◌then◌else◌, Bool, true, false, List, [], ◌∷◌, Option, none, some, arith,
}
use cwkeyer.Base.Int.{ℤ}
use cwkeyer.Timing.{KeyerItem}
use cwkeyer.Remote.{
  Network, RemoteClient, trx, line_of, new_client, run_cw, start_run_cw, stop_run_cw,
  deactivate_mox, send_line,
}
use cwkeyer.Remote.Frame.{frame}
use cwkeyer.Remote.Session.{
  Timer, idle, armed, ended, Connecting, timer_step, halting, releasing, clearing, ending, refuses,
  start_stopped, stop,
}
use cwkeyer.Remote.Wire.{
  trx_after, MoxInv, trx_after-append, run_cw-MoxInv, send_command-MoxInv, timer_step-MoxInv,
  start_stopped-MoxInv,
}
use cwkeyer.Remote.Stages.{
  LiveInv, run_cw-LiveInv, send_command-LiveInv, timer_step-LiveInv, halting-LiveInv,
  releasing-LiveInv, clearing-LiveInv, ending-MoxInv,
}

-- `proceeds` is the next part of a stop that is at work.
pub data Event : Type 0 where
  runs : KeyerItem → ℤ → ℕ → Event
  key : Bool → ℕ → Event
  wakes : ℕ → Event
  stops : Event
  starts : List ℕ → ℤ → ℤ → Connecting → Event
  proceeds : Event

-- How far a stop has come; with it what a start that has called it goes on with.
pub data Stage : Type 0 where
  calm : Stage
  halted : Bool → Option (ℤ × Connecting) → Stage
  released : Option (ℤ × Connecting) → Stage
  cleared : Option (ℤ × Connecting) → Stage

-- The thread begins anew with each start that succeeds.
unfoldable pub timer_after : Bool → Timer
timer_after true = idle
timer_after false = ended

module _ (net : Network) where
  -- The next part; the first of them waits for the end of the thread.
  unfoldable pub proceed : Stage → Timer → RemoteClient → Stage × Timer × RemoteClient
  proceed calm t r = (calm, t, r)
  proceed (halted should next) ended r = (released next, ended, releasing net should r)
  proceed (halted should next) idle r = (halted should next, idle, r)
  proceed (halted should next) (armed token at) r = (halted should next, armed token at, r)
  proceed (released next) t r = (cleared next, t, clearing net r)
  proceed (cleared none) t r = (calm, t, ending net r)
  proceed (cleared (some (delay, env))) t r =
      let (r₁, started) = start_stopped net delay env (ending net r) in
      (calm, timer_after started, r₁)

  -- A stop or a start while another is at work does not happen: one thread calls them.
  unfoldable pub begin_stop :
      Option (ℤ × Connecting) → Stage → Timer → RemoteClient → Stage × Timer × RemoteClient
  begin_stop next calm t r = (halted r.mox_active next, t, halting r)
  begin_stop next stage t r = (stage, t, r)

  unfoldable pub step : Event → Stage × Timer × RemoteClient → Stage × Timer × RemoteClient
  unfolding start_run_cw stop_run_cw proceed begin_stop
  step (runs item duration now) (s, t, r) = (s, t, run_cw net item duration now r)
  step (key true now) (s, t, r) = (s, t, start_run_cw net now r)
  step (key false now) (s, t, r) = (s, t, stop_run_cw net now r)
  step (wakes now) (s, t, r) = let (t', r') = timer_step net now t r in (s, t', r')
  step stops (s, t, r) = begin_stop none s t r
  step (starts ip port delay env) (s, t, r) =
      if refuses net ip port then (s, t, r) else begin_stop (some (delay, env)) s t r
  step proceeds (s, t, r) = proceed s t r

  unfoldable pub run : List Event → Stage × Timer × RemoteClient → Stage × Timer × RemoteClient
  run [] s = s
  run (e ∷ es) s = run es (step e s)

  -- What holds outside a stop, and while one is at work.
  abbrev pub StageInv : Stage × Timer × RemoteClient → Type 0
  StageInv (calm, t, r) = MoxInv r
  StageInv (halted should next, t, r) = LiveInv r
  StageInv (released next, t, r) = LiveInv r
  StageInv (cleared next, t, r) = LiveInv r

  -- A step of the client alone keeps both invariants.
  both :
      (s : Stage) (t t' : Timer) (r r' : RemoteClient)
      → (MoxInv r → MoxInv r')
      → (LiveInv r → LiveInv r')
      → StageInv (s, t, r)
      → StageInv (s, t', r')
  both calm t t' r r' f g v = f v
  both (halted should next) t t' r r' f g v = g v
  both (released next) t t' r r' f g v = g v
  both (cleared next) t t' r r' f g v = g v

  ended_client : (r : RemoteClient) → (ending net r).running ≡ false
  unfolding ending
  ended_client r = refl

  proceed-StageInv :
      (s : Stage) (t : Timer) (r : RemoteClient) → StageInv (s, t, r) → StageInv (proceed s t r)
  unfolding proceed
  proceed-StageInv calm t r v = v
  proceed-StageInv (halted should next) ended r v = releasing-LiveInv net should r v
  proceed-StageInv (halted should next) idle r v = v
  proceed-StageInv (halted should next) (armed token at) r v = v
  proceed-StageInv (released next) t r v = clearing-LiveInv net r v
  proceed-StageInv (cleared none) t r v = ending-MoxInv net r v
  proceed-StageInv (cleared (some (delay, env))) t r v =
      start_stopped-MoxInv net delay env (ending net r) (ended_client r) (ending-MoxInv net r v)

  begin_stop-StageInv :
      (next : Option (ℤ × Connecting)) (s : Stage) (t : Timer) (r : RemoteClient)
      → StageInv (s, t, r)
      → StageInv (begin_stop next s t r)
  unfolding begin_stop
  begin_stop-StageInv next calm t r v = halting-LiveInv net r v
  begin_stop-StageInv next (halted should n) t r v = v
  begin_stop-StageInv next (released n) t r v = v
  begin_stop-StageInv next (cleared n) t r v = v

  if-StageInv :
      (b : Bool) (x y : Stage × Timer × RemoteClient)
      → StageInv x
      → StageInv y
      → StageInv (if b then x else y)
  if-StageInv true x y v w = v
  if-StageInv false x y v w = w

  step-StageInv :
      (e : Event) (s : Stage) (t : Timer) (r : RemoteClient)
      → StageInv (s, t, r)
      → StageInv (step e (s, t, r))
  unfolding step
  step-StageInv (runs item duration now) s t r v =
      both s t t r _ (run_cw-MoxInv net item duration now r)
        (run_cw-LiveInv net item duration now r) v
  step-StageInv (key true now) s t r v =
      both s t t r _ (send_command-MoxInv net true now r) (send_command-LiveInv net true now r) v
  step-StageInv (key false now) s t r v =
      both s t t r _ (send_command-MoxInv net false now r) (send_command-LiveInv net false now r) v
  step-StageInv (wakes now) s t r v =
      both s t _ r _ (timer_step-MoxInv net now t r) (timer_step-LiveInv net now t r) v
  step-StageInv stops s t r v = begin_stop-StageInv none s t r v
  step-StageInv (starts ip port delay env) s t r v =
      if-StageInv (refuses net ip port) _ _ v (begin_stop-StageInv (some (delay, env)) s t r v)
  step-StageInv proceeds s t r v = proceed-StageInv s t r v

  run-StageInv :
      (es : List Event) (s : Stage) (t : Timer) (r : RemoteClient)
      → StageInv (s, t, r)
      → StageInv (run es (s, t, r))
  unfolding run
  run-StageInv [] s t r v = v
  run-StageInv (e ∷ es) s t r v =
      let (s', t', r') = step e (s, t, r) in run-StageInv es s' t' r' (step-StageInv e s t r v)

  new_client-MoxInv : MoxInv new_client
  unfolding new_client
  new_client-MoxInv = record {
    wire_inv = record { opened = λ e. cc; follows = λ e. cc; proper = refl };
    pending = λ e _. cc;
  }

  -- After any sequence of elements, key changes, starts, stops, further parts of a stop and turns of the
  -- timer thread, over any network: while no stop is at work and the client runs, the server's
  -- transmitter is on exactly when the client takes the MOX to be active, and then its release is
  -- scheduled. While a stop is at work, with elements and key changes between its parts, the transmitter
  -- is on if the client runs and takes the MOX to be active. At any time every keying command on the
  -- connection found the transmitter on.
  pub run-MoxInv_new : (es : List Event) → StageInv (run es (calm, ended, new_client))
  run-MoxInv_new es = run-StageInv es calm ended new_client new_client-MoxInv

-- If the client runs, in a state that the invariant allows, and the network takes the next frame,
-- stop leaves a client that does not run, with the socket closed, the MOX inactive and nothing
-- scheduled, and the last thing that the server knows is that the transmitter is off.
pub stop_lem :
    (net : Network) (r : RemoteClient)
    → MoxInv r
    → r.running ≡ true
    → net.accepts r.sends (frame (net.mask r.sends) (line_of (trx false))) ≡ true
    → let q = stop net r in
      (q.running ≡ false)
      × (q.socket_fd ≡ none)
      × (q.mox_active ≡ false)
      × (q.scheduled ≡ false)
      × (trx_after false q.wire ≡ false)
unfolding stop releasing clearing ending deactivate_mox send_line
stop_lem net r v on takes =
    (refl, refl, refl, ground arith, ground (arith, trx_after-append false r.wire (trx false)))
