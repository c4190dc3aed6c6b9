-- ===== src/Sound/Events.antt =====
-- The push timer of App/sound/Sound.cpp, the end of a tone, GuiConnector::resetSound
-- (App/gui/GuiConnector.cpp), and what Qt's event loop can run.
use cwkeyer.Base.{
  ℕ, suc, Bool, true, false, List, [], ◌∷◌, ◌++◌, Option, none, some, leb, ◌==◌, if◌then◌else◌,
  ◌>>=◌,
}
use cwkeyer.Base.Int.{ℤ}
use cwkeyer.Sound.{
  Audio, AudioSink, PushTimer, Sound, Settings, stop, set_enabled, init_with_device,
  on_play_requested, on_start_cw_requested,
}
use cwkeyer.Sound.Generator.{CwGenerator, stop_stream, generate_chunk}

-- m_sinkDevice->write(chunk), where the device belongs to the sink number i
unfoldable pub is_own : ℕ → Option AudioSink → Bool
is_own i none = false
is_own i (some k) = i == k.id

-- m_sink->stop() at the end of the handler
unfoldable pub halt_sink : Option AudioSink → Option AudioSink
halt_sink none = none
halt_sink (some k) = some (record k { running = false })

-- What runs in the event loop.
pub data Event (D : Type 0) : Type 0 where
  plays : ℤ → Event D
  starts_cw : Event D
  stops_cw : Event D
  ticks : Event D
  enables : Bool → Event D
  resets : Settings D → Option Bool → Event D

module _ {D : Type 0} where
  -- onStopCwRequested
  unfoldable pub on_stop_cw_requested : Sound D → Sound D
  on_stop_cw_requested s = record s {
    cw_generator = elim s.cw_generator [ none ↦ none | some g ↦ some (stop_stream g) ];
  }

  -- What the handler does once the chunk is written.
  unfoldable pub count_idle : PushTimer → CwGenerator → Sound D → Sound D
  unfolding halt_sink
  count_idle timer g s =
      if g.stopped
      then (if leb 100 (suc timer.idle_ticks)
          then record s { push_timer = none; sink_device = none; sink = halt_sink s.sink }
          else record s { push_timer = some (record timer { idle_ticks = suc timer.idle_ticks }) })
      else record s { push_timer = some (record timer { idle_ticks = 0 }) }

  unfoldable pub write_chunk : PushTimer → Option CwGenerator → ℕ → Sound D → Option (Sound D)
  unfolding is_own count_idle
  write_chunk timer none i s = none
  write_chunk timer (some g) i s =
      let (chunk, g') = generate_chunk timer.num_samples g in
      let written = record s { cw_generator = some g'; written = s.written ++ chunk } in
      if is_own i s.sink then some (count_idle timer g' written) else none

  -- The timer's handler, when the timer runs.
  unfoldable pub handle_timeout : PushTimer → Option ℕ → Sound D → Option (Sound D)
  handle_timeout timer none s = some s
  handle_timeout timer (some i) s = write_chunk timer s.cw_generator i s

  unfoldable pub timeout : Option PushTimer → Sound D → Option (Sound D)
  timeout none s = some s
  timeout (some timer) s = handle_timeout timer s.sink_device s

  unfoldable pub tick : Sound D → Option (Sound D)
  unfolding timeout
  tick s = timeout s.push_timer s

  -- What the settings file says about the sound: whether the value is there, and what it is.
  unfoldable pub apply_enabled : Option Bool → Sound D → Sound D
  unfolding set_enabled
  apply_enabled none s = set_enabled false s
  apply_enabled (some b) s = set_enabled b s

  -- resetSound; where initWithDevice throws, the rest of it is not run, and the second component is
  -- false.
  unfoldable pub reset_sound : Audio D → Settings D → Option Bool → Sound D → Sound D × Bool
  reset_sound audio c saved s =
      let (s₁, done) = init_with_device audio c (stop s) in
      if done then (apply_enabled saved s₁, true) else (s₁, false)

  unfoldable pub handle : Audio D → Event D → Sound D → Option (Sound D)
  handle audio (plays d) s = on_play_requested audio d s
  handle audio starts_cw s = on_start_cw_requested audio s
  handle audio stops_cw s = some (on_stop_cw_requested s)
  handle audio ticks s = tick s
  handle audio (enables b) s = some (set_enabled b s)
  handle audio (resets c saved) s = some (reset_sound audio c saved s).0

  unfoldable pub handle_all : Audio D → List (Event D) → Sound D → Option (Sound D)
  handle_all audio [] s = some s
  handle_all audio (e ∷ es) s = handle audio e s >>= handle_all audio es
