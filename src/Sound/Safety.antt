-- ===== src/Sound/Safety.antt =====
-- The pointers of App/sound/Sound.cpp in every order of its slots.
use cwkeyer.Base.{ℕ, ◌≡◌, refl, Bool, List, [], ◌∷◌, Option, none, some, arith}
use cwkeyer.Base.Int.{ℤ}
use cwkeyer.Sound.{
  Audio, AudioSink, PushTimer, Sound, Settings, stop, stop_sink, set_enabled, init_with_device,
  configured, on_play_requested, on_start_cw_requested, look_up, start_pull, start_push, start_cw,
  start_cw_with,
}
use cwkeyer.Sound.Generator.{Sample, CwGenerator}
use cwkeyer.Sound.Events.{
  Event, plays, starts_cw, stops_cw, ticks, enables, resets, handle, handle_all, tick, timeout,
  handle_timeout, write_chunk, count_idle, halt_sink, is_own, on_stop_cw_requested, reset_sound,
  apply_enabled,
}

-- A sink is there, with a generator; the device written to is the sink's own, and its timer runs;
-- a tone of a fixed length and a keyed tone are never played at once.
abbrev pub Wired :
    Option AudioSink
    → Option CwGenerator
    → Option ℕ
    → Option PushTimer
    → Option (List Sample)
    → Type 0
Wired none g d t b = ⊥
Wired (some k) none d t b = ⊥
Wired (some k) (some g) none none b = Unit {0}
Wired (some k) (some g) none (some t) b = b ≡ none
Wired (some k) (some g) (some i) none b = ⊥
Wired (some k) (some g) (some i) (some t) b = (i ≡ k.id) × (b ≡ none)

abbrev pub SoundInv : {D : Type 0} → Sound D → Type 0
SoundInv s = Wired s.sink s.cw_generator s.sink_device s.push_timer s.active_buffer

-- A handler that has a result, which is right again.
abbrev pub Keeps : {D : Type 0} → Option (Sound D) → Type 0
Keeps none = ⊥
Keeps (some s) = SoundInv s

module _ {D : Type 0} where
  stop-SoundInv : (s : Sound D) → SoundInv s → SoundInv (stop s)
  unfolding stop stop_sink
  stop-SoundInv s v = ground arith

  stop-quiet : (s : Sound D) → SoundInv s → (stop s).sink_device ≡ none
  unfolding stop stop_sink
  stop-quiet s v = ground arith

  init_with_device-SoundInv :
      (audio : Audio D) (c : Settings D) (s : Sound D)
      → SoundInv s
      → s.sink_device ≡ none
      → SoundInv (init_with_device audio c s).0
  unfolding init_with_device configured
  init_with_device-SoundInv audio c s v h = ground arith

  on_stop-SoundInv : (s : Sound D) → SoundInv s → SoundInv (on_stop_cw_requested s)
  unfolding on_stop_cw_requested
  on_stop-SoundInv s v = ground arith

  on_play-Keeps :
      (audio : Audio D) (d : ℤ) (s : Sound D) → SoundInv s → Keeps (on_play_requested audio d s)
  unfolding on_play_requested stop stop_sink look_up start_pull
  on_play-Keeps audio d s v = ground arith

  on_start-Keeps :
      (audio : Audio D) (s : Sound D) → SoundInv s → Keeps (on_start_cw_requested audio s)
  unfolding on_start_cw_requested start_cw_with start_cw stop stop_sink start_push
  on_start-Keeps audio s v = ground arith

  tick-Keeps : (s : Sound D) → SoundInv s → Keeps (tick s)
  unfolding tick timeout handle_timeout write_chunk is_own count_idle halt_sink
  tick-Keeps s v = ground arith

  reset_sound-SoundInv :
      (audio : Audio D) (c : Settings D) (saved : Option Bool) (s : Sound D)
      → SoundInv s
      → SoundInv (reset_sound audio c saved s).0
  unfolding reset_sound apply_enabled set_enabled
  reset_sound-SoundInv audio c saved s v =
      ground
        (arith, init_with_device-SoundInv audio c (stop s) (stop-SoundInv s v) (stop-quiet s v))

  Keeps-some : (o : Option (Sound D)) → Keeps o → (s : Sound D) × (o ≡ some s) × SoundInv s
  Keeps-some none v = absurd v
  Keeps-some (some s) v = (s, refl, v)

  handle-Keeps :
      (audio : Audio D) (e : Event D) (s : Sound D) → SoundInv s → Keeps (handle audio e s)
  unfolding handle set_enabled
  handle-Keeps audio (plays d) s v = on_play-Keeps audio d s v
  handle-Keeps audio starts_cw s v = on_start-Keeps audio s v
  handle-Keeps audio stops_cw s v = on_stop-SoundInv s v
  handle-Keeps audio ticks s v = tick-Keeps s v
  handle-Keeps audio (enables b) s v = v
  handle-Keeps audio (resets c saved) s v = reset_sound-SoundInv audio c saved s v

  -- Once initWithDevice has succeeded, no order of tones, key presses, ticks of the push timer, changes
  -- of the settings and resets, failed ones included, makes a slot use a null pointer or the push
  -- device of a sink that was deleted: every slot returns, with the sink and the generator there, the
  -- push device the sink's own, and never a tone of a fixed length beside a keyed one.
  pub handle_all-SoundInv :
      (audio : Audio D) (es : List (Event D)) (s : Sound D)
      → SoundInv s
      → (s' : Sound D) × (handle_all audio es s ≡ some s') × SoundInv s'
  unfolding handle_all
  handle_all-SoundInv audio [] s v = (s, refl, v)
  handle_all-SoundInv audio (e ∷ es) s v =
      let (s₁, e₁, v₁) = Keeps-some (handle audio e s) (handle-Keeps audio e s v) in
      let (s₂, e₂, v₂) = handle_all-SoundInv audio es s₁ v₁ in (s₂, rw e₁ e₂, v₂)
