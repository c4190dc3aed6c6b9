-- ===== src/Sound/Muted.antt =====
-- A sink of App/sound/Sound.cpp that gives no device to write to.
use cwkeyer.Base.{ℕ, suc, ◌≡◌, refl, true, false, List, [], ◌∷◌, Option, none, some, arith, ◌>>=◌}
use cwkeyer.Sound.{
  Audio, AudioSink, PushTimer, Sound, stop, stop_sink, on_start_cw_requested, start_push, start_cw,
  start_cw_with,
}
use cwkeyer.Sound.Generator.{Sample, CwGenerator}
use cwkeyer.Sound.Events.{
  Event, plays, starts_cw, stops_cw, ticks, enables, resets, handle, handle_all, tick, timeout,
  handle_timeout, on_stop_cw_requested,
}

-- Key presses, key releases and ticks of the push timer.
abbrev pub IsKeying : {D : Type 0} → List (Event D) → Type 0
IsKeying [] = Unit {0}
IsKeying (starts_cw ∷ es) = IsKeying es
IsKeying (stops_cw ∷ es) = IsKeying es
IsKeying (ticks ∷ es) = IsKeying es
IsKeying (plays d ∷ es) = ⊥
IsKeying (enables b ∷ es) = ⊥
IsKeying (resets c saved ∷ es) = ⊥

abbrev IsThere : Option PushTimer → Type 0
IsThere none = ⊥
IsThere (some t) = Unit {0}

-- A push timer runs without a device, after so many starts and samples.
abbrev IsStuck : {D : Type 0} → ℕ → List Sample → Option (Sound D) → Type 0
IsStuck starts heard none = ⊥
IsStuck starts heard (some s) =
    (s.starts ≡ starts) × (s.written ≡ heard) × (s.sink_device ≡ none) × IsThere s.push_timer

is_stuck :
    {D : Type 0} (starts : ℕ) (heard : List Sample) (o : Option (Sound D))
    → IsStuck starts heard o
    → (s : Sound D) × (o ≡ some s) × IsStuck starts heard (some s)
is_stuck starts heard none h = absurd h
is_stuck starts heard (some s) h = (s, refl, h)

module _ {D : Type 0} (audio : Audio D) (starts : ℕ) (heard : List Sample) where
  starts-IsStuck :
      (s : Sound D)
      → IsStuck starts heard (some s)
      → IsStuck starts heard (on_start_cw_requested audio s)
  unfolding on_start_cw_requested start_cw_with start_cw
  starts-IsStuck s h = ground arith

  stops-IsStuck :
      (s : Sound D)
      → IsStuck starts heard (some s)
      → IsStuck starts heard (some (on_stop_cw_requested s))
  unfolding on_stop_cw_requested
  stops-IsStuck s h = ground arith

  ticks-IsStuck : (s : Sound D) → IsStuck starts heard (some s) → IsStuck starts heard (tick s)
  unfolding tick timeout handle_timeout
  ticks-IsStuck s h = ground arith

  go_on :
      (es : List (Event D)) (o : Option (Sound D))
      → IsKeying es
      → IsStuck starts heard o
      → IsStuck starts heard (o >>= handle_all audio es)
  unfolding handle_all handle
  go_on es none w h = absurd h
  go_on [] (some s) w h = h
  go_on (starts_cw ∷ es) (some s) w h =
      go_on es (on_start_cw_requested audio s) w (starts-IsStuck s h)
  go_on (stops_cw ∷ es) (some s) w h =
      go_on es (some (on_stop_cw_requested s)) w (stops-IsStuck s h)
  go_on (ticks ∷ es) (some s) w h = go_on es (tick s) w (ticks-IsStuck s h)
  go_on (plays d ∷ es) (some s) w h = absurd w
  go_on (enables b ∷ es) (some s) w h = absurd w
  go_on (resets c saved ∷ es) (some s) w h = absurd w

-- With the sound on, a generator and a sink there, and no keyed tone before: if the start of the sink
-- at a key press gives no device, then no later key press starts the sink again and no tick writes a
-- sample, in any order of key presses, key releases and ticks.
pub failed_start_mutes :
    {D : Type 0} (audio : Audio D) (g : CwGenerator) (k : AudioSink) (es : List (Event D))
    (s : Sound D)
    → s.enabled ≡ true
    → s.cw_generator ≡ some g
    → s.sink ≡ some k
    → s.push_timer ≡ none
    → s.sink_device ≡ none
    → audio.starts s.starts ≡ false
    → IsKeying es
    → (s' : Sound D) × (handle_all audio (starts_cw ∷ es) s ≡ some s')
      × (s'.starts ≡ suc s.starts)
      × (s'.written ≡ s.written)
unfolding handle_all handle on_start_cw_requested start_cw_with start_cw stop stop_sink start_push
failed_start_mutes audio g k es s on gen there quiet unplugged fails w =
    let stuck : IsStuck (suc s.starts) s.written (on_start_cw_requested audio s) = ground arith in
    let (s', run, still) =
      is_stuck (suc s.starts) s.written (on_start_cw_requested audio s >>= handle_all audio es)
        (go_on audio (suc s.starts) s.written es (on_start_cw_requested audio s) w stuck) in
    (s', run, still.0, still.1)
