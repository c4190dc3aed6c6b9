-- ===== src/Sound/Tests.antt =====
-- The sound at 44100 Hz: runs, and the theorems at concrete states.
use cwkeyer.Base.{ℕ, ◌+◌, ◌≡◌, refl, true, false, some, none, List, [], ◌∷◌, arith, leb, ◌*◌, ◌/◌}
use cwkeyer.Base.Int.{pos, pos_part}
use cwkeyer.Sound.{Audio, Sound, Settings, AudioSink, PushTimer}
use cwkeyer.Sound.Generator.{
  silence, tone, CwGenerator, generate_chunk, next_sample, attack_env, q_min, stop_stream,
}
use cwkeyer.Sound.Envelope.{generate_chunk-AllInRange, AllInRange}
use cwkeyer.Sound.Events.{
  Event, plays, starts_cw, stops_cw, ticks, resets, handle_all, on_stop_cw_requested,
}
use cwkeyer.Sound.Safety.{SoundInv, handle_all-SoundInv}
use cwkeyer.Sound.Ending.{IsPushing, IsSilenced, run_ticks, key_up_stops_sink}
use cwkeyer.Sound.Muted.{failed_start_mutes}

-- Doubles are read as milliseconds.
abbrev audio : Audio ℕ
audio = record {
  supports = λ device rate. true;
  starts = λ n. leb n 7;
  samples_in = λ rate ms. rate * ms / 1000;
  seconds = λ ms. pos_part ms;
}

abbrev settings : Settings ℕ
settings = record {
  device = 1;
  frequency = 650;
  sample_rate = 44100;
  amplitude = 1;
  attack_time = 5;
  release_time = 5;
}

-- In the middle of an attack of two samples, with a release of three.
abbrev generator : CwGenerator
generator = record {
  attack_samples = 2;
  release_samples = 3;
  sample_index = 1;
  stopping = false;
  stopped = false;
  stop_sample = 0;
}

fades_out :
    (generate_chunk 4 (stop_stream generator)).0
    ≡ tone (record { num = 1; den = 2 }) 1
      ∷ tone (record { num = 2; den = 3 }) 2
      ∷ tone (record { num = 1; den = 3 }) 3
      ∷ silence
      ∷ []
unfolding generate_chunk stop_stream next_sample attack_env q_min
fades_out = refl

abbrev first_sink : AudioSink
first_sink = record { id = 0; running = true }

abbrev push_timer : PushTimer
push_timer = record { num_samples = 882; idle_ticks = 40 }

abbrev quiet : Sound ℕ
quiet = record {
  sink = some (record { id = 0; running = false });
  active_buffer = none;
  cw_generator = some generator;
  device = 1;
  enabled = true;
  sample_rate = 44100;
  attack_samples = 2;
  release_samples = 3;
  frequency = 650;
  amplitude = 1;
  attack_time = 5;
  release_time = 5;
  cache_sound = [];
  sink_device = none;
  made_with = none;
  push_timer = none;
  sinks = 1;
  starts = 0;
  written = [];
}

abbrev pushing : Sound ℕ
pushing = record quiet {
  sink = some first_sink;
  sink_device = some 0;
  made_with = none;
  push_timer = some push_timer;
  starts = 1;
}

pushing-IsPushing : IsPushing first_sink push_timer generator pushing
pushing-IsPushing = record { sink = refl; device = refl; timer = refl; generator = refl }

generate_chunk-AllInRange_example : AllInRange (generate_chunk 500 generator).0
generate_chunk-AllInRange_example = generate_chunk-AllInRange 500 generator

-- A key press, a tick, a reset in the middle of the tone, a tick, and a tone.
abbrev some_events : List (Event ℕ)
some_events =
    starts_cw ∷ ticks ∷ resets settings (some true) ∷ ticks ∷ stops_cw ∷ plays (pos 60) ∷ []

handle_all-SoundInv_example :
    (s : Sound ℕ) × (handle_all audio some_events quiet ≡ some s) × SoundInv s
handle_all-SoundInv_example = handle_all-SoundInv audio some_events quiet tt

key_up_stops_sink_example :
    IsSilenced first_sink (run_ticks (1 + 100) (on_stop_cw_requested pushing))
key_up_stops_sink_example =
    key_up_stops_sink 1 first_sink push_timer generator pushing pushing-IsPushing refl (omega arith)
      (omega arith) (omega arith)

-- The eighth start gives no device.
abbrev worn : Sound ℕ
worn = record quiet { starts = 8 }

failed_start_mutes_example :
    (s : Sound ℕ) × (handle_all audio (starts_cw ∷ ticks ∷ stops_cw ∷ starts_cw ∷ ticks ∷ []) worn
      ≡ some s)
    × (s.starts ≡ 9)
    × (s.written ≡ [])
failed_start_mutes_example =
    failed_start_mutes audio generator (record { id = 0; running = false })
      (ticks ∷ stops_cw ∷ starts_cw ∷ ticks ∷ []) worn refl refl refl refl refl refl tt
