-- ===== src/Sound.antt =====
-- App/sound/Sound.cpp, Sound.h: the side tone. Qt's sink, its state and its pointers.
-- The slots run one after the other in Qt's event loop; a slot that uses a null pointer, or the push
-- device of a sink that was deleted, has no result (`none`). `Audio` is Qt Multimedia and the
-- arithmetic on doubles. The samples are those of Generator; the logger is left out.
pub mod Generator
pub mod Envelope
pub mod Stopping
pub mod Events
pub mod Safety
pub mod Playing
pub mod Muted
pub mod Ending
mod Tests
use cwkeyer.Base.{
  ℕ, zero, suc, ◌+◌, ◌-◌, ◌*◌, ◌/◌, Bool, true, false, ◌&&◌, not, List, [], ◌∷◌, ◌++◌, Option, none,
  some, ltb, leb, ◌==◌, if◌then◌else◌,
}
use cwkeyer.Base.Int.{ℤ}
use cwkeyer.Usb.Device.{int_eq}
use Generator.{Sample, tone, CwGenerator, new_generator, start_stream, stop_stream, generate_chunk}

-- The device and the rate that isFormatSupported accepts, whether the n-th QAudioSink::start gives a
-- device to write to (else a null pointer), the number of samples in so many seconds, cut to an int,
-- and the seconds in so many milliseconds.
pub record Audio (D : Type 0) : Type 0 where
  pub supports : ℕ → ℕ → Bool
  pub starts : ℕ → Bool
  pub samples_in : ℕ → D → ℕ
  pub seconds : ℤ → D

-- A QAudioSink: which one it is, and whether its state differs from StoppedState.
pub record AudioSink : Type 0 where
  pub id : ℕ
  pub running : Bool

-- The timer that writes chunks, with what its handler captures.
pub record PushTimer : Type 0 where
  pub num_samples : ℕ
  pub idle_ticks : ℕ

-- `sinks` and `starts` count the sinks made and the calls of their start, `written` is what the push
-- devices got. `sink_device` is the number of the sink that the device belongs to. `made_with` is the
-- device, the frequency and the amplitude that the sink and the generator were made with.
pub record Sound (D : Type 0) : Type 0 where
  pub sink : Option AudioSink
  pub active_buffer : Option (List Sample)
  pub cw_generator : Option CwGenerator
  pub device : ℕ
  pub enabled : Bool
  pub sample_rate : ℕ
  pub attack_samples : ℕ
  pub release_samples : ℕ
  pub frequency : D
  pub amplitude : D
  pub attack_time : D
  pub release_time : D
  pub cache_sound : List (ℤ × List Sample)
  pub sink_device : Option ℕ
  pub push_timer : Option PushTimer
  pub sinks : ℕ
  pub starts : ℕ
  pub written : List Sample
  pub made_with : Option (ℕ × D × D)

-- The arguments of initWithDevice.
pub record Settings (D : Type 0) : Type 0 where
  pub device : ℕ
  pub frequency : D
  pub sample_rate : ℕ
  pub amplitude : D
  pub attack_time : D
  pub release_time : D

-- std::map::contains and operator[]
unfoldable pub cached : ℤ → List (ℤ × List Sample) → Option (List Sample)
cached d [] = none
cached d ((e, b) ∷ rest) = let more = cached d rest in if int_eq d e then some b else more

-- generateBuffer, from sample i on, with `left` samples to come.
unfoldable pub generate_from : ℕ → ℕ → ℕ → ℕ → ℕ → List Sample
generate_from attack release total i zero = []
generate_from attack release total i (suc left) =
    let rest = generate_from attack release total (suc i) left in
    if ltb i attack && ltb 0 attack
    then tone (record { num = i; den = attack }) i ∷ rest
    else if leb total (i + release) && ltb 0 release
    then tone (record { num = total - i; den = release }) i ∷ rest
    else tone (record { num = 1; den = 1 }) i ∷ rest

-- The initialisers of the class, from the null device and zero as a double.
unfoldable pub new_sound : {D : Type 0} → ℕ → D → Sound D
new_sound null_device nought = record {
  sink = none;
  active_buffer = none;
  cw_generator = none;
  device = null_device;
  enabled = true;
  sample_rate = 44100;
  attack_samples = 0;
  release_samples = 0;
  frequency = nought;
  amplitude = nought;
  attack_time = nought;
  release_time = nought;
  cache_sound = [];
  sink_device = none;
  push_timer = none;
  sinks = 0;
  starts = 0;
  written = [];
  made_with = none;
}

-- `m_sink && m_sink->state() != QAudio::StoppedState`, and m_sink->stop()
unfoldable pub stop_sink : Option AudioSink → Option AudioSink
stop_sink none = none
stop_sink (some s) = if s.running then some (record s { running = false }) else some s

module _ {D : Type 0} where
  -- stop
  unfoldable pub stop : Sound D → Sound D
  unfolding stop_sink
  stop s = record s {
    push_timer = none;
    sink_device = elim s.push_timer [ none ↦ s.sink_device | some timer ↦ none ];
    sink = stop_sink s.sink;
    active_buffer = none;
    cache_sound = [];
  }

  unfoldable pub set_enabled : Bool → Sound D → Sound D
  set_enabled enable s = record s { enabled = enable }

  module _ (audio : Audio D) where
    -- What initWithDevice stores before it asks for the format.
    unfoldable pub configured : Settings D → Sound D → Sound D
    configured c s = record s {
      device = c.device;
      frequency = c.frequency;
      sample_rate = c.sample_rate;
      amplitude = c.amplitude;
      attack_time = c.attack_time;
      release_time = c.release_time;
      attack_samples = audio.samples_in c.sample_rate c.attack_time;
      release_samples = audio.samples_in c.sample_rate c.release_time;
    }

    -- initWithDevice; the second component is false where it throws.
    unfoldable pub init_with_device : Settings D → Sound D → Sound D × Bool
    unfolding configured new_generator
    init_with_device c s =
        let s₁ = configured c s in
        if not (audio.supports c.device c.sample_rate) then (s₁, false) else (
          record s₁ {
            sink = some (record { id = s.sinks; running = false });
            sinks = suc s.sinks;
            cw_generator = some (new_generator s₁.attack_samples s₁.release_samples);
            cache_sound = [];
            made_with = some (c.device, c.frequency, c.amplitude);
          },
          true,
        )

    -- generateBuffer
    unfoldable pub generate_buffer : D → Sound D → List Sample
    unfolding generate_from
    generate_buffer duration s =
        let total = audio.samples_in s.sample_rate duration in
        generate_from s.attack_samples s.release_samples total 0 total

    -- `m_cacheSound[duration] = generateBuffer(...)` where the cache lacks it, and what it then holds.
    unfoldable pub look_up : ℤ → Sound D → List Sample × Sound D
    look_up duration s = elim (cached duration s.cache_sound) [
      | some b ↦ (b, s)
      | none ↦ (
        generate_buffer (audio.seconds duration) s,
        record s {
          cache_sound = (duration, generate_buffer (audio.seconds duration) s) ∷ s.cache_sound;
        },
      )
    ]

    -- m_sink->start(m_activeBuffer)
    unfoldable pub start_pull : Option AudioSink → Sound D → Option (Sound D)
    start_pull none s = none
    start_pull (some k) s = some (record s {
      sink = some (record k { running = audio.starts s.starts });
      starts = suc s.starts;
    })

    -- onPlayRequested
    unfoldable pub on_play_requested : ℤ → Sound D → Option (Sound D)
    on_play_requested duration s =
        let s₁ = stop s in
        let (samples, s₂) = look_up duration s₁ in
        let s₃ = record s₂ { active_buffer = some samples } in
        let played = start_pull s₃.sink s₃ in if not s.enabled then some s else played

    -- m_sinkDevice = m_sink->start(), and the new timer
    unfoldable pub start_push : Option AudioSink → Sound D → Option (Sound D)
    start_push none s = none
    start_push (some k) s = some (record s {
      sink = some (record k { running = audio.starts s.starts });
      starts = suc s.starts;
      sink_device = if audio.starts s.starts then some k.id else none;
      push_timer = some (record { num_samples = s.sample_rate * 20 / 1000; idle_ticks = 0 });
    })

    -- onStartCwRequested, once the generator is there
    unfoldable pub start_cw : CwGenerator → Option PushTimer → Sound D → Option (Sound D)
    start_cw g (some timer) s = some (record s { cw_generator = some (start_stream g) })
    start_cw g none s =
        let s₁ = stop (record s { cw_generator = some (start_stream g) }) in start_push s₁.sink s₁

    unfoldable pub start_cw_with : Option CwGenerator → Sound D → Option (Sound D)
    start_cw_with none s = some s
    start_cw_with (some g) s = start_cw g s.push_timer s

    -- onStartCwRequested
    unfoldable pub on_start_cw_requested : Sound D → Option (Sound D)
    on_start_cw_requested s =
        let started = start_cw_with s.cw_generator s in if not s.enabled then some s else started
