-- ===== src/Sound/Playing.antt =====
-- What App/sound/Sound.cpp plays: the tones of a fixed length, and the end of a keyed tone.
use cwkeyer.Base.{ℕ, zero, suc, ◌+◌, ◌≡◌, true, [], ◌∷◌, Option, none, some, arith}
use cwkeyer.Base.Int.{ℤ}
use cwkeyer.Sound.{
  Audio, AudioSink, Sound, stop, stop_sink, on_play_requested, look_up, start_pull, cached,
  generate_buffer, generate_from,
}
use cwkeyer.Sound.Envelope.{AllInRange}

generate_from-AllInRange :
    (attack release total i left : ℕ)
    → i + left ≡ total
    → AllInRange (generate_from attack release total i left)
unfolding generate_from
generate_from-AllInRange attack release total i zero e = tt
generate_from-AllInRange attack release total i (suc left) e =
    let rest = generate_from-AllInRange attack release total (suc i) left (omega arith) in
    ground arith

-- The tone of d ms is being played, from samples made for this request.
abbrev pub AfterPlay : {D : Type 0} → Audio D → ℤ → Sound D → Option (Sound D) → Type 0
AfterPlay audio d s none = ⊥
AfterPlay audio d s (some s') =
    (s'.active_buffer ≡ some (generate_buffer audio (audio.seconds d) s))
    × (s'.cache_sound ≡ (d, generate_buffer audio (audio.seconds d) s) ∷ [])
    × (s'.push_timer ≡ none)
    × AllInRange (generate_buffer audio (audio.seconds d) s)

module _ {D : Type 0} where
  -- A request to play a tone, with the sound on and a sink there, plays samples that are generated for
  -- it, whatever the cache held before (stop empties it first), and that have envelopes between 0 and
  -- 1; a keyed tone ends.
  play_regenerates :
      (audio : Audio D) (d : ℤ) (k : AudioSink) (s : Sound D)
      → s.enabled ≡ true
      → s.sink ≡ some k
      → AfterPlay audio d s (on_play_requested audio d s)
  unfolding on_play_requested stop stop_sink look_up start_pull cached generate_buffer
  play_regenerates audio d k s on there =
      let total = audio.samples_in s.sample_rate (audio.seconds d) in
      ground (
        arith,
        generate_from-AllInRange s.attack_samples s.release_samples total 0 total (omega arith),
      )
