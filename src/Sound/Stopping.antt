-- ===== src/Sound/Stopping.antt =====
-- The end of a tone (App/sound/CwGenerator.cpp): release, then silence.
use cwkeyer.Base.{ℕ, zero, suc, ◌-◌, ◌≤◌, ◌<◌, ◌≡◌, refl, true, false, List, [], ◌∷◌, arith}
use cwkeyer.Sound.Generator.{Sample, silence, CwGenerator, stop_stream, next_sample, generate_chunk}

abbrev pub silences : ℕ → List Sample
silences zero = []
silences (suc n) = silence ∷ silences n

-- A generator that stops, with `left` samples of the release to come.
pub record IsFading (left : ℕ) (g : CwGenerator) : Type 0 where
  pub fades : g.stopping ≡ true
  pub since : g.stop_sample ≤ g.sample_index
  pub remains : g.release_samples - (g.sample_index - g.stop_sample) ≡ left

pub stop_stream-IsFading :
    (g : CwGenerator) → g.stopping ≡ false → IsFading g.release_samples (stop_stream g)
unfolding stop_stream
stop_stream-IsFading g h = ground arith

next_sample-IsFading :
    (left : ℕ) (g : CwGenerator)
    → IsFading (suc left) g
    → IsFading left (next_sample g).1 × ((next_sample g).1.stopped ≡ g.stopped)
unfolding next_sample
next_sample-IsFading left g f = ground arith

next_sample-silence :
    (g : CwGenerator)
    → IsFading 0 g
    → IsFading 0 (next_sample g).1
      × ((next_sample g).0 ≡ silence)
      × ((next_sample g).1.stopped ≡ true)
unfolding next_sample
next_sample-silence g f = ground arith

pub generate_chunk-IsFading :
    (n left : ℕ) (g : CwGenerator) → IsFading left g → IsFading (left - n) (generate_chunk n g).1
unfolding generate_chunk
generate_chunk-IsFading zero left g f = ground arith
generate_chunk-IsFading (suc n) zero g f =
    let rest = generate_chunk-IsFading n 0 (next_sample g).1 (next_sample-silence g f).0 in
    ground arith
generate_chunk-IsFading (suc n) (suc left) g f =
    let rest = generate_chunk-IsFading n left (next_sample g).1 (next_sample-IsFading left g f).0 in
    ground arith

generate_chunk-silences :
    (n : ℕ) (g : CwGenerator) → IsFading 0 g → (generate_chunk n g).0 ≡ silences n
unfolding generate_chunk
generate_chunk-silences zero g f = refl
generate_chunk-silences (suc n) g f =
    let quiet = next_sample-silence g f in
    let rest = generate_chunk-silences n (next_sample g).1 quiet.0 in ground arith

next_sample-stopped : (g : CwGenerator) → g.stopped ≡ true → (next_sample g).1.stopped ≡ true
unfolding next_sample
next_sample-stopped g h = ground arith

stays_stopped : (n : ℕ) (g : CwGenerator) → g.stopped ≡ true → (generate_chunk n g).1.stopped ≡ true
unfolding generate_chunk
stays_stopped zero g h = h
stays_stopped (suc n) g h = stays_stopped n (next_sample g).1 (next_sample-stopped g h)

pub generate_chunk-stopped :
    (n : ℕ) (g : CwGenerator) → IsFading 0 g → 0 < n → (generate_chunk n g).1.stopped ≡ true
unfolding generate_chunk
generate_chunk-stopped zero g f h = absurd (omega arith)
generate_chunk-stopped (suc n) g f h = stays_stopped n (next_sample g).1 (next_sample-silence g f).2
