-- ===== src/Sound/Generator.antt =====
-- App/sound/CwGenerator.cpp, CwGenerator.h: the tone of a straight key, sample by sample.
-- A double that is a quotient of two integers is kept as that quotient; what amplitude, sine and
-- conversion make of it is left out, so a sample is its envelope and its place on the sine. The
-- numbers of samples of attack and release are not negative, and the 64-bit index does not wrap.
use cwkeyer.Base.{
  ℕ, zero, suc, ◌-◌, ◌*◌, Bool, true, false, ◌&&◌, List, [], ◌∷◌, ltb, leb, if◌then◌else◌,
}

pub record Quotient : Type 0 where
  pub num : ℕ
  pub den : ℕ

-- A sample: zero, or the envelope times the sine at an index.
pub data Sample : Type 0 where
  silence : Sample
  tone : Quotient → ℕ → Sample

pub record CwGenerator : Type 0 where
  pub attack_samples : ℕ
  pub release_samples : ℕ
  pub sample_index : ℕ
  pub stopping : Bool
  pub stopped : Bool
  pub stop_sample : ℕ

unfoldable pub new_generator : ℕ → ℕ → CwGenerator
new_generator attack release = record {
  attack_samples = attack;
  release_samples = release;
  sample_index = 0;
  stopping = false;
  stopped = false;
  stop_sample = 0;
}

-- startStream
unfoldable pub start_stream : CwGenerator → CwGenerator
start_stream g = record g { sample_index = 0; stopping = false; stopped = false; stop_sample = 0 }

-- stopStream
unfoldable pub stop_stream : CwGenerator → CwGenerator
stop_stream g = if g.stopping then g else record g { stopping = true; stop_sample = g.sample_index }

-- qMin of two quotients with positive denominators
unfoldable pub q_min : Quotient → Quotient → Quotient
q_min a b = if ltb (a.num * b.den) (b.num * a.den) then a else b

-- The envelope before the release: 1.0, or the share of the attack that is over.
unfoldable pub attack_env : CwGenerator → Quotient
attack_env g =
    if ltb g.sample_index g.attack_samples && ltb 0 g.attack_samples
    then record { num = g.sample_index; den = g.attack_samples }
    else record { num = 1; den = 1 }

-- The body of the loop of generateChunk.
unfoldable pub next_sample : CwGenerator → Sample × CwGenerator
unfolding attack_env q_min
next_sample g =
    let elapsed = g.sample_index - g.stop_sample in
    let rel : Quotient = record { num = g.release_samples - elapsed; den = g.release_samples } in
    let next = suc g.sample_index in
    if g.stopping
    then (if leb g.release_samples elapsed
        then (silence, record g { stopped = true; sample_index = next })
        else (tone (q_min (attack_env g) rel) g.sample_index, record g { sample_index = next }))
    else (tone (attack_env g) g.sample_index, record g { sample_index = next })

-- generateChunk
unfoldable pub generate_chunk : ℕ → CwGenerator → List Sample × CwGenerator
generate_chunk zero g = ([], g)
generate_chunk (suc n) g =
    let (s, g₁) = next_sample g in let (rest, g₂) = generate_chunk n g₁ in (s ∷ rest, g₂)
