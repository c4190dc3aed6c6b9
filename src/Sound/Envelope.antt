-- ===== src/Sound/Envelope.antt =====
-- The envelope of the samples (App/sound/CwGenerator.cpp, Sound.cpp).
use cwkeyer.Base.{ℕ, zero, suc, ◌+◌, ◌-◌, ◌≤◌, ◌<◌, ◌≡◌, refl, List, [], ◌∷◌, ◌++◌, arith}
use cwkeyer.Sound.Generator.{
  Quotient, Sample, silence, tone, CwGenerator, q_min, attack_env, next_sample, generate_chunk,
}

-- An envelope between 0 and 1.
abbrev pub IsFraction : Quotient → Type 0
IsFraction q = (0 < q.den) × (q.num ≤ q.den)

abbrev pub InRange : Sample → Type 0
InRange silence = Unit {0}
InRange (tone q i) = IsFraction q

abbrev pub AllInRange : List Sample → Type 0
AllInRange [] = Unit {0}
AllInRange (s ∷ ss) = InRange s × AllInRange ss

attack_env-IsFraction : (g : CwGenerator) → IsFraction (attack_env g)
unfolding attack_env
attack_env-IsFraction g = ground arith

q_min-IsFraction : (a b : Quotient) → IsFraction a → IsFraction b → IsFraction (q_min a b)
unfolding q_min
q_min-IsFraction a b ha hb = ground arith

next_sample-InRange : (g : CwGenerator) → InRange (next_sample g).0
unfolding next_sample
next_sample-InRange g =
    let elapsed = g.sample_index - g.stop_sample in
    ground (
      arith,
      attack_env-IsFraction g,
      q_min-IsFraction (attack_env g)
          (record { num = g.release_samples - elapsed; den = g.release_samples }),
    )

-- Every sample of a chunk has an envelope between 0 and 1, with no division by zero.
pub generate_chunk-AllInRange : (n : ℕ) (g : CwGenerator) → AllInRange (generate_chunk n g).0
unfolding generate_chunk
generate_chunk-AllInRange zero g = tt
generate_chunk-AllInRange (suc n) g =
    (next_sample-InRange g, generate_chunk-AllInRange n (next_sample g).1)

-- Two chunks are the chunk of both lengths: the cut between chunks is not heard.
generate_chunk-add :
    (m n : ℕ) (g : CwGenerator)
    → generate_chunk (m + n) g ≡ (
      (generate_chunk m g).0 ++ (generate_chunk n (generate_chunk m g).1).0,
      (generate_chunk n (generate_chunk m g).1).1,
    )
unfolding generate_chunk
generate_chunk-add zero n g = let counted : 0 + n ≡ n = omega arith in rw counted refl
generate_chunk-add (suc m) n g =
    let rest = generate_chunk-add m n (next_sample g).1 in
    let counted : suc m + n ≡ suc (m + n) = omega arith in rw counted (ground arith)
