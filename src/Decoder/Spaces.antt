-- ===== src/Decoder/Spaces.antt =====
-- The word space that CwDecoder (App/cwdecoder/CwDecoder.cpp) announces, from its two functions.
use mathlib.Core.List.{append_assoc}
use cwkeyer.Base.{ℕ, ◌+◌, ◌<◌, ◌^◌, ◌≤◌, ◌≡◌, refl, ◌∙◌, false, [], ◌∷◌, ◌++◌, arith}
use cwkeyer.Base.Text.{codes}
use cwkeyer.Base.Int.{ℤ, pos}
use cwkeyer.Timing.{KeyerItem}
use cwkeyer.Decoder.{
  CwDecoder, text, announce, flush_letter, count_ms, run_cw, is_empty, timeout_tick,
}
use cwkeyer.Decoder.Gaps.{IsTuned, run_cw_gap, timeout_tick_gap}

abbrev ended : CwDecoder → CwDecoder
ended d = record d {
  sequence = [];
  last_duration = pos 0;
  log = d.log ++ announce d.sequence ∷ text (codes " ") ∷ [];
}

timeout_tick-ended :
    (i w l tick : ℕ) (d : CwDecoder)
    → IsTuned i w l d
    → is_empty d.sequence ≡ false
    → l + i + w ≤ count_ms tick d
    → count_ms tick d < 2 ^ 31
    → timeout_tick tick d ≡ ended d
unfolding flush_letter
timeout_tick-ended i w l tick d t full gap fits = ground (
  arith,
  timeout_tick_gap i w l tick d t fits,
  append_assoc d.log (announce d.sequence ∷ []) (text (codes " ") ∷ []),
)

run_cw-ended :
    (i w l tick now stamp : ℕ) (item : KeyerItem) (duration : ℤ) (d : CwDecoder)
    → IsTuned i w l d
    → l + i + w ≤ count_ms tick d
    → tick ≤ now
    → count_ms now d < 2 ^ 31
    → (run_cw item duration now stamp (ended d)).log ≡ (ended d).log ++ text (codes " ") ∷ []
unfolding flush_letter
run_cw-ended i w l tick now stamp item duration d t gap later fits = ground (
  arith,
  run_cw_gap i w 0 item duration now stamp (ended d)
      (record {
        is_started = t.is_started;
        inter = t.inter;
        gap = t.gap;
        last = refl;
        ordered = t.ordered;
      })
      fits,
)

earlier :
    (tick now : ℕ) (d : CwDecoder) → tick ≤ now → count_ms now d < 2 ^ 31 → count_ms tick d < 2 ^ 31
earlier tick now d later fits = omega arith

-- For a started decoder with an element pending: if the thread has announced the end of the word,
-- the next signal, if it comes after that and less than 2 ^ 31 milliseconds after the last one, announces it once more: between the two words the
-- text gets two spaces.
pub word_space_twice :
    (i w l tick now stamp : ℕ) (item : KeyerItem) (duration : ℤ) (d : CwDecoder)
    → IsTuned i w l d
    → is_empty d.sequence ≡ false
    → l + i + w ≤ count_ms tick d
    → tick ≤ now
    → count_ms now d < 2 ^ 31
    → (run_cw item duration now stamp (timeout_tick tick d)).log
      ≡ d.log ++ announce d.sequence ∷ text (codes " ") ∷ text (codes " ") ∷ []
word_space_twice i w l tick now stamp item duration d t full gap later fits =
    let soon = earlier tick now d later fits in
    rw (timeout_tick-ended i w l tick d t full gap soon)
      (run_cw-ended i w l tick now stamp item duration d t gap later fits ∙ append_assoc d.log _ _)
