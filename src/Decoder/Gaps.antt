-- ===== src/Decoder/Gaps.antt =====
-- How CwDecoder::runCW (App/cwdecoder/CwDecoder.cpp) reads the gap before a signal.
use cwkeyer.Base.{
  ℕ, ◌+◌, ◌*◌, ◌<◌, ◌^◌, ◌≡◌, true, [], ◌∷◌, ◌++◌, arith, leb, ltb, not, if◌then◌else◌,
}
use cwkeyer.Base.Text.{codes}
use cwkeyer.Base.Int.{ℤ, pos}
use cwkeyer.Timing.{KeyerItem}
use cwkeyer.Decoder.MorseTable.{to_symbol}
use cwkeyer.Decoder.{
  CwDecoder, text, emit, flush_letter, count_ms, elapsed_ms, to_int, silence_ms, after_silence,
  run_cw, is_empty, timeout_tick,
}

-- A started decoder whose spaces are i and w, with the last signal l long.
pub record IsTuned (i w l : ℕ) (d : CwDecoder) : Type 0 where
  pub is_started : d.started ≡ true
  pub inter : d.inter_element ≡ pos i
  pub gap : d.word ≡ pos w
  pub last : d.last_duration ≡ pos l
  pub ordered : i < w

-- What a signal does to the timers and the sequence, whatever came before it.
abbrev pub takes : KeyerItem → ℤ → ℕ → CwDecoder → CwDecoder
takes item duration stamp d = record d {
  last_signal_time = stamp;
  last_duration = duration;
  sequence = d.sequence ++ to_symbol item ∷ [];
}

-- The three readings of a gap of e milliseconds.
abbrev pub reads_gap : ℕ → ℕ → ℕ → ℕ → CwDecoder → CwDecoder
reads_gap i w l e d =
    if leb e (l + 2 * i)
    then d
    else if ltb e (l + i + w)
    then flush_letter d
    else emit (text (codes " ")) (flush_letter d)

run_cw_read :
    (i w l e : ℕ) (item : KeyerItem) (duration : ℤ) (stamp : ℕ) (d : CwDecoder)
    → IsTuned i w l d
    → (if not d.started
        then d
        else let d₂ =
            after_silence
              (silence_ms (pos e) d)
              (record d { last_signal_time = stamp; last_duration = duration }) in
          record d₂ { sequence = d₂.sequence ++ to_symbol item ∷ [] })
      ≡ takes item duration stamp (reads_gap i w l e d)
unfolding after_silence silence_ms
run_cw_read i w l e item duration stamp d t = ground arith

-- Less than 2 ^ 31 milliseconds, some 24 days, fit into an int.
elapsed_ms-fits :
    (now : ℕ) (d : CwDecoder) → count_ms now d < 2 ^ 31 → elapsed_ms now d ≡ pos (count_ms now d)
unfolding elapsed_ms to_int
elapsed_ms-fits now d fits = ground arith

-- For a started decoder whose element space is i, whose word space w is longer, and whose last
-- signal was l long: less than 2 ^ 31 milliseconds later, a signal that begins e milliseconds after the last one began joins the letter
-- if e ≤ l + 2 * i, otherwise ends the letter, and also ends the word from e = l + i + w on. In each
-- case the signal is then taken as the next element.
pub run_cw_gap :
    (i w l : ℕ) (item : KeyerItem) (duration : ℤ) (now stamp : ℕ) (d : CwDecoder)
    → IsTuned i w l d
    → count_ms now d < 2 ^ 31
    → run_cw item duration now stamp d
      ≡ takes item duration stamp (reads_gap i w l (count_ms now d) d)
unfolding run_cw
run_cw_gap i w l item duration now stamp d t fits =
    rw (elapsed_ms-fits now d fits) (run_cw_read i w l (count_ms now d) item duration stamp d t)

-- For a started decoder whose element space is i, whose word space w is longer, and whose last
-- signal was l long, the thread, less than 2 ^ 31 milliseconds later, that waits ends the letter and the word exactly when an element is
-- pending and the time since the last signal began has reached l + i + w, and otherwise changes
-- nothing.
pub timeout_tick_gap :
    (i w l now : ℕ) (d : CwDecoder)
    → IsTuned i w l d
    → count_ms now d < 2 ^ 31
    → timeout_tick now d ≡ (
        if is_empty d.sequence
        then d
        else if leb (l + i + w) (count_ms now d)
        then record (emit (text (codes " ")) (flush_letter d)) { last_duration = pos 0 }
        else d)
unfolding timeout_tick
timeout_tick_gap i w l now d t fits = rw (elapsed_ms-fits now d fits) (ground arith)
