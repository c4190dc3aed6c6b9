-- ===== src/Decoder.antt =====
-- App/cwdecoder/CwDecoder.cpp, CwDecoder.h: keyed elements back into text.
-- A reading of steady_clock is a number of nanoseconds that is passed in; a call of
-- m_callbackTextDecoded and a line on the console are entries of a log, newest last. The thread of
-- timeoutLoop runs `timeout_tick` once in each round; m_mutex makes each function a step of its own.
pub mod MorseTable
pub mod Alphabet
pub mod Gaps
pub mod Text
pub mod Spaces
mod Tests
use cwkeyer.Base.{
  ℕ, ◌-◌, ◌/◌, ◌==◌, Bool, true, false, List, [], ◌∷◌, ◌++◌, Option, none, some, if◌then◌else◌, not,
  ◌%◌, ◌^◌, ltb,
}
use cwkeyer.Base.Text.{codes}
use cwkeyer.Base.Int.{ℤ, pos, ◌-ℤ◌, max_ℤ, ltb_ℤ}
use cwkeyer.Timing.{KeyerItem, inter_element_space, letter_space, word_space, calculate_duration}
use MorseTable.{not_found, sk, bk, cw_error, to_symbol, decode}

pub data Output : Type 0 where
  text : List ℕ → Output
  console : List ℕ → Output

pub record CwDecoder : Type 0 where
  pub inter_element : ℤ
  pub letter : ℤ
  pub word : ℤ
  pub started : Bool
  pub running : Bool
  pub sequence : List ℕ
  pub last_signal_time : ℕ
  pub last_duration : ℤ
  pub log : List Output

-- CwDecoder::stop
unfoldable pub stop : CwDecoder → CwDecoder
stop d = record d { running = false; started = false; sequence = [] }

-- CwDecoder::start; `none` is the fault of a division by zero. m_lastDuration keeps its value.
unfoldable pub start : ℤ → ℤ → ℕ → CwDecoder → Option CwDecoder
unfolding stop
start farns_worth wpm now d = elim (calculate_duration inter_element_space farns_worth) [
  | none ↦ none
  | some e ↦ elim (calculate_duration letter_space wpm) [
    | none ↦ none
    | some l ↦ elim (calculate_duration word_space farns_worth) [
      | none ↦ none
      | some w ↦ some (record (stop d) {
        inter_element = e;
        letter = l;
        word = w;
        last_signal_time = now;
        started = true;
        running = true;
      })
    ]
  ]
]

abbrev pub emit : Output → CwDecoder → CwDecoder
emit o d = record d { log = d.log ++ o ∷ [] }

-- The switch of flushLetter.
unfoldable pub announce : List ℕ → Output
announce seq =
    let ch = decode seq in
    if ch == bk
    then text (codes "<BK>")
    else if ch == sk
    then text (codes "<SK>")
    else if ch == cw_error
    then text (codes "<ERROR>")
    else if ch == not_found
    then console seq
    else text (ch ∷ [])

unfoldable pub is_empty : List ℕ → Bool
is_empty [] = true
is_empty _ = false

-- CwDecoder::flushLetter
unfoldable pub flush_letter : CwDecoder → CwDecoder
unfolding is_empty
flush_letter d =
    if is_empty d.sequence then d else record (emit (announce d.sequence) d) { sequence = [] }

-- The 64-bit count of milliseconds since the last signal.
abbrev pub count_ms : ℕ → CwDecoder → ℕ
count_ms now d = (now - d.last_signal_time) / 1000000

-- static_cast<int> of a count that is not negative: its low 32 bits, in two's complement.
unfoldable pub to_int : ℕ → ℤ
unfolding ◌-ℤ◌
to_int n = let low = n % 2 ^ 32 in if ltb low (2 ^ 31) then pos low else pos low -ℤ pos (2 ^ 32)

-- duration_cast to milliseconds of the time since the last signal, as an int.
unfoldable pub elapsed_ms : ℕ → CwDecoder → ℤ
unfolding to_int
elapsed_ms now d = to_int (count_ms now d)

-- silenceMs, in both functions.
unfoldable pub silence_ms : ℤ → CwDecoder → ℤ
unfolding max_ℤ ◌-ℤ◌
silence_ms elapsed d = max_ℤ (elapsed -ℤ d.last_duration -ℤ d.inter_element) d.inter_element

-- One round of CwDecoder::timeoutLoop after its sleep, while m_running holds.
unfoldable pub timeout_tick : ℕ → CwDecoder → CwDecoder
unfolding elapsed_ms silence_ms flush_letter
timeout_tick now d =
    if is_empty d.sequence
    then d
    else if not (ltb_ℤ (silence_ms (elapsed_ms now d) d) d.word)
    then record (emit (text (codes " ")) (flush_letter d)) { last_duration = pos 0 }
    else d

-- The part of CwDecoder::runCW that depends on the silence before the signal.
unfoldable pub after_silence : ℤ → CwDecoder → CwDecoder
unfolding flush_letter
after_silence silence d =
    if not (ltb_ℤ silence d.word)
    then emit (text (codes " ")) (flush_letter d)
    else if ltb_ℤ d.inter_element silence
    then flush_letter d
    else d

-- CwDecoder::runCW; it reads the clock twice, at `now` and at `stamp`.
unfoldable pub run_cw : KeyerItem → ℤ → ℕ → ℕ → CwDecoder → CwDecoder
unfolding after_silence elapsed_ms silence_ms
run_cw item duration now stamp d =
    if not d.started
    then d
    else let silence = silence_ms (elapsed_ms now d) d in
      let d₁ = record d { last_signal_time = stamp; last_duration = duration } in
      let d₂ = after_silence silence d₁ in
      record d₂ { sequence = d₂.sequence ++ to_symbol item ∷ [] }
