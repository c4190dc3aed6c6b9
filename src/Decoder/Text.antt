-- ===== src/Decoder/Text.antt =====
-- CwDecoder (App/cwdecoder/CwDecoder.cpp) on a whole word: letters keyed with proper gaps come out.
use cwkeyer.Base.{ℕ, ◌^◌, ◌+◌, ◌-◌, ◌*◌, ◌/◌, ◌≤◌, ◌<◌, ◌≡◌, some, List, [], ◌∷◌, ◌++◌, arith}
use cwkeyer.Base.Text.{codes}
use cwkeyer.Base.Int.{pos}
use cwkeyer.Timing.{KeyerItem}
use cwkeyer.Decoder.MorseTable.{to_symbol, encode}
use cwkeyer.Decoder.{CwDecoder, count_ms, Output, text, run_cw}
use cwkeyer.Decoder.Gaps.{IsTuned, run_cw_gap}

-- A call of runCW: the element, its length, and the two readings of the clock.
pub record Signal : Type 0 where
  pub item : KeyerItem
  pub duration : ℕ
  pub now : ℕ
  pub stamp : ℕ

unfoldable pub send : CwDecoder → List Signal → CwDecoder
send d [] = d
send d (s ∷ ss) = send (run_cw s.item (pos s.duration) s.now s.stamp d) ss

abbrev pub gap_ms : ℕ → Signal → ℕ
gap_ms from s = (s.now - from) / 1000000

abbrev pub Fits : ℕ → Type 0
Fits ms = ms < 2 ^ 31

abbrev pub symbols : List Signal → List ℕ
symbols [] = []
symbols (s ∷ ss) = to_symbol s.item ∷ symbols ss

-- A decoder with element space i and word space w, whose last signal was stamped at `from` and was
-- l long, with the pending sequence and the log given.
pub record At (i w from l : ℕ) (seq : List ℕ) (log : List Output) (d : CwDecoder) : Type 0 where
  pub tuned : IsTuned i w l d
  pub stamped : d.last_signal_time ≡ from
  pub pending : d.sequence ≡ seq
  pub logged : d.log ≡ log

-- Signals that go on with a letter: each begins at most two dit lengths after the end of the last.
abbrev pub SameLetter : ℕ → ℕ → ℕ → List Signal → Type 0
SameLetter i from l [] = Unit {0}
SameLetter i from l (s ∷ ss) =
    (gap_ms from s ≤ l + 2 * i) × Fits (gap_ms from s) × SameLetter i s.stamp s.duration ss

abbrev pub last_stamp : ℕ → List Signal → ℕ
last_stamp from [] = from
last_stamp from (s ∷ ss) = last_stamp s.stamp ss

abbrev pub last_length : ℕ → List Signal → ℕ
last_length l [] = l
last_length l (s ∷ ss) = last_length s.duration ss

pub run_cw-At_same :
    (i w from l : ℕ) (seq : List ℕ) (log : List Output) (s : Signal) (d : CwDecoder)
    → At i w from l seq log d
    → gap_ms from s ≤ l + 2 * i
    → Fits (gap_ms from s)
    → At i w s.stamp s.duration
        (seq ++ to_symbol s.item ∷ [])
        log
        (run_cw s.item (pos s.duration) s.now s.stamp d)
run_cw-At_same i w from l seq log s d a h fits =
    let close : Fits (count_ms s.now d) = rw a.stamped fits in
    ground (arith, run_cw_gap i w l s.item (pos s.duration) s.now s.stamp d a.tuned close)

-- A letter as it is keyed, and the character that it stands for.
pub record Letter : Type 0 where
  pub char : ℕ
  pub first : Signal
  pub rest : List Signal

abbrev pub signals : List Letter → List Signal
signals [] = []
signals (x ∷ xs) = x.first ∷ x.rest ++ signals xs

-- Letters with proper gaps: each starts in a letter gap, and spells a character that is neither a
-- prosign nor unknown.
abbrev pub Keyed : ℕ → ℕ → ℕ → ℕ → List Letter → Type 0
Keyed i w from l [] = Unit {0}
Keyed i w from l (x ∷ xs) =
    (l + 2 * i < gap_ms from x.first)
    × (gap_ms from x.first < l + i + w)
    × Fits (gap_ms from x.first)
    × SameLetter i x.first.stamp x.first.duration x.rest
    × (encode x.char ≡ some (symbols (x.first ∷ x.rest)))
    × (3 < x.char)
    × Keyed i w (last_stamp x.first.stamp x.rest) (last_length x.first.duration x.rest) xs

abbrev pub end_stamp : ℕ → List Letter → ℕ
end_stamp from [] = from
end_stamp from (x ∷ xs) = end_stamp (last_stamp x.first.stamp x.rest) xs

abbrev pub end_length : ℕ → List Letter → ℕ
end_length l [] = l
end_length l (x ∷ xs) = end_length (last_length x.first.duration x.rest) xs

-- What the word is decoded to: its characters, and the space at its end.
abbrev pub texts : List Letter → List Output
texts [] = text (codes " ") ∷ []
texts (x ∷ xs) = text (x.char ∷ []) ∷ texts xs
