-- ===== src/Decoder/Tests.antt =====
-- The decoder at 20 WPM: a run of "AT", and the theorems at concrete states.
use cwkeyer.Base.{ℕ, ◌*◌, ◌≡◌, refl, true, false, some, List, [], ◌∷◌, ◌++◌, arith}
use cwkeyer.Base.Text.{codes}
use cwkeyer.Base.Int.{pos}
use cwkeyer.Timing.{KeyerItem, dit, dah, calculate_duration}
use cwkeyer.Decoder.MorseTable.{to_symbol, decode, find, table, or_not_found}
use cwkeyer.Decoder.{
  to_int, CwDecoder, text, start, announce, elapsed_ms, run_cw, is_empty, timeout_tick,
}
use cwkeyer.Decoder.Gaps.{IsTuned}
use cwkeyer.Decoder.Text.{Signal, Letter, send, signals}
use cwkeyer.Decoder.Spaces.{word_space_twice}

abbrev fresh : CwDecoder
fresh = record {
  inter_element = pos 60;
  letter = pos 180;
  word = pos 420;
  started = true;
  running = true;
  sequence = [];
  last_signal_time = 0;
  last_duration = pos 0;
  log = [];
}

abbrev silent : CwDecoder
silent = record fresh {
  inter_element = pos 0;
  letter = pos 0;
  word = pos 0;
  started = false;
  running = false;
}

fresh_starts : start (pos 20) (pos 20) 0 silent ≡ some fresh
unfolding start calculate_duration
fresh_starts = refl

-- An element that begins at `at` milliseconds.
abbrev keyed_at : KeyerItem → ℕ → ℕ → Signal
keyed_at item duration ms = record {
  item = item;
  duration = duration;
  now = ms * 1000000;
  stamp = ms * 1000000;
}

abbrev letter_a : Letter
letter_a = record { char = b'A'; first = keyed_at dit 60 100; rest = keyed_at dah 180 220 ∷ [] }

abbrev letter_t : Letter
letter_t = record { char = b'T'; first = keyed_at dah 180 580; rest = [] }

abbrev at_word : List Letter
at_word = letter_a ∷ letter_t ∷ []

at_word_runs :
    (timeout_tick 1240000000 (send fresh (signals at_word))).log
    ≡ text (codes "A") ∷ text (codes "T") ∷ text (codes " ") ∷ []
unfolding send timeout_tick run_cw elapsed_ms to_int to_symbol announce decode find table
    or_not_found
at_word_runs = refl

-- "E" is pending.
abbrev pending_e : CwDecoder
pending_e = record fresh { sequence = codes "." }

pending_e-IsTuned : IsTuned 60 420 0 pending_e
pending_e-IsTuned = record {
  is_started = refl;
  inter = refl;
  gap = refl;
  last = refl;
  ordered = omega arith;
}

word_space_twice_example :
    (run_cw dit (pos 60) 900000000 900000000 (timeout_tick 600000000 pending_e)).log
    ≡ [] ++ announce (codes ".") ∷ text (codes " ") ∷ text (codes " ") ∷ []
unfolding is_empty elapsed_ms
word_space_twice_example =
    word_space_twice 60 420 0 600000000 900000000 900000000 dit (pos 60) pending_e pending_e-IsTuned
      refl (omega arith) (omega arith) (omega arith)
