-- ===== src/Timing/Paris.antt =====
-- IKeyerCW::calculateDuration against the PARIS formulas in its comment.
use cwkeyer.Base.{ℕ, suc, ◌+◌, ◌*◌, ◌/◌, ◌≤◌, ◌<◌, ◌≡◌, none, some, arith}
use cwkeyer.Base.Int.{ℤ, pos}
use cwkeyer.Timing.{
  KeyerItem, dit, dah, inter_element_space, letter_space, word_space, paris_time_base,
  calculate_duration,
}

-- The number of dit lengths in an element.
abbrev pub units : KeyerItem → ℕ
units dit = 1
units dah = 3
units inter_element_space = 1
units letter_space = 3
units word_space = 7

-- At every speed of at least 1 WPM every element has a length: `units` times a dit length d, where
-- d is 1200 / wpm rounded down, that is, d * wpm ≤ 1200 < (d + 1) * wpm.
duration_units :
    (item : KeyerItem) (k : ℕ)
    → (d : ℕ) × (calculate_duration item (pos (suc k)) ≡ some (pos (units item * d)))
      × (d * suc k ≤ paris_time_base)
      × (paris_time_base < (d + 1) * suc k)
unfolding calculate_duration
duration_units dit k = (paris_time_base / suc k, ground arith, omega arith, omega arith)
duration_units dah k = (paris_time_base / suc k, ground arith, omega arith, omega arith)
duration_units inter_element_space k =
    (paris_time_base / suc k, ground arith, omega arith, omega arith)
duration_units letter_space k = (paris_time_base / suc k, ground arith, omega arith, omega arith)
duration_units word_space k = (paris_time_base / suc k, ground arith, omega arith, omega arith)

-- The length is missing, by a division by zero, exactly at 0 WPM.
duration_fault : (item : KeyerItem) (wpm : ℤ) → calculate_duration item wpm ≡ none → wpm ≡ pos 0
unfolding calculate_duration
duration_fault item wpm h = ground arith
