-- ===== src/Timing.antt =====
-- App/utils/IKeyerCW.h: the elements of a CW signal and their lengths in milliseconds.
pub mod Paris
pub mod Sleep
use cwkeyer.Base.{ℕ, zero, suc, ◌/◌, ◌≡◌, Option, none, some}
use cwkeyer.Base.Int.{ℤ, pos, negsuc, ◌*ℤ◌, neg}

-- enum KeyerItem
pub data KeyerItem : Type 0 where
  dit dah inter_element_space letter_space word_space : KeyerItem

abbrev pub paris_time_base : ℕ
paris_time_base = 1200

-- The `int` division `PARIS_TIME_BASE / wpm`, which rounds towards zero; a division by zero is a
-- fault, `none`.
unfoldable pub paris_div : ℤ → Option ℤ
paris_div (pos zero) = none
paris_div (pos (suc k)) = some (pos (paris_time_base / suc k))
paris_div (negsuc k) = some (neg (paris_time_base / suc k))

scale : ℕ → Option ℤ → Option ℤ
scale n none = none
scale n (some q) = some (pos n *ℤ q)

-- IKeyerCW::calculateDuration. The factors 3.0 and 7.0 multiply a whole number, so the products
-- are whole and the conversion back to `int` is exact.
unfoldable pub calculate_duration : KeyerItem → ℤ → Option ℤ
unfolding paris_div scale ◌*ℤ◌
calculate_duration dit wpm = paris_div wpm
calculate_duration dah wpm = scale 3 (paris_div wpm)
calculate_duration inter_element_space wpm = paris_div wpm
calculate_duration letter_space wpm = scale 3 (paris_div wpm)
calculate_duration word_space wpm = scale 7 (paris_div wpm)
