-- ===== src/Chain/Decoding.antt =====
-- A keyer and a decoder of its elements (App/keyer/Keyer.cpp, App/cwdecoder/CwDecoder.cpp).
use cwkeyer.Base.{ℕ, ◌+◌, ◌≡◌, List, arith}
use cwkeyer.Base.Int.{pos, pos_part, ◌+ℤ◌}
use cwkeyer.Timing.{KeyerItem, dah}
use cwkeyer.Keyer.{Keyer}

abbrev length_of : ℕ → ℕ → KeyerItem → ℕ
length_of d h dah = h
length_of d h _ = d

pub add_pos : (a b : ℕ) → pos_part (pos a +ℤ pos b) ≡ a + b
unfolding ◌+ℤ◌
add_pos a b = ground arith
