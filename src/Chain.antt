-- ===== src/Chain.antt =====
-- The parts of App together: what App/keyer/Keyer.cpp plays, as its outputs get it, and the paddle
-- before it.
-- A thread sleeps for at least as long as it asks; by how much longer is a function of the number of
-- the sleep. The clock counts nanoseconds; the calls themselves take no time.
pub mod Decoding
pub mod Mox
pub mod Release
pub mod OnAir
pub mod Paddles
mod Tests
use cwkeyer.Base.{ℕ, zero, suc, ◌+◌, ◌*◌, List, [], ◌∷◌, ◌++◌}
use cwkeyer.Base.Int.{ℤ, pos_part}
use cwkeyer.Timing.{KeyerItem}
use cwkeyer.Keyer.{Output, run_cw, sleep_for}
use cwkeyer.Decoder.{CwDecoder}
use cwkeyer.Decoder.MorseTable.{to_symbol}

-- What a decoder makes of the keyer's outputs, from the time `now` and the sleep number n on.
unfoldable pub hear : (ℕ → ℕ) → ℕ → ℕ → List Output → CwDecoder → CwDecoder
hear late n now [] d = d
hear late n now (run_cw item duration ∷ os) d =
    hear late n now os (cwkeyer.Decoder.run_cw item duration now now d)
hear late n now (sleep_for duration ∷ os) d =
    hear late (suc n) (now + pos_part duration * 1000000 + late n) os d
hear late n now (_ ∷ os) d = hear late n now os d

-- The time after the outputs.
unfoldable pub time_after : (ℕ → ℕ) → ℕ → ℕ → List Output → ℕ
time_after late n now [] = now
time_after late n now (sleep_for duration ∷ os) =
    time_after late (suc n) (now + pos_part duration * 1000000 + late n) os
time_after late n now (_ ∷ os) = time_after late n now os

-- The symbols of n elements, of which each follows from the one before by `f`.
abbrev pub symbols_by : (KeyerItem → KeyerItem) → ℕ → KeyerItem → List ℕ
symbols_by f zero item = []
symbols_by f (suc n) item = to_symbol item ∷ symbols_by f n (f item)
