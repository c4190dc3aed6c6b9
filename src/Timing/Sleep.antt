-- ===== src/Timing/Sleep.antt =====
-- Utils::sleepFor (App/utils/Utils.cpp) for the elements of a keyer.
use native.Mathlib.Nat.{div-le_self}
use mathlib.Core.List.{append_assoc}
use cwkeyer.Base.{
  ◌++◌, ◌∷◌, [], ◌∙◌, ap, ℕ, suc, ◌+◌, ◌-◌, ◌*◌, ◌/◌, ◌^◌, ◌≡◌, Option, none, some, ltb,
  if◌then◌else◌, arith,
}
use cwkeyer.Base.Int.{ℤ, pos, negsuc, ◌+ℤ◌, ◌*ℤ◌}
use cwkeyer.Timing.{calculate_duration, paris_div}
use cwkeyer.Timing.{dit, dah}
use cwkeyer.Keyer.{Keyer, Mode, init_keyer, play_dit_dah, run_cw, sleep_for}

-- The `int` product by 1000 and its conversion to a useconds_t of 32 bits, in microseconds; `none` is
-- the overflow of the product.
unfoldable pub sleep_for_us : ℤ → Option ℕ
sleep_for_us (pos ms) = if ltb (ms * 1000) (2 ^ 31) then some (ms * 1000) else none
sleep_for_us (negsuc ms) =
    if ltb (suc ms * 1000) (2 ^ 31 + 1) then some (2 ^ 32 - suc ms * 1000) else none

times :
    (n : ℕ) (mode : Mode) (k k' : Keyer)
    → init_keyer (pos (suc n)) mode k ≡ some k'
    → (k'.dit_time ≡ pos (1200 / suc n)) × (k'.dah_time ≡ pos (3 * (1200 / suc n)))
unfolding init_keyer calculate_duration paris_div ◌*ℤ◌
times n mode k k' e = ground arith

-- A keyer that is started with a speed of n + 1 gives its devices a dit of one unit and a dah of three,
-- a unit being 1200 / (n + 1) ms rounded down, and then sleeps: the times that playDitDah sleeps for,
-- as sleepFor takes them, are two units in microseconds after the start of a dit and four after that
-- of a dah, and no product overflows.
pub element_sleeps :
    (n : ℕ) (mode : Mode) (k k' : Keyer)
    → init_keyer (pos (suc n)) mode k ≡ some k'
    → (r : ℤ) × (q : ℤ) × ((play_dit_dah dit k').log
        ≡ k'.log ++ run_cw dit (pos (1200 / suc n)) ∷ sleep_for r ∷ [])
      × (sleep_for_us r ≡ some (2 * (1200 / suc n) * 1000))
      × ((play_dit_dah dah k').log
          ≡ k'.log ++ run_cw dah (pos (3 * (1200 / suc n))) ∷ sleep_for q ∷ [])
      × (sleep_for_us q ≡ some (4 * (1200 / suc n) * 1000))
unfolding sleep_for_us init_keyer calculate_duration paris_div play_dit_dah ◌+ℤ◌ ◌*ℤ◌
element_sleeps n mode k k' e =
    let r = k'.dit_time +ℤ k'.space_time in
    let q = k'.dah_time +ℤ k'.space_time in
    let (dit_is, dah_is) = times n mode k k' e in
    (
      r,
      q,
      append_assoc k'.log (run_cw dit k'.dit_time ∷ []) (sleep_for r ∷ [])
          ∙ ap (λ t. k'.log ++ run_cw dit t ∷ sleep_for r ∷ []) dit_is,
      ground (arith, div-le_self 1200 (suc n)),
      append_assoc k'.log (run_cw dah k'.dah_time ∷ []) (sleep_for q ∷ [])
          ∙ ap (λ t. k'.log ++ run_cw dah t ∷ sleep_for q ∷ []) dah_is,
      ground (arith, div-le_self 1200 (suc n)),
    )
