-- ===== src/Remote/Frame/Unmask.antt =====
-- Masking a byte twice gives it back.
use Prim.Native.Nat.{bit_xor}
use cwkeyer.Base.{ℕ, ◌<◌, ◌≡◌, refl, true, Bool, ◌==◌, ==_iff}
use cwkeyer.Base.Text.{all_below, of_all_below}

masks_back : ℕ → ℕ → Bool
masks_back b m = bit_xor (bit_xor b m) m == b

masks_back_table : all_below 256 (λ b. all_below 256 (masks_back b)) ≡ true
unfolding all_below masks_back
masks_back_table = refl

pub bit_xor_twice : (b m : ℕ) → b < 256 → m < 256 → bit_xor (bit_xor b m) m ≡ b
unfolding masks_back
bit_xor_twice b m hb hm = (==_iff _ b).0 (
    of_all_below 256 (masks_back b) m
      (of_all_below 256 (λ x. all_below 256 (masks_back x)) b masks_back_table hb) hm)
