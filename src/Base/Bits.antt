-- ===== src/Base/Bits.antt =====
-- `|` of disjoint fields and `&` with a mask of low bits, as sums and remainders. The library gives
-- both operations as loops over binary digits; `lowest` is one turn of the loop.
use Prim.Native.Nat.{min, max, digits, bit_and, bit_or, bit_and-bitwise, bit_or-bitwise}
use mathlib.Core.Path.{ap₂}
use cwkeyer.Base.{ℕ, zero, suc, ◌+◌, ◌*◌, ◌/◌, ◌%◌, ◌≤◌, ◌<◌, ◌≡◌, refl, ap, arith}

-- The loop ends with its first argument, so fuel above it is not used.
spare_fuel :
    (z : ℕ → ℕ) (f : ℕ → ℕ → ℕ) (a b n m : ℕ) → a ≤ n → a ≤ m → digits z f m a b ≡ digits z f n a b
spare_fuel z f zero b zero zero p q = refl
spare_fuel z f zero b zero (suc m) p q = refl
spare_fuel z f zero b (suc n) zero p q = refl
spare_fuel z f zero b (suc n) (suc m) p q = refl
spare_fuel z f (suc a) b n zero p q = absurd (omega arith)
spare_fuel z f (suc a) b zero (suc m) p q = absurd (omega arith)
spare_fuel z f (suc a) b (suc n) (suc m) p q =
    let half = suc a / 2 in
    ap (λ (t : ℕ). t * 2 + f (suc a % 2) (b % 2))
      (spare_fuel z f half (b / 2) n m (omega arith) (omega arith))

lowest_or : (a b : ℕ) → bit_or a b ≡ bit_or (a / 2) (b / 2) * 2 + max (a % 2) (b % 2)
lowest_or zero b = omega (arith, bit_or-bitwise 0 b, bit_or-bitwise 0 (b / 2))
lowest_or (suc a) b = omega (
  arith,
  bit_or-bitwise (suc a) b,
  bit_or-bitwise (suc a / 2) (b / 2),
  spare_fuel (λ y. y) max (suc a / 2) (b / 2) (suc a / 2) a (omega arith) (omega arith),
)

lowest_and : (a b : ℕ) → bit_and a b ≡ bit_and (a / 2) (b / 2) * 2 + min (a % 2) (b % 2)
lowest_and zero b = omega (arith, bit_and-bitwise 0 b, bit_and-bitwise 0 (b / 2))
lowest_and (suc a) b = omega (
  arith,
  bit_and-bitwise (suc a) b,
  bit_and-bitwise (suc a / 2) (b / 2),
  spare_fuel (λ y. 0) min (suc a / 2) (b / 2) (suc a / 2) a (omega arith) (omega arith),
)

-- With a bound n on the first argument, by halving.
empty_fields : (n a : ℕ) → a ≤ n → (bit_or a 0 ≡ a) × (bit_and a 0 ≡ 0)
empty_fields n zero h = (refl, refl)
empty_fields zero (suc a) h = absurd (omega arith)
empty_fields (suc n) (suc a) h =
    let half = empty_fields n (suc a / 2) (omega arith) in
    (omega (arith, lowest_or (suc a) 0, half.0), omega (arith, lowest_and (suc a) 0, half.1))

-- a << k, as k doublings: at a numeral k it computes to a multiple of a.
abbrev pub shl : ℕ → ℕ → ℕ
shl a zero = a
shl a (suc k) = 2 * shl a k

-- k ones.
abbrev pub ones : ℕ → ℕ
ones zero = 0
ones (suc k) = 2 * ones k + 1

-- (q << k) | r, where r fits into k bits.
pub bit_or-shl : (k q r : ℕ) → r < shl 1 k → bit_or (shl q k) r ≡ shl q k + r
bit_or-shl zero q r h = omega (arith, (empty_fields q q (omega arith)).0, ap (bit_or q) zero_r)
  where
    zero_r : r ≡ 0
    zero_r = omega arith
bit_or-shl (suc k) q r h = omega (
  arith,
  lowest_or (2 * shl q k) r,
  bit_or-shl k q (r / 2) (omega arith),
  ap (λ t. bit_or t (r / 2)) halved,
)
  where
    halved : 2 * shl q k / 2 ≡ shl q k
    halved = omega arith

-- x & (2^k - 1), where x is q << k with r below it.
pub bit_and-ones : (k q r : ℕ) → r < shl 1 k → bit_and (shl q k + r) (ones k) ≡ r
bit_and-ones zero q r h = omega (arith, (empty_fields (q + r) (q + r) (omega arith)).1)
bit_and-ones (suc k) q r h = omega (
  arith,
  lowest_and (2 * shl q k + r) (2 * ones k + 1),
  ap₂ bit_and left right,
  bit_and-ones k q (r / 2) (omega arith),
)
  where
    left : (2 * shl q k + r) / 2 ≡ shl q k + r / 2
    left = omega arith

    right : (2 * ones k + 1) / 2 ≡ ones k
    right = omega arith
