-- ===== src/Base/Text.antt =====
-- Texts as lists of character codes, and tests on small ranges of numbers.
use Prim.Native.Char.{code}
use Prim.Native.String.{String}
use cwkeyer.Base.{ℕ, zero, suc, ◌<◌, ◌≡◌, refl, ◌==◌, Bool, true, false, ◌&&◌, List, [], ◌∷◌, arith}

abbrev pub codes : String → List ℕ
codes String.[] = []
codes (String.◌∷◌ c s) = code c ∷ codes s

-- Every number of the list is a byte.
abbrev pub Bytes : List ℕ → Type 0
Bytes [] = Unit {0}
Bytes (x ∷ xs) = (x < 256) × Bytes xs

-- A test of all numbers below n, by evaluation.
unfoldable pub all_below : ℕ → (ℕ → Bool) → Bool
all_below zero p = true
all_below (suc n) p = p n && all_below n p

pub of_all_below : (n : ℕ) (p : ℕ → Bool) (x : ℕ) → all_below n p ≡ true → x < n → p x ≡ true
unfolding all_below
of_all_below zero p x h lt = absurd (omega arith)
of_all_below (suc n) p x h lt = ground (arith, of_all_below n p x)

abbrev pub text_eq : List ℕ → List ℕ → Bool
text_eq [] [] = true
text_eq (a ∷ s) (b ∷ t) = a == b && text_eq s t
text_eq _ _ = false

pub text_eq_self : (s : List ℕ) → text_eq s s ≡ true
text_eq_self [] = refl
text_eq_self (a ∷ s) = ground (arith, text_eq_self s)

pub text_eq→≡ : (s t : List ℕ) → text_eq s t ≡ true → s ≡ t
text_eq→≡ [] [] h = refl
text_eq→≡ (a ∷ s) (b ∷ t) h = ground (arith, text_eq→≡ s t)
text_eq→≡ [] (b ∷ t) h = absurd (cc)
text_eq→≡ (a ∷ s) [] h = absurd (cc)
