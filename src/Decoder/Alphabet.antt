-- ===== src/Decoder/Alphabet.antt =====
-- The Morse table of App/cwdecoder/MorseTable.h is a code: its two directions agree.
use cwkeyer.Base.{
  ℕ, ◌≡◌, ◌≢◌, refl, ap, Bool, true, false, ◌&&◌, Option, none, some, List, [], ◌∷◌, arith,
  Option-cases, inl, inr,
}
use cwkeyer.Decoder.MorseTable.{
  not_found, seq_eq, table, find, or_not_found, decode, find_char, encode,
}

seq_eq-eq : (s t : List ℕ) → seq_eq s t ≡ true → s ≡ t
seq_eq-eq [] [] h = refl
seq_eq-eq [] (b ∷ t) h = cc
seq_eq-eq (a ∷ s) [] h = cc
seq_eq-eq (a ∷ s) (b ∷ t) h = ground (arith, seq_eq-eq s t)

-- A test of every entry.
check : (List ℕ → ℕ → Bool) → List (List ℕ × ℕ) → Bool
check p [] = true
check p ((s, c) ∷ rest) = p s c && check p rest

find-check :
    (p : List ℕ → ℕ → Bool) (l : List (List ℕ × ℕ)) (s : List ℕ) (c : ℕ)
    → check p l ≡ true
    → find l s ≡ some c
    → p s c ≡ true
unfolding check find
find-check p [] s c h e = cc
find-check p ((t, d) ∷ rest) s c h e = ground (arith, seq_eq-eq t s, find-check p rest s c)

abbrev is_seq : Option (List ℕ) → List ℕ → Bool
is_seq none s = false
is_seq (some t) s = seq_eq t s

is_seq-eq : (o : Option (List ℕ)) (s : List ℕ) → is_seq o s ≡ true → o ≡ some s
is_seq-eq none s h = cc
is_seq-eq (some t) s h = ap some (seq_eq-eq t s h)

table_forth : check (λ s c. is_seq (encode c) s) table ≡ true
unfolding check table encode find_char
table_forth = refl

-- A sequence that is recognised is that of the character which it decodes to, so no character has two
-- sequences.
encode-decode : (s : List ℕ) → decode s ≢ not_found → encode (decode s) ≡ some s
unfolding decode or_not_found
encode-decode s h = elim (Option-cases (find table s)) [
  | inl e ↦ absurd (h (rw e))
  | inr (c, e) ↦ rw e (is_seq-eq (encode c) s (find-check _ table s c table_forth e))
]
