-- ===== src/Decoder/MorseTable.antt =====
-- App/cwdecoder/MorseTable.h: the Morse alphabet. A text is the list of its character codes.
use cwkeyer.Base.{
  ℕ, Bool, true, false, ◌&&◌, Option, none, some, List, [], ◌∷◌, ◌==◌, if◌then◌else◌,
}
use cwkeyer.Base.Text.{codes}
use cwkeyer.Timing.{KeyerItem, dit}

abbrev pub not_found : ℕ
not_found = 0

abbrev pub sk : ℕ
sk = 1

abbrev pub bk : ℕ
bk = 2

abbrev pub cw_error : ℕ
cw_error = 3

unfoldable pub to_symbol : KeyerItem → ℕ
to_symbol dit = b'.'
to_symbol _ = b'-'

abbrev pub seq_eq : List ℕ → List ℕ → Bool
seq_eq [] [] = true
seq_eq (a ∷ s) (b ∷ t) = a == b && seq_eq s t
seq_eq _ _ = false

-- The entries of s_table in the order of the source.
unfoldable pub table : List (List ℕ × ℕ)
table =
    (codes ".-", b'A')
    ∷ (codes "-...", b'B')
    ∷ (codes "-.-.", b'C')
    ∷ (codes "-..", b'D')
    ∷ (codes ".", b'E')
    ∷ (codes "..-.", b'F')
    ∷ (codes "--.", b'G')
    ∷ (codes "....", b'H')
    ∷ (codes "..", b'I')
    ∷ (codes ".---", b'J')
    ∷ (codes "-.-", b'K')
    ∷ (codes ".-..", b'L')
    ∷ (codes "--", b'M')
    ∷ (codes "-.", b'N')
    ∷ (codes "---", b'O')
    ∷ (codes ".--.", b'P')
    ∷ (codes "--.-", b'Q')
    ∷ (codes ".-.", b'R')
    ∷ (codes "...", b'S')
    ∷ (codes "-", b'T')
    ∷ (codes "..-", b'U')
    ∷ (codes "...-", b'V')
    ∷ (codes ".--", b'W')
    ∷ (codes "-..-", b'X')
    ∷ (codes "-.--", b'Y')
    ∷ (codes "--..", b'Z')
    ∷ (codes "-----", b'0')
    ∷ (codes ".----", b'1')
    ∷ (codes "..---", b'2')
    ∷ (codes "...--", b'3')
    ∷ (codes "....-", b'4')
    ∷ (codes ".....", b'5')
    ∷ (codes "-....", b'6')
    ∷ (codes "--...", b'7')
    ∷ (codes "---..", b'8')
    ∷ (codes "----.", b'9')
    ∷ (codes ".-.-.-", b'.')
    ∷ (codes "--..--", b',')
    ∷ (codes "..--..", b'?')
    ∷ (codes ".----.", 39)
    ∷ (codes "-.-.--", b'!')
    ∷ (codes "-..-.", b'/')
    ∷ (codes "-.--.", b'(')
    ∷ (codes "-.--.-", b')')
    ∷ (codes ".-...", b'&')
    ∷ (codes "---...", b':')
    ∷ (codes "-.-.-.", b';')
    ∷ (codes "-...-", b'=')
    ∷ (codes ".-.-.", b'+')
    ∷ (codes "-....-", b'-')
    ∷ (codes ".-..-.", 34)
    ∷ (codes ".--.-.", b'@')
    ∷ (codes "..--.-", b'_')
    ∷ (codes "...-.-", sk)
    ∷ (codes "-...-.-", bk)
    ∷ (codes "........", cw_error)
    ∷ []

-- std::unordered_map::find, on a table whose keys differ from one another.
unfoldable pub find : List (List ℕ × ℕ) → List ℕ → Option ℕ
find [] s = none
find ((t, c) ∷ rest) s = if seq_eq t s then some c else find rest s

unfoldable pub or_not_found : Option ℕ → ℕ
or_not_found none = not_found
or_not_found (some c) = c

unfoldable pub decode : List ℕ → ℕ
decode s = or_not_found (find table s)

-- The table read backwards: the sequence of a character.
unfoldable pub find_char : List (List ℕ × ℕ) → ℕ → Option (List ℕ)
find_char [] c = none
find_char ((s, d) ∷ rest) c = if d == c then some s else find_char rest c

unfoldable pub encode : ℕ → Option (List ℕ)
encode c = find_char table c
