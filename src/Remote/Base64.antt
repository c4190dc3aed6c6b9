-- ===== src/Remote/Base64.antt =====
-- base64Encode of App/remote/RemoteClient.cpp, which makes the Sec-WebSocket-Key.
use Prim.Native.Nat.{bit_and, bit_or}
use cwkeyer.Base.{
  Bool, ℕ, zero, suc, ◌+◌, ◌*◌, ◌/◌, ◌^◌, ◌%◌, ◌<◌, ◌≡◌, ◌==◌, not, true, false, ◌&&◌, ap, ◌∙◌,
  if◌then◌else◌, refl, List, [], ◌∷◌, arith,
}
use cwkeyer.Base.Text.{codes, Bytes, all_below, of_all_below}
use cwkeyer.Base.Bits.{shl, bit_or-shl, bit_and-ones}

abbrev pub alphabet : List ℕ
alphabet = codes "ABCDEFGHIJKLMNOPQRSTUVWXYZabcdefghijklmnopqrstuvwxyz0123456789+/"

-- table[i]; the index is below 64.
unfoldable pub at : List ℕ → ℕ → ℕ
at [] i = 0
at (c ∷ cs) zero = c
at (c ∷ cs) (suc i) = at cs i

-- table[(triple >> 18) & 0x3F] and its kin, at the sextet `t` shifted down.
unfoldable pub sextet : ℕ → ℕ
sextet t = at alphabet (bit_and t 0x3f)

-- (octetA << 16) | (octetB << 8) | octetC
unfoldable pub triple : ℕ → ℕ → ℕ → ℕ
triple a b c = bit_or (bit_or (shl a 16) (shl b 8)) c

abbrev pub padding : ℕ
padding = b'='

-- The loop over the octets, three in each round; a missing octet counts as 0 and shows as padding.
unfoldable pub base64_encode : List ℕ → List ℕ
base64_encode [] = []
base64_encode (a ∷ []) =
    let t = triple a 0 0 in sextet (t / 2 ^ 18) ∷ sextet (t / 2 ^ 12) ∷ padding ∷ padding ∷ []
base64_encode (a ∷ b ∷ []) =
    let t = triple a b 0 in
    sextet (t / 2 ^ 18) ∷ sextet (t / 2 ^ 12) ∷ sextet (t / 2 ^ 6) ∷ padding ∷ []
base64_encode (a ∷ b ∷ c ∷ rest) =
    let t = triple a b c in
    sextet (t / 2 ^ 18) ∷ sextet (t / 2 ^ 12) ∷ sextet (t / 2 ^ 6) ∷ sextet t ∷ base64_encode rest

-- The position of a character in the alphabet; the length of the alphabet if it has none.
unfoldable pub position : List ℕ → ℕ → ℕ
position [] c = 0
position (d ∷ cs) c = if d == c then 0 else suc (position cs c)

abbrev value : ℕ → ℕ
value = position alphabet

-- A decoder by the definition of Base64 (RFC 4648): four characters are 24 bits, and the last group
-- is short by an octet for each padding character.
unfoldable pub base64_decode : List ℕ → List ℕ
base64_decode (w ∷ x ∷ y ∷ z ∷ rest) =
    let high = value w * 2 ^ 18 + value x * 2 ^ 12 in
    let bits = high + value y * 2 ^ 6 + value z in
    let more = base64_decode rest in
    if y == padding
    then (high / 2 ^ 16) ∷ more
    else if z == padding
    then ((high + value y * 2 ^ 6) / 2 ^ 16) ∷ ((high + value y * 2 ^ 6) / 2 ^ 8 % 256) ∷ more
    else (bits / 2 ^ 16) ∷ (bits / 2 ^ 8 % 256) ∷ (bits % 256) ∷ more
base64_decode _ = []

in_alphabet : ℕ → Bool
in_alphabet n = value (at alphabet n) == n && not (at alphabet n == padding)

sextet_table : all_below 64 in_alphabet ≡ true
unfolding all_below in_alphabet at position
sextet_table = refl

mask_sextet : (t : ℕ) → bit_and t 0x3f ≡ t % 64
mask_sextet t = ap (λ s. bit_and s 0x3f) whole ∙ bit_and-ones 6 (t / 64) (t % 64) (omega arith)
  where
    whole : t ≡ shl (t / 64) 6 + t % 64
    whole = omega arith

value-sextet : (t : ℕ) → (value (sextet t) ≡ t % 64) × ((sextet t == padding) ≡ false)
unfolding sextet in_alphabet
value-sextet t =
    ground (arith, mask_sextet t, of_all_below 64 in_alphabet (t % 64) sextet_table (omega arith))

triple-sum : (a b c : ℕ) → b < 256 → c < 256 → triple a b c ≡ a * 65536 + b * 256 + c
unfolding triple
triple-sum a b c hb hc =
    ap (λ t. bit_or t c) (bit_or-shl 16 a (shl b 8) (omega arith) ∙ regroup)
    ∙ bit_or-shl 8 (256 * a + b) c (omega arith)
    ∙ omega arith
  where
    regroup : shl a 16 + shl b 8 ≡ shl (256 * a + b) 8
    regroup = omega arith

-- Decoding gives back every sequence of octets, whatever its length modulo 3.
base64_decode-encode : (xs : List ℕ) → Bytes xs → base64_decode (base64_encode xs) ≡ xs
unfolding base64_decode base64_encode
base64_decode-encode [] h = refl
base64_decode-encode (a ∷ []) h =
    let t = triple a 0 0 in
    ground (
      arith,
      triple-sum a 0 0 (omega arith) (omega arith),
      value-sextet (t / 2 ^ 18),
      value-sextet (t / 2 ^ 12),
    )
base64_decode-encode (a ∷ b ∷ []) h =
    let t = triple a b 0 in
    ground (
      arith,
      triple-sum a b 0 h.1.0 (omega arith),
      value-sextet (t / 2 ^ 18),
      value-sextet (t / 2 ^ 12),
      value-sextet (t / 2 ^ 6),
    )
base64_decode-encode (a ∷ b ∷ c ∷ rest) h =
    let t = triple a b c in
    ground (
      arith,
      triple-sum a b c h.1.0 h.1.1.0,
      value-sextet (t / 2 ^ 18),
      value-sextet (t / 2 ^ 12),
      value-sextet (t / 2 ^ 6),
      value-sextet t,
      base64_decode-encode rest h.1.1.1,
    )
