-- ===== src/Remote/Frame/RoundTrip.antt =====
-- A reader of WebSocket frames by RFC 6455, and that it reads what RemoteClient::sendLine
-- (App/remote/RemoteClient.cpp) writes.
use Prim.Native.Nat.{bit_and, bit_or, bit_xor}
use mathlib.Core.List.{append_assoc}
use cwkeyer.Base.{
  Bool-cases, inl, inr, leb→le, ℕ, zero, suc, ◌+◌, ◌-◌, ◌*◌, ◌/◌, ◌%◌, ◌^◌, ◌<◌, ◌≡◌, refl, ap, ◌∙◌,
  List, [], ◌∷◌, ◌++◌, Option, none, some, length, take, drop, take-length_append,
  drop-length_append, leb, ◌==◌, if◌then◌else◌, arith,
}
use cwkeyer.Base.Bits.{shl, bit_or-shl, bit_and-ones}
use cwkeyer.Base.Text.{Bytes}
use cwkeyer.Remote.Frame.{MaskKey, mask_key, mask_byte, masked, length_bytes, length_field, frame}
use cwkeyer.Remote.Frame.Unmask.{bit_xor_twice}

-- Section 5.3: octet i of the payload is combined with octet i modulo 4 of the key.
unfoldable pub unmask : MaskKey → List ℕ → List ℕ
unmask m [] = []
unmask m (b ∷ bs) =
    bit_xor b m.m₀ ∷ unmask (record { m₀ = m.m₁; m₁ = m.m₂; m₂ = m.m₃; m₃ = m.m₀ }) bs

unfoldable pub read_payload : ℕ → List ℕ → Option (List ℕ × List ℕ)
read_payload n (a ∷ b ∷ c ∷ d ∷ bs) =
    some (unmask (record { m₀ = a; m₁ = b; m₂ = c; m₃ = d }) (take n bs), drop n bs)
read_payload n _ = none

unfoldable pub big_endian : ℕ → List ℕ → ℕ
big_endian acc [] = acc
big_endian acc (b ∷ bs) = big_endian (acc * 256 + b) bs

-- Section 5.2: the payload length stands in 7 bits, or in 2 or 8 octets that follow.
unfoldable pub read_length : ℕ → List ℕ → Option (List ℕ × List ℕ)
unfolding read_payload big_endian
read_length l bs =
    if l == 126
    then read_payload (big_endian 0 (take 2 bs)) (drop 2 bs)
    else if l == 127
    then read_payload (big_endian 0 (take 8 bs)) (drop 8 bs)
    else read_payload l bs

-- A final text frame (first octet 0x81) with the mask bit set in the second octet: its payload, and
-- what follows it.
unfoldable pub read_frame : List ℕ → Option (List ℕ × List ℕ)
unfolding read_length
read_frame (x ∷ y ∷ bs) =
    if x == 0x81 then (if leb 128 y then read_length (y - 128) bs else none) else none
read_frame _ = none

abbrev ByteKey : MaskKey → Type 0
ByteKey m = (m.m₀ < 256) × (m.m₁ < 256) × (m.m₂ < 256) × (m.m₃ < 256)

-- The key as it stands for octet k of a group of four.
rotated : ℕ → MaskKey → MaskKey
rotated zero m = m
rotated (suc zero) m = record { m₀ = m.m₁; m₁ = m.m₂; m₂ = m.m₃; m₃ = m.m₀ }
rotated (suc (suc zero)) m = record { m₀ = m.m₂; m₁ = m.m₃; m₂ = m.m₀; m₃ = m.m₁ }
rotated _ m = record { m₀ = m.m₃; m₁ = m.m₀; m₂ = m.m₁; m₃ = m.m₂ }

unmask-masked :
    (m : MaskKey) (k i : ℕ) (bs : List ℕ)
    → ByteKey m
    → Bytes bs
    → k < 4
    → i % 4 ≡ k
    → unmask (rotated k m) (masked m i bs) ≡ bs
unfolding unmask rotated masked mask_byte
unmask-masked m k i [] hm hb h e = refl
unmask-masked m zero i (b ∷ bs) hm hb h e =
    ground (arith, bit_xor_twice b m.m₀, unmask-masked m 1 (i + 1) bs hm hb.1)
unmask-masked m (suc zero) i (b ∷ bs) hm hb h e =
    ground (arith, bit_xor_twice b m.m₁, unmask-masked m 2 (i + 1) bs hm hb.1)
unmask-masked m (suc (suc zero)) i (b ∷ bs) hm hb h e =
    ground (arith, bit_xor_twice b m.m₂, unmask-masked m 3 (i + 1) bs hm hb.1)
unmask-masked m (suc (suc (suc zero))) i (b ∷ bs) hm hb h e =
    ground (arith, bit_xor_twice b m.m₃, unmask-masked m 0 (i + 1) bs hm hb.1)
unmask-masked m (suc (suc (suc (suc k)))) i (b ∷ bs) hm hb h e = absurd (omega arith)

length-masked : (m : MaskKey) (i : ℕ) (bs : List ℕ) → length (masked m i bs) ≡ length bs
unfolding masked
length-masked m i [] = refl
length-masked m i (b ∷ bs) = ap suc (length-masked m (i + 1) bs)

low_byte : (n : ℕ) → bit_and n 0xff ≡ n % 256
low_byte n = ap (λ s. bit_and s 0xff) whole ∙ bit_and-ones 8 (n / 256) (n % 256) (omega arith)
  where
    whole : n ≡ shl (n / 256) 8 + n % 256
    whole = omega arith

big_endian-length_bytes : (n : ℕ) → n < 2 ^ 64 → big_endian 0 (length_bytes 8 n) ≡ n
unfolding big_endian length_bytes
big_endian-length_bytes n h = omega (
  arith,
  low_byte (n / 2 ^ 56),
  low_byte (n / 2 ^ 48),
  low_byte (n / 2 ^ 40),
  low_byte (n / 2 ^ 32),
  low_byte (n / 2 ^ 24),
  low_byte (n / 2 ^ 16),
  low_byte (n / 2 ^ 8),
  low_byte (n / 2 ^ 0),
)

-- The part of the frame from the key on.
abbrev keyed : MaskKey → List ℕ → List ℕ → List ℕ
keyed m line rest = m.m₀ ∷ m.m₁ ∷ m.m₂ ∷ m.m₃ ∷ masked m 0 line ++ rest

read_payload-keyed :
    (m : MaskKey) (line rest : List ℕ)
    → ByteKey m
    → Bytes line
    → read_payload (length line) (keyed m line rest) ≡ some (line, rest)
unfolding read_payload rotated
read_payload-keyed m line rest hm hl = rw (← length-masked m 0 line) (
    rw (take-length_append (masked m 0 line) rest, drop-length_append (masked m 0 line) rest)
      (rw (unmask-masked m 0 0 line hm hl (omega arith) refl)))

-- The second octet, and the two that may follow.
short_length : (n : ℕ) → n < 128 → bit_or 0x80 n ≡ 128 + n
short_length n h = bit_or-shl 7 1 n h

read_frame-length_field :
    (n : ℕ) (bs : List ℕ)
    → n < 2 ^ 64
    → read_frame (0x81 ∷ length_field n ++ bs) ≡ read_payload n bs
unfolding read_frame length_field length_bytes big_endian
read_frame-length_field n bs h = elim (Bool-cases (leb n 125)) [
  | inl short ↦ rw short (ground (arith, short_length n))
  | inr long ↦ rw long (elim (Bool-cases (leb n 0xffff)) [
    | inl e ↦ rw e (
        ap (λ k. read_payload k bs)
          (omega (arith, low_byte (n / 2 ^ 8), low_byte n, leb→le n 0xffff e)))
    | inr e ↦ rw e (ap (λ k. read_payload k bs) (big_endian-length_bytes n h))
  ])
]

mask_key-ByteKey : (r₀ r₁ r₂ r₃ : ℕ) → ByteKey (mask_key r₀ r₁ r₂ r₃)
unfolding mask_key
mask_key-ByteKey r₀ r₁ r₂ r₃ = omega (arith, low_byte r₀, low_byte r₁, low_byte r₂, low_byte r₃)

-- A reader of frames gets every line of bytes back, with any key, and leaves what follows the
-- frame; the line may have any length that fits into 64 bits, so all three forms of the length
-- field are covered.
pub read_frame-frame :
    (r₀ r₁ r₂ r₃ : ℕ) (line rest : List ℕ)
    → Bytes line
    → length line < 2 ^ 64
    → read_frame (frame (mask_key r₀ r₁ r₂ r₃) line ++ rest) ≡ some (line, rest)
unfolding frame
read_frame-frame r₀ r₁ r₂ r₃ line rest hl h =
    let m = mask_key r₀ r₁ r₂ r₃ in
    simp append_assoc (
      read_frame-length_field (length line) (keyed m line rest) h
      ∙ read_payload-keyed m line rest (mask_key-ByteKey r₀ r₁ r₂ r₃) hl)
