-- ===== src/Remote/Frame.antt =====
-- The WebSocket frame that RemoteClient::sendLine builds (App/remote/RemoteClient.cpp).
pub mod Unmask
pub mod RoundTrip
use Prim.Native.Nat.{bit_and, bit_or, bit_xor}
use cwkeyer.Base.{
  ℕ, zero, suc, ◌+◌, ◌*◌, ◌/◌, ◌%◌, ◌^◌, List, [], ◌∷◌, ◌++◌, length, leb, if◌then◌else◌,
}

-- The four bytes of maskKey.
pub record MaskKey : Type 0 where
  pub m₀ : ℕ
  pub m₁ : ℕ
  pub m₂ : ℕ
  pub m₃ : ℕ

-- std::rand() & 0xFF, four times.
unfoldable pub mask_key : ℕ → ℕ → ℕ → ℕ → MaskKey
mask_key r₀ r₁ r₂ r₃ = record {
  m₀ = bit_and r₀ 0xff;
  m₁ = bit_and r₁ 0xff;
  m₂ = bit_and r₂ 0xff;
  m₃ = bit_and r₃ 0xff;
}

-- maskKey[i % 4]
unfoldable pub mask_byte : MaskKey → ℕ → ℕ
mask_byte m zero = m.m₀
mask_byte m (suc zero) = m.m₁
mask_byte m (suc (suc zero)) = m.m₂
mask_byte m _ = m.m₃

-- The loop over the bytes of the line, from index i on.
unfoldable pub masked : MaskKey → ℕ → List ℕ → List ℕ
masked m i [] = []
masked m i (b ∷ bs) = bit_xor b (mask_byte m (i % 4)) ∷ masked m (i + 1) bs

-- The loop that writes n from byte i - 1 down to byte 0.
unfoldable pub length_bytes : ℕ → ℕ → List ℕ
length_bytes zero n = []
length_bytes (suc i) n = bit_and (n / 2 ^ (8 * i)) 0xff ∷ length_bytes i n

-- The payload length with the mask bit.
unfoldable pub length_field : ℕ → List ℕ
length_field n =
    if leb n 125
    then bit_or 0x80 n ∷ []
    else if leb n 0xffff
    then bit_or 0x80 126 ∷ bit_and (n / 2 ^ 8) 0xff ∷ bit_and n 0xff ∷ []
    else bit_or 0x80 127 ∷ length_bytes 8 n

unfoldable pub frame : MaskKey → List ℕ → List ℕ
frame m line = 0x81 ∷ length_field (length line) ++ m.m₀ ∷ m.m₁ ∷ m.m₂ ∷ m.m₃ ∷ masked m 0 line
