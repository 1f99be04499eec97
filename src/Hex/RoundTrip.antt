-- ===== src/Hex/RoundTrip.antt =====
-- Bytes, their text and back (MixAll.cpp).
use rocketmq_client_cpp.Prelude.{
  ℕ, ◌+◌, ◌*◌, ◌/◌, ◌%◌, ◌≡◌, ◌<◌, refl, ap, some, List, [], ◌∷◌, length, All, arith,
}
use rocketmq_client_cpp.Hex.{digit, hex, hex_char_value, push_byte, binary_loop, hex_to_binary}

hex_char_value-digit : (n : ℕ) → n < 16 → hex_char_value (digit n) ≡ some n
unfolding hex_char_value
hex_char_value-digit n h = ground arith

length-hex : (l : List ℕ) → length (hex l) ≡ 2 * length l
unfolding hex
length-hex [] = refl
length-hex (c ∷ l) = omega (arith, length-hex l)

binary_loop-hex : (l : List ℕ) → All (λ c. c < 256) l → binary_loop (hex l) ≡ some l
unfolding binary_loop hex push_byte
binary_loop-hex [] h = refl
binary_loop-hex (c ∷ l) h =
    let byte : (c % 256 / 16) * 16 + c % 16 ≡ c = omega (arith, h.0) in
    rw
      (
        hex_char_value-digit (c % 256 / 16) (omega arith),
        hex_char_value-digit (c % 16) (omega arith),
        binary_loop-hex l h.1,
      )
      (ap (λ b. some (b ∷ l)) byte)

-- hexToBinary of the text of a list of bytes gives the bytes back.
pub hex_to_binary-hex : (l : List ℕ) → All (λ c. c < 256) l → hex_to_binary (hex l) ≡ some l
unfolding hex_to_binary
hex_to_binary-hex l h =
    let even : length (hex l) % 2 ≡ 0 = omega (arith, length-hex l) in rw even (binary_loop-hex l h)
