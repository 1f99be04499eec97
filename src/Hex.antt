-- ===== src/Hex.antt =====
-- Hexadecimal text: `hex`, `hexToBinary` and `hexCharValue` of src/main/cpp/base/MixAll.cpp.
pub mod RoundTrip
use rocketmq_client_cpp.Prelude.{
  ℕ, zero, suc, ◌+◌, ◌-◌, ◌*◌, ◌/◌, ◌%◌, Bool, true, false, not, ◌&&◌, Option, none, some, List, [],
  ◌∷◌, length, ltb, leb, ◌==◌, if◌then◌else◌,
}
use rocketmq_client_cpp.Prelude.Text.{Text}

-- The entry of `dict`: '0' to '9', then 'A' to 'F'.
abbrev pub digit : ℕ → ℕ
digit n = if ltb n 10 then 48 + n else 55 + n

-- The high half and the low half of each byte.
unfoldable pub hex : List ℕ → Text
hex [] = []
hex (c ∷ l) = digit (c % 256 / 16) ∷ digit (c % 16) ∷ hex l

unfoldable pub hex_char_value : ℕ → Option ℕ
hex_char_value c =
    if leb 48 c && leb c 57
    then some (c - 48)
    else if leb 97 c && leb c 102
    then some (c - 87)
    else if leb 65 c && leb c 70
    then some (c - 55)
    else none

-- A byte of two digits, before the bytes that follow; `none` where the code returns false.
pub push_byte : Option ℕ → Option ℕ → Option (List ℕ) → Option (List ℕ)
push_byte none low rest = none
push_byte (some h) none rest = none
push_byte (some h) (some l) none = none
push_byte (some h) (some l) (some bin) = some ((h * 16 + l) ∷ bin)

-- The loop, on a text of an even length.
unfoldable pub binary_loop : Text → Option (List ℕ)
unfolding push_byte
binary_loop [] = some []
binary_loop (c ∷ []) = none
binary_loop (c ∷ d ∷ s) = push_byte (hex_char_value c) (hex_char_value d) (binary_loop s)

unfoldable pub hex_to_binary : Text → Option (List ℕ)
hex_to_binary s = if not (length s % 2 == 0) then none else binary_loop s
