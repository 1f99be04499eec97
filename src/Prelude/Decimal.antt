-- ===== src/Prelude/Decimal.antt =====
-- `std::to_string` on integers, as bytes.
use Prim.Native.Nat.{ℕ, zero, suc, ◌+◌, ◌/◌, ◌%◌}
use mathlib.Core.List.{[], ◌∷◌, ◌++◌}
use rocketmq_client_cpp.Prelude.Tests.{ltb, if◌then◌else◌}
use rocketmq_client_cpp.Prelude.Text.{Text}
use rocketmq_client_cpp.Prelude.Int.{ℤ, pos, negsuc}

-- The number of digits is at most the number itself and one more, which the fuel is.
digits : ℕ → ℕ → Text
digits zero n = []
digits (suc fuel) n =
    let high = digits fuel (n / 10) in
    if ltb n 10 then (b'0' + n) ∷ [] else high ++ (b'0' + n % 10) ∷ []

unfoldable pub to_string : ℤ → Text
unfolding digits
to_string (pos n) = digits (suc n) n
to_string (negsuc n) = b'-' ∷ digits (suc (suc n)) (suc n)
