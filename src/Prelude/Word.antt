-- ===== src/Prelude/Word.antt =====
-- Unsigned integers of 32 and 64 bits, which wrap.
use rocketmq_client_cpp.Prelude.{ℕ, ◌+◌, ◌-◌, ◌%◌}

abbrev pub u32 : ℕ → ℕ
u32 n = n % 4_294_967_296

abbrev pub u64 : ℕ → ℕ
u64 n = n % 18_446_744_073_709_551_616

-- `fetch_sub` on the two counters.
abbrev pub sub_u32 : ℕ → ℕ → ℕ
sub_u32 a b = u32 (a + 4_294_967_296 - u32 b)

abbrev pub sub_u64 : ℕ → ℕ → ℕ
sub_u64 a b = u64 (a + 18_446_744_073_709_551_616 - u64 b)
