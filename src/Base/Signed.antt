-- ===== src/Base/Signed.antt =====
-- Signed 64-bit numbers: an `i64` x is the number x + 2^63, so that the order is that of the numbers.
-- Sums and differences wrap.
use ai_systems_verification.Base.{ℕ, ◌+◌, ◌-◌, ◌%◌, ◌^◌}

abbrev pub zero_i64 : ℕ
zero_i64 = 2 ^ 63

abbrev pub max_i64 : ℕ
max_i64 = 2 ^ 64 - 1

abbrev pub add_i64 : ℕ → ℕ → ℕ
add_i64 a b = (a + b + 2 ^ 63) % 2 ^ 64

abbrev pub sub_i64 : ℕ → ℕ → ℕ
sub_i64 a b = (a + 2 ^ 63 + 2 ^ 64 - b) % 2 ^ 64
