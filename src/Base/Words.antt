-- ===== src/Base/Words.antt =====
-- Unsigned machine words: numbers below 2 ^ w with the wrap-around written out.
use Prim.Native.Nat.{ℕ, ◌+◌, ◌-◌, ◌%◌, ◌^◌, ◌<◌}

abbrev pub IsU8 : ℕ → Type 0
IsU8 n = n < 256

abbrev pub IsU16 : ℕ → Type 0
IsU16 n = n < 2 ^ 16

abbrev pub IsU32 : ℕ → Type 0
IsU32 n = n < 2 ^ 32

abbrev pub IsU64 : ℕ → Type 0
IsU64 n = n < 2 ^ 64

-- `uint32_t` and `uint64_t` (or `size_t`) addition and subtraction. The subtrahend of `sub32` and
-- `sub64` is a word, so it is at most the modulus.
abbrev pub add32 : ℕ → ℕ → ℕ
add32 a b = (a + b) % 2 ^ 32

abbrev pub sub32 : ℕ → ℕ → ℕ
sub32 a b = (a + 2 ^ 32 - b) % 2 ^ 32

abbrev pub add64 : ℕ → ℕ → ℕ
add64 a b = (a + b) % 2 ^ 64

abbrev pub sub64 : ℕ → ℕ → ℕ
sub64 a b = (a + 2 ^ 64 - b) % 2 ^ 64

-- `UINT16_MAX`, `UINT32_MAX`
abbrev pub uint16_max : ℕ
uint16_max = 0xffff

abbrev pub uint32_max : ℕ
uint32_max = 0xffff_ffff
