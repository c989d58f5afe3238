-- ===== src/Base/Words.antt =====
-- Go's fixed-width unsigned integers as native numbers, with the wrap-around written out.
use Prim.Native.Nat.{ℕ, ◌+◌, ◌-◌, ◌%◌, ◌^◌}

abbrev pub u16_mod : ℕ
u16_mod = 2 ^ 16

abbrev pub u32_mod : ℕ
u32_mod = 2 ^ 32

abbrev pub u64_mod : ℕ
u64_mod = 2 ^ 64

-- A conversion `uint16(x)` of a number that is not negative.
abbrev pub to_u16 : ℕ → ℕ
to_u16 x = x % u16_mod

abbrev pub add16 : ℕ → ℕ → ℕ
add16 a b = (a + b) % u16_mod

-- `a - b` of two uint16.
abbrev pub sub16 : ℕ → ℕ → ℕ
sub16 a b = (a + u16_mod - b) % u16_mod

abbrev pub to_u32 : ℕ → ℕ
to_u32 x = x % u32_mod

abbrev pub add32 : ℕ → ℕ → ℕ
add32 a b = (a + b) % u32_mod

abbrev pub add64 : ℕ → ℕ → ℕ
add64 a b = (a + b) % u64_mod
