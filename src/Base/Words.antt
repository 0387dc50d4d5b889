-- ===== src/Base/Words.antt =====
-- Rust's unsigned words. A value is a natural number; what an operation does at the end of its
-- range is written out. `saturating_sub` is the subtraction of natural numbers.
use Prim.Native.Nat.{ℕ, ◌+◌, ◌%◌, min}

abbrev pub u64_max : ℕ
u64_max = 18446744073709551615

abbrev pub u32_max : ℕ
u32_max = 4294967295

-- `a.saturating_add(b)`.
abbrev pub saturating_add : ℕ → ℕ → ℕ
saturating_add a b = min (a + b) u64_max

abbrev pub saturating_add_u32 : ℕ → ℕ → ℕ
saturating_add_u32 a b = min (a + b) u32_max

-- `a + b` of a release build.
abbrev pub wrapping_add : ℕ → ℕ → ℕ
wrapping_add a b = (a + b) % 18446744073709551616

abbrev pub wrapping_add_u32 : ℕ → ℕ → ℕ
wrapping_add_u32 a b = (a + b) % 4294967296
