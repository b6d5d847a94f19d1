-- ===== src/Common/Words.antt =====
-- The 64-bit words of the program: `u64` with wrap-around, and `usize` that saturates.
use Prim.Native.Nat.{ℕ, ◌+◌, ◌-◌, ◌%◌, min}

-- 2 ^ 64
abbrev pub u64_modulus : ℕ
u64_modulus = 18446744073709551616

abbrev pub u64_max : ℕ
u64_max = 18446744073709551615

abbrev pub wrapping_add : ℕ → ℕ → ℕ
wrapping_add a b = (a + b) % u64_modulus

-- `-` on ℕ stops at 0, as `saturating_sub` does.
abbrev pub saturating_sub : ℕ → ℕ → ℕ
saturating_sub a b = a - b

abbrev pub saturating_add : ℕ → ℕ → ℕ
saturating_add a b = min (a + b) u64_max
