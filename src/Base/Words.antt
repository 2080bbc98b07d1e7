-- ===== src/Base/Words.antt =====
-- `u32` arithmetic as the release build performs it: numbers below 2 ^ 32, wrapping.
use Prim.Native.Nat.{ℕ, ◌+◌, ◌-◌, ◌*◌, ◌%◌, ◌^◌, ◌≤◌, ◌<◌}
use mathlib.Core.Path.{◌≡◌}
use native.Mathlib.Omega.{arith}
use native.Mathlib.Nat.{mod-eq_of_lt}

abbrev pub u32_mod : ℕ
u32_mod = 2 ^ 32

unfoldable pub add32 : ℕ → ℕ → ℕ
add32 a b = (a + b) % u32_mod

unfoldable pub sub32 : ℕ → ℕ → ℕ
sub32 a b = (a + u32_mod - b) % u32_mod

unfoldable pub mul32 : ℕ → ℕ → ℕ
mul32 a b = a * b % u32_mod

-- Where the true result fits, the wrapping operation gives it.
pub add32_fits : (a b : ℕ) → a + b < u32_mod → add32 a b ≡ a + b
unfolding add32
add32_fits a b h = omega arith

pub sub32_fits : (a b : ℕ) → b ≤ a → a < u32_mod → sub32 a b ≡ a - b
unfolding sub32
sub32_fits a b h k = omega arith

pub mul32_fits : (a b : ℕ) → a * b < u32_mod → mul32 a b ≡ a * b
unfolding mul32
mul32_fits a b h = mod-eq_of_lt h
