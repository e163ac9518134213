-- ===== src/Base/Word.antt =====
-- Rust's unsigned arithmetic as the program uses it: `saturating_add`, `saturating_mul` and
-- `saturating_sub` (which is the truncated `-` of ℕ), and the plain `+` and `*` of a release
-- build, which wrap.
use Prim.Native.Nat.{ℕ, ◌+◌, ◌-◌, ◌*◌, ◌%◌, ◌^◌, ◌≤◌, min}
use mathlib.Core.Path.{◌≡◌}
use native.Mathlib.Omega.{arith}

abbrev pub u64_mod : ℕ
u64_mod = 2 ^ 64

abbrev pub u64_max : ℕ
u64_max = 2 ^ 64 - 1

abbrev pub u32_max : ℕ
u32_max = 2 ^ 32 - 1

abbrev pub u128_max : ℕ
u128_max = 2 ^ 128 - 1

abbrev pub sat_add : ℕ → ℕ → ℕ
sat_add a b = min (a + b) u64_max

abbrev pub sat_mul : ℕ → ℕ → ℕ
sat_mul a b = min (a * b) u64_max

abbrev pub wrap_add : ℕ → ℕ → ℕ
wrap_add a b = (a + b) % u64_mod

abbrev pub wrap_mul : ℕ → ℕ → ℕ
wrap_mul a b = (a * b) % u64_mod

pub wrap_add_exact : (a b : ℕ) → a + b ≤ u64_max → wrap_add a b ≡ a + b
wrap_add_exact a b h = omega arith
