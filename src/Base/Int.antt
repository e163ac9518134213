-- ===== src/Base/Int.antt =====
-- `i128` as the program uses it: differences of unsigned numbers, which wrap in a release build.
use kvflow_sim.Base.{ℕ, suc, ◌+◌, ◌-◌, ◌^◌, Bool, leb, ltb, if◌then◌else◌}

-- `negsuc n` is -(n + 1).
pub data ℤ : Type 0 where
  pos : ℕ → ℤ
  negsuc : ℕ → ℤ

abbrev pub pos_part : ℤ → ℕ
pos_part (pos n) = n
pos_part (negsuc n) = 0

abbrev pub neg_part : ℤ → ℕ
neg_part (pos n) = 0
neg_part (negsuc n) = suc n

-- a - b, as an integer.
abbrev pub sub_ℕ : ℕ → ℕ → ℤ
sub_ℕ a b = if leb b a then pos (a - b) else negsuc (b - a - 1)

abbrev pub ltb_ℤ : ℤ → ℤ → Bool
ltb_ℤ a b = ltb (pos_part a + neg_part b) (pos_part b + neg_part a)

abbrev pub i128_max : ℕ
i128_max = 2 ^ 127 - 1

-- The result of one operation on `i128`s, brought back into range.
abbrev pub wrap_i128 : ℤ → ℤ
wrap_i128 (pos n) = if leb n i128_max then pos n else negsuc (2 ^ 128 - n - 1)
wrap_i128 (negsuc n) = if leb n i128_max then negsuc n else pos (2 ^ 128 - n - 1)

abbrev pub sub_i128 : ℤ → ℤ → ℤ
sub_i128 a b = wrap_i128 (sub_ℕ (pos_part a + neg_part b) (neg_part a + pos_part b))
