-- ===== src/Float.antt =====
-- `f64` as src/serving/metrics.rs and src/trace/stats.rs use it: the arithmetic of the machine, a
-- parameter of the model, and what IEEE 754 says of it.
pub mod Quantiles
pub mod Hundredths
use kvflow_sim.Base.{ℕ, ◌≤◌, ◌≡◌, true, Bool, u64_max}

-- `of_nat` is `as f64`, `ceil` is `.ceil() as usize`, and `leb` is `<=`.
pub record Float (F : Type 0) : Type 0 where
  pub of_nat : ℕ → F
  pub ◌+◌ : F → F → F
  pub ◌*◌ : F → F → F
  pub ◌/◌ : F → F → F
  pub ceil : F → ℕ
  pub leb : F → F → Bool
  -- The literals 0.50, 0.95 and 0.99.
  pub p50 : F
  pub p95 : F
  pub p99 : F

-- The literals are read in their order, between 0 and 1. `<=` is transitive, a NaN being neither
-- below nor above anything; the product of a 64-bit number with a number from 0 to 1 is monotone, and
-- so is the rounding up with its conversion, which saturates.
pub record IsIeee {F : Type 0} (float : Float F) : Type 0 where
  pub zero-p50 : float.leb (float.of_nat 0) float.p50 ≡ true
  pub p50-p95 : float.leb float.p50 float.p95 ≡ true
  pub p95-p99 : float.leb float.p95 float.p99 ≡ true
  pub p99-one : float.leb float.p99 (float.of_nat 1) ≡ true
  pub transitive : (a b c : F) → float.leb a b ≡ true → float.leb b c ≡ true → float.leb a c ≡ true
  pub times :
      (n : ℕ) (a b : F)
      → n ≤ u64_max
      → float.leb (float.of_nat 0) a ≡ true
      → float.leb a b ≡ true
      → float.leb b (float.of_nat 1) ≡ true
      → float.leb (float.◌*◌ (float.of_nat n) a) (float.◌*◌ (float.of_nat n) b) ≡ true
  pub round_up : (a b : F) → float.leb a b ≡ true → float.ceil a ≤ float.ceil b
