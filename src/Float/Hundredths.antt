-- ===== src/Float/Hundredths.antt =====
-- An arithmetic of hundredths, which meets what is asked of `f64`.
use kvflow_sim.Base.{ℕ, ◌+◌, ◌*◌, ◌/◌, refl, leb, le→leb, leb→le, arith}
use native.Mathlib.Nat.{mul-le-mul_left}
use kvflow_sim.Float.{Float, IsIeee}

unfoldable pub hundredths : Float ℕ
hundredths = record {
  of_nat = λ n. 100 * n;
  ◌+◌ = λ a b. a + b;
  ◌*◌ = λ a b. a * b / 100;
  ◌/◌ = λ a b. 100 * a / b;
  ceil = λ a. (a + 99) / 100;
  leb = leb;
  p50 = 50;
  p95 = 95;
  p99 = 99;
}

pub hundredths-IsIeee : IsIeee hundredths
unfolding hundredths
hundredths-IsIeee = record {
  zero-p50 = refl;
  p50-p95 = refl;
  p95-p99 = refl;
  p99-one = refl;
  transitive = λ a b c h k. le→leb _ _ (omega (arith, leb→le a b h, leb→le b c k));
  times = λ n a b small low h high.
      le→leb _ _ (omega (arith, mul-le-mul_left {m = a} {n = b} n (leb→le a b h)));
  round_up = λ a b h. omega (arith, leb→le a b h);
}
