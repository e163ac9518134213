-- ===== src/Float/Quantiles.antt =====
-- The ranks of three percentiles and the mean of a list of values, as src/serving/metrics.rs and
-- src/trace/stats.rs take them.
use kvflow_sim.Base.{
  ℕ, ◌*◌, ◌-◌, ◌≤◌, ◌≡◌, List, [], ◌∷◌, In, inl, inr, arith, length, refl, sum_by, ltb, min, subst,
  get_elem?, some, u64_max,
}
use kvflow_sim.Base.Rank.{Spread, in_order-Spread, ranked-Sorted, IsInPlace, placed}
use kvflow_sim.Base.Sort.{sort, sort-In, sum_by-sort, length-sort}
use kvflow_sim.Float.{Float, IsIeee}

pub sum_by-bounded :
    (bound : ℕ) (l : List ℕ) → ((v : ℕ) → In v l → v ≤ bound) → sum_by (λ v. v) l ≤ length l * bound
sum_by-bounded bound [] h = omega arith
sum_by-bounded bound (v ∷ l) h =
    omega (arith, h v (inl refl), sum_by-bounded bound l (λ w i. h w (inr i)))

module _ {F : Type 0} (float : Float F) where
  abbrev pub over : ℕ → ℕ → F
  over n m = float.◌/◌ (float.of_nat n) (float.of_nat m)

  abbrev pub rank : List ℕ → F → ℕ
  rank l q = float.ceil (float.◌*◌ (float.of_nat (length l - 1)) q)

  -- The value in the place of a quantile, whatever the order of the values.
  abbrev pub InPlace : F → List ℕ → ℕ → Type 0
  InPlace q values x = IsInPlace (min (rank values q) (length values - 1)) values x

  at_rank :
      (values : List ℕ) (q : F) {x : ℕ}
      → (let l = sort ltb values in get_elem? l (min (rank l q) (length l - 1)) ≡ some x)
      → InPlace q values x
  at_rank values q {x} h =
      subst
        (λ n. IsInPlace (min (float.ceil (float.◌*◌ (float.of_nat (n - 1)) q)) (n - 1)) values x)
        (length-sort ltb values) (placed values _ h)

  -- The sorted values at the ranks, against the values.
  pub record Ranked (values : List ℕ) : Type 0 where
    pub spread :
        Spread
          (sort ltb values)
          (rank (sort ltb values) float.p50)
          (rank (sort ltb values) float.p95)
          (rank (sort ltb values) float.p99)
    pub among :
        In spread.least values
        × In spread.low values
        × In spread.mid values
        × In spread.high values
        × In spread.greatest values
    pub bounded : (x : ℕ) → In x values → (spread.least ≤ x) × (x ≤ spread.greatest)
    pub in_place :
        InPlace float.p50 values spread.low
        × InPlace float.p95 values spread.mid
        × InPlace float.p99 values spread.high
    pub same_sum : sum_by (λ v. v) (sort ltb values) ≡ sum_by (λ v. v) values
    pub same_length : length (sort ltb values) ≡ length values

  pub values-Ranked :
      (values : List ℕ) → IsIeee float → 1 ≤ length values → length values ≤ u64_max → Ranked values
  values-Ranked values ieee some_there few =
      let l = sort ltb values in
      let longer = length-sort ltb values in
      let sp =
        in_order-Spread l (rank l float.p50) (rank l float.p95) (rank l float.p99)
          (ranked-Sorted values) (omega arith)
          (ieee.round_up _ _ (
            ieee.times _ _ _ (omega arith) ieee.zero-p50 ieee.p50-p95
              (ieee.transitive _ _ _ ieee.p95-p99 ieee.p99-one)))
          (ieee.round_up _ _ (
            ieee.times _ _ _ (omega arith) (ieee.transitive _ _ _ ieee.zero-p50 ieee.p50-p95)
              ieee.p95-p99 ieee.p99-one)) in
      let (a, b, c, d, e) = sp.within in
      let back : (x : ℕ) → In x l → In x values = λ x. (sort-In ltb x values).0 in
      record {
        spread = sp;
        among = (back _ a, back _ b, back _ c, back _ d, back _ e);
        bounded = λ x i. sp.bounded x ((sort-In ltb x values).1 i);
        in_place = (
          at_rank values float.p50 sp.at_i,
          at_rank values float.p95 sp.at_j,
          at_rank values float.p99 sp.at_k,
        );
        same_sum = sum_by-sort ltb (λ x. x) values;
        same_length = longer;
      }
