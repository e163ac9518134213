-- ===== src/Serving/Metrics/Latency.antt =====
-- `LatencyStats::from_values` of src/serving/metrics.rs.
use kvflow_sim.Base.{
  ℕ, ap, ◌∙◌, ◌^◌, ◌%◌, ◌≤◌, ◌≡◌, refl, List, [], ◌∷◌, In, some, arith, length, sum_by, u64_max,
  ltb,
}
use kvflow_sim.Base.Rank.{Spread}
use kvflow_sim.Base.Sort.{sort}
use kvflow_sim.Float.Quantiles.{InPlace, over, rank, sum_by-bounded, values-Ranked}
use kvflow_sim.Float.{Float, IsIeee}
use kvflow_sim.Panic.{done, ◌>>=◌}
use kvflow_sim.Serving.Metrics.{LatencyStats, stats_of, percentile, from_values}

module _ {F : Type 0} (float : Float F) where
  -- The statistics tell of the values: their ends, three of them in order, and their mean.
  pub record Describes (values : List ℕ) (s : LatencyStats F) : Type 0 where
    pub among :
        In s.min_ns values
        × In s.p50_ns values
        × In s.p95_ns values
        × In s.p99_ns values
        × In s.max_ns values
    pub ordered :
        (s.min_ns ≤ s.p50_ns)
        × (s.p50_ns ≤ s.p95_ns)
        × (s.p95_ns ≤ s.p99_ns)
        × (s.p99_ns ≤ s.max_ns)
    pub bounded : (v : ℕ) → In v values → (s.min_ns ≤ v) × (v ≤ s.max_ns)
    pub in_place :
        InPlace float float.p50 values s.p50_ns
        × InPlace float float.p95 values s.p95_ns
        × InPlace float float.p99 values s.p99_ns
    pub mean : s.mean_ns ≡ over float (sum_by (λ v. v) values % 2 ^ 128) (length values)

  sorted_stats :
      (l : List ℕ)
      → (sp : Spread l (rank float l float.p50) (rank float l float.p95) (rank float l float.p99))
      → stats_of float l
        ≡ done (record {
          min_ns = sp.least;
          max_ns = sp.greatest;
          mean_ns = over float (sum_by (λ v. v) l % 2 ^ 128) (length l);
          p50_ns = sp.low;
          p95_ns = sp.mid;
          p99_ns = sp.high;
        })
  unfolding percentile
  sorted_stats l sp = rw (sp.first, sp.last, sp.at_i, sp.at_j, sp.at_k) refl

  -- Under the arithmetic of IEEE 754, of some values.
  pub from_values-Describes :
      (values : List ℕ)
      → IsIeee float
      → 1 ≤ length values
      → length values ≤ u64_max
      → (s : LatencyStats F) × (from_values float values ≡ done (some s)) × Describes values s
  unfolding from_values
  from_values-Describes [] ieee some_there few = absurd (omega arith)
  from_values-Describes (v ∷ values) ieee some_there few =
      let all : List ℕ = v ∷ values in
      let l = sort ltb all in
      let ranked = values-Ranked float all ieee some_there few in
      (
        _,
        ap (λ o. o >>= (λ s. done (some s))) (sorted_stats l ranked.spread),
        record {
          among = ranked.among;
          ordered = (ranked.spread).ordered;
          bounded = ranked.bounded;
          in_place = ranked.in_place;
          mean =
              ap (λ n. over float (n % 2 ^ 128) (length l)) ranked.same_sum
              ∙ ap (over float (sum_by (λ x. x) all % 2 ^ 128)) ranked.same_length;
        },
      )

  -- Of one to 2 ^ 64 - 1 values of 64 bits, and under the arithmetic of IEEE 754, `from_values`
  -- gives, without a panic, the least and the greatest, three percentiles in order, each the value
  -- in its place, with no more values below it than the place and more than that no greater, and
  -- the mean by the exact sum, which does not overflow.
  pub from_values_exact :
      (values : List ℕ)
      → IsIeee float
      → 1 ≤ length values
      → length values ≤ u64_max
      → ((v : ℕ) → In v values → v ≤ u64_max)
      → (s : LatencyStats F) × (from_values float values ≡ done (some s))
        × Describes values s
        × (s.mean_ns ≡ over float (sum_by (λ v. v) values) (length values))
  from_values_exact values ieee some_there few small =
      let (s, got, tells) = from_values-Describes values ieee some_there few in
      let exact : sum_by (λ v. v) values % 2 ^ 128 ≡ sum_by (λ v. v) values =
        omega (arith, sum_by-bounded u64_max values small) in
      (s, got, tells, tells.mean ∙ ap (λ n. over float n (length values)) exact)
