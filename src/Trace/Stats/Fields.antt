-- ===== src/Trace/Stats/Fields.antt =====
-- `FieldStats::from_values` of src/trace/stats.rs.
use kvflow_sim.Base.{
  ℕ, ap, ◌∙◌, ◌%◌, ◌≤◌, ◌≡◌, refl, List, [], ◌∷◌, In, some, arith, length, sum_by, u32_max, u64_max,
  u64_mod, ltb,
}
use kvflow_sim.Base.Rank.{Spread}
use kvflow_sim.Base.Sort.{sort}
use kvflow_sim.Float.Quantiles.{InPlace, over, rank, sum_by-bounded, values-Ranked}
use kvflow_sim.Float.{Float, IsIeee}
use kvflow_sim.Panic.{done, ◌>>=◌}
use kvflow_sim.Trace.Stats.{FieldStats, stats_of, percentile, from_values}

module _ {F : Type 0} (float : Float F) where
  -- The statistics tell of the values: their ends, three of them in order, and their mean.
  pub record Describes (values : List ℕ) (s : FieldStats F) : Type 0 where
    pub among :
        In s.min values × In s.p50 values × In s.p95 values × In s.p99 values × In s.max values
    pub ordered : (s.min ≤ s.p50) × (s.p50 ≤ s.p95) × (s.p95 ≤ s.p99) × (s.p99 ≤ s.max)
    pub bounded : (v : ℕ) → In v values → (s.min ≤ v) × (v ≤ s.max)
    pub in_place :
        InPlace float float.p50 values s.p50
        × InPlace float float.p95 values s.p95
        × InPlace float float.p99 values s.p99
    pub mean : s.mean ≡ over float (sum_by (λ v. v) values % u64_mod) (length values)

  sorted_stats :
      (l : List ℕ)
      → (sp : Spread l (rank float l float.p50) (rank float l float.p95) (rank float l float.p99))
      → stats_of float l
        ≡ done (record {
          min = sp.least;
          max = sp.greatest;
          mean = over float (sum_by (λ v. v) l % u64_mod) (length l);
          p50 = sp.low;
          p95 = sp.mid;
          p99 = sp.high;
        })
  unfolding percentile
  sorted_stats l sp = rw (sp.first, sp.last, sp.at_i, sp.at_j, sp.at_k) refl

  -- Under the arithmetic of IEEE 754, of some values.
  pub from_values-Describes :
      (values : List ℕ)
      → IsIeee float
      → 1 ≤ length values
      → length values ≤ u64_max
      → (s : FieldStats F) × (from_values float values ≡ done (some s)) × Describes values s
  unfolding from_values
  from_values-Describes [] ieee some_there few = absurd (omega arith)
  from_values-Describes (v ∷ values) ieee some_there few =
      let all : List ℕ = v ∷ values in
      let l = sort ltb all in
      let ranked = values-Ranked float all ieee some_there few in
      (
        _,
        ap (λ o. o >>= (λ s. done (some s))) (sorted_stats l ranked.spread),
        record {
          among = ranked.among;
          ordered = (ranked.spread).ordered;
          bounded = ranked.bounded;
          in_place = ranked.in_place;
          mean =
              ap (λ n. over float (n % u64_mod) (length l)) ranked.same_sum
              ∙ ap (over float (sum_by (λ x. x) all % u64_mod)) ranked.same_length;
        },
      )

  -- Of one to 2 ^ 32 - 1 values of 32 bits, and under the arithmetic of IEEE 754, `from_values`
  -- gives, without a panic, the least and the greatest, three percentiles that are values
  -- themselves and in order, and the mean by the exact sum.
  pub from_values_exact :
      (values : List ℕ)
      → IsIeee float
      → 1 ≤ length values
      → length values ≤ u32_max
      → ((v : ℕ) → In v values → v ≤ u32_max)
      → (s : FieldStats F) × (from_values float values ≡ done (some s))
        × Describes values s
        × (s.mean ≡ over float (sum_by (λ v. v) values) (length values))
  from_values_exact values ieee some_there few small =
      let (s, got, tells) = from_values-Describes values ieee some_there (omega arith) in
      let exact : sum_by (λ v. v) values % u64_mod ≡ sum_by (λ v. v) values =
        omega (arith, sum_by-bounded u32_max values small) in
      (s, got, tells, tells.mean ∙ ap (λ n. over float n (length values)) exact)
