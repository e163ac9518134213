-- ===== src/Serving/Metrics/Results.antt =====
-- `ServingSummary::from_results` of src/serving/metrics.rs.
use kvflow_sim.Base.{
  ℕ, ◌-◌, ◌%◌, ◌≤◌, ◌≡◌, refl, ap, inl, inr, List, [], ◌∷◌, In, map, some, arith, length, sum_by,
  min, max, u64_mod, u64_max, length-map,
}
use kvflow_sim.Float.{Float, IsIeee}
use kvflow_sim.Panic.{done}
use kvflow_sim.Serving.Runner.{RequestResult, ttft_ns, jct_ns, mean_tbt_ns}
use kvflow_sim.Serving.Metrics.{ServingSummary, least, greatest, summary_of, from_results}
use kvflow_sim.Serving.Metrics.Latency.{Describes, from_values-Describes}

least-le : (best : ℕ) (l : List ℕ) (x : ℕ) → In x (best ∷ l) → least best l ≤ x
least-le best [] x (inl q) = omega (arith, q)
least-le best [] x (inr i) = absurd i
least-le best (y ∷ l) x (inl q) = omega (arith, q, least-le (min best y) l _ (inl refl))
least-le best (y ∷ l) x (inr (inl q)) = omega (arith, q, least-le (min best y) l _ (inl refl))
least-le best (y ∷ l) x (inr (inr i)) = least-le (min best y) l x (inr i)

le-greatest : (best : ℕ) (l : List ℕ) (x : ℕ) → In x (best ∷ l) → x ≤ greatest best l
le-greatest best [] x (inl q) = omega (arith, q)
le-greatest best [] x (inr i) = absurd i
le-greatest best (y ∷ l) x (inl q) = omega (arith, q, le-greatest (max best y) l _ (inl refl))
le-greatest best (y ∷ l) x (inr (inl q)) = omega (arith, q, le-greatest (max best y) l _ (inl refl))
le-greatest best (y ∷ l) x (inr (inr i)) = le-greatest (max best y) l x (inr i)

In-map :
    (f : RequestResult → ℕ) (r : RequestResult) (l : List RequestResult)
    → In r l
    → In (f r) (map f l)
In-map f r [] i = i
In-map f r (x ∷ l) (inl q) = inl (ap f q)
In-map f r (x ∷ l) (inr i) = inr (In-map f r l i)

module _ {F : Type 0} (float : Float F) where
  -- What a summary says of the results.
  pub record Sums (results : List RequestResult) (s : ServingSummary F) : Type 0 where
    pub completed : s.completed_requests ≡ length results
    pub tokens :
        s.total_output_tokens ≡ sum_by (λ (r : RequestResult). r.output_tokens) results % u64_mod
    pub positive : 1 ≤ s.makespan_ns
    pub spans :
        (a b : RequestResult)
        → In a results
        → In b results
        → b.finish_ns - a.arrival_ns ≤ s.makespan_ns
    pub ttft : Describes float (map ttft_ns results) s.ttft
    pub tbt : Describes float (map mean_tbt_ns results) s.tbt
    pub jct : Describes float (map jct_ns results) s.jct
    pub unjudged : (s.slo_violations_ttft ≡ 0) × (s.slo_violations_tbt ≡ 0)

  -- Under the arithmetic of IEEE 754 a summary of some results comes without a panic: it counts
  -- them and their tokens, its span is positive and no shorter than from any arrival to any end,
  -- and its three statistics tell of the results' times.
  pub from_results-Sums :
      (results : List RequestResult)
      → IsIeee float
      → 1 ≤ length results
      → length results ≤ u64_max
      → (s : ServingSummary F) × (from_results float results ≡ done (some s)) × Sums results s
  unfolding from_results
  from_results-Sums [] ieee some_there few = absurd (omega arith)
  from_results-Sums (r ∷ rest) ieee some_there few =
      let results = r ∷ rest in
      let (first, got_first, ttft) =
        from_values-Describes float (map ttft_ns results) ieee (omega arith)
          (omega (arith, few, length-map ttft_ns results)) in
      let (between, got_between, tbt) =
        from_values-Describes float (map mean_tbt_ns results) ieee (omega arith)
          (omega (arith, few, length-map mean_tbt_ns results)) in
      let (whole, got_whole, jct) =
        from_values-Describes float (map jct_ns results) ieee (omega arith)
          (omega (arith, few, length-map jct_ns results)) in
      (
        summary_of float results
            (least r.arrival_ns (map (λ (x : RequestResult). x.arrival_ns) rest))
            (greatest r.finish_ns (map (λ (x : RequestResult). x.finish_ns) rest)) first between
            whole,
        rw (got_first, got_between, got_whole) refl,
        record {
          completed = refl;
          tokens = refl;
          positive = omega arith;
          spans = λ a b in_a in_b. omega (
            arith,
            least-le r.arrival_ns (map (λ (x : RequestResult). x.arrival_ns) rest) a.arrival_ns
                (In-map (λ (x : RequestResult). x.arrival_ns) a results in_a),
            le-greatest r.finish_ns (map (λ (x : RequestResult). x.finish_ns) rest) b.finish_ns
                (In-map (λ (x : RequestResult). x.finish_ns) b results in_b),
          );
          ttft = ttft;
          tbt = tbt;
          jct = jct;
          unjudged = (refl, refl);
        },
      )
