-- ===== src/Serving/Metrics.antt =====
-- src/serving/metrics.rs, for any floating-point arithmetic.
pub mod Latency
pub mod Slos
pub mod Results
use kvflow_sim.Base.{
  ℕ, ◌-◌, ◌^◌, ◌%◌, min, max, ltb, List, [], ◌∷◌, map, Option, none, some, if◌then◌else◌, length,
  get_elem?, sum_by, nat_eq, sat_add, u64_mod,
}
use kvflow_sim.Base.Map
use kvflow_sim.Base.Map.{Map}
use kvflow_sim.Base.Sort.{sort}
use kvflow_sim.Float.{Float}
use kvflow_sim.Panic.{Outcome, done, panic, ◌>>=◌, unwrap}
use kvflow_sim.Trace.Request.{LlmRequest}
use kvflow_sim.Serving.Runner.{RequestResult, ttft_ns, jct_ns, mean_tbt_ns}

pub record LatencyStats (F : Type 0) : Type 0 where
  pub min_ns : ℕ
  pub max_ns : ℕ
  pub mean_ns : F
  pub p50_ns : ℕ
  pub p95_ns : ℕ
  pub p99_ns : ℕ

pub record ServingSummary (F : Type 0) : Type 0 where
  pub completed_requests : ℕ
  pub total_output_tokens : ℕ
  pub makespan_ns : ℕ
  pub throughput_req_s : F
  pub throughput_token_s : F
  pub ttft : LatencyStats F
  pub tbt : LatencyStats F
  pub jct : LatencyStats F
  pub slo_violations_ttft : ℕ
  pub slo_violations_tbt : ℕ

-- The smallest and the greatest of some numbers, behind the first.
abbrev pub least : ℕ → List ℕ → ℕ
least best [] = best
least best (x ∷ l) = least (min best x) l

abbrev pub greatest : ℕ → List ℕ → ℕ
greatest best [] = best
greatest best (x ∷ l) = greatest (max best x) l

-- `.min().unwrap()` and `.max().unwrap()`.
abbrev pub unwrap_min : List ℕ → Outcome ℕ
unwrap_min [] = panic
unwrap_min (x ∷ l) = done (least x l)

abbrev pub unwrap_max : List ℕ → Outcome ℕ
unwrap_max [] = panic
unwrap_max (x ∷ l) = done (greatest x l)

-- The results by their ids: a later one replaces an earlier one.
abbrev pub index_results : Map ℕ RequestResult → List RequestResult → Map ℕ RequestResult
index_results m [] = m
index_results m (r ∷ l) = index_results (Map.insert r.request_id r m) l

unfoldable pub results_by_id : List RequestResult → Map ℕ RequestResult
results_by_id = index_results []

-- One more for a value beyond the objective, up to the greatest `usize`.
abbrev pub violations : Option ℕ → ℕ → ℕ → ℕ
violations none value count = count
violations (some slo) value count = if ltb slo value then sat_add count 1 else count

module _ {F : Type 0} where
  -- The loop over the requests: a request without a result ends it, with the counts so far.
  unfoldable pub count_slos :
      Map ℕ RequestResult
      → ServingSummary F
      → List LlmRequest
      → ServingSummary F × Option (Unit {0})
  count_slos by_id self [] = (self, some tt)
  count_slos by_id self (req ∷ rest) = elim (Map.get req.request_id by_id) [
    | none ↦ (self, none)
    | some result ↦
        count_slos by_id
          (record self {
            slo_violations_ttft =
                violations req.slo_ttft_ns (ttft_ns result) self.slo_violations_ttft;
            slo_violations_tbt =
                violations req.slo_tbt_ns (mean_tbt_ns result) self.slo_violations_tbt;
          })
          rest
  ]

  unfoldable pub apply_slos :
      ServingSummary F → List RequestResult → List LlmRequest → ServingSummary F × Option (Unit {0})
  unfolding results_by_id count_slos
  apply_slos self results requests =
      count_slos (results_by_id results)
        (record self { slo_violations_ttft = 0; slo_violations_tbt = 0 }) requests

  module _ (float : Float F) where
    unfoldable pub percentile : List ℕ → F → Outcome ℕ
    percentile sorted_values q =
        let idx = float.ceil (float.◌*◌ (float.of_nat (length sorted_values - 1)) q) in
        unwrap (get_elem? sorted_values (min idx (length sorted_values - 1)))

    -- Behind the sort; the sum is a `u128`.
    abbrev pub stats_of : List ℕ → Outcome (LatencyStats F)
    stats_of values = do
      first ← unwrap (get_elem? values 0)
      last ← unwrap (get_elem? values (length values - 1))
      half ← percentile values float.p50
      most ← percentile values float.p95
      nearly ← percentile values float.p99
      done (record {
        min_ns = first;
        max_ns = last;
        mean_ns =
            float.◌/◌ (float.of_nat (sum_by (λ v. v) values % 2 ^ 128))
              (float.of_nat (length values));
        p50_ns = half;
        p95_ns = most;
        p99_ns = nearly;
      })

    unfoldable pub from_values : List ℕ → Outcome (Option (LatencyStats F))
    unfolding percentile sort
    from_values [] = done none
    from_values (v ∷ values) = stats_of (sort ltb (v ∷ values)) >>= (λ s. done (some s))

    -- The summary, from the first arrival, the last end and the three statistics.
    abbrev pub summary_of :
        List RequestResult
        → (start_ns finish_ns : ℕ) → (ttft tbt jct : LatencyStats F) → ServingSummary F
    summary_of results start_ns finish_ns ttft tbt jct =
        let makespan_ns = max (finish_ns - start_ns) 1 in
        let total_output_tokens =
          sum_by (λ (x : RequestResult). x.output_tokens) results % u64_mod in
        record {
          completed_requests = length results;
          total_output_tokens = total_output_tokens;
          makespan_ns = makespan_ns;
          throughput_req_s =
              float.◌/◌ (float.◌*◌ (float.of_nat (length results)) (float.of_nat 1000000000))
                (float.of_nat makespan_ns);
          throughput_token_s =
              float.◌/◌ (float.◌*◌ (float.of_nat total_output_tokens) (float.of_nat 1000000000))
                (float.of_nat makespan_ns);
          ttft = ttft;
          tbt = tbt;
          jct = jct;
          slo_violations_ttft = 0;
          slo_violations_tbt = 0;
        }

    unfoldable pub from_results : List RequestResult → Outcome (Option (ServingSummary F))
    unfolding from_values
    from_results [] = done none
    from_results (r ∷ rest) = do
      let results = r ∷ rest
      start_ns ← unwrap_min (map (λ (x : RequestResult). x.arrival_ns) results)
      finish_ns ← unwrap_max (map (λ (x : RequestResult). x.finish_ns) results)
      ttft ← from_values (map ttft_ns results)
      tbt ← from_values (map mean_tbt_ns results)
      jct ← from_values (map jct_ns results)
      ttft ← unwrap ttft
      tbt ← unwrap tbt
      jct ← unwrap jct
      done (some (summary_of results start_ns finish_ns ttft tbt jct))

    -- `?` on each of the two.
    abbrev pub with_slos :
        List RequestResult → List LlmRequest → Option (ServingSummary F) → Option (ServingSummary F)
    with_slos results requests none = none
    with_slos results requests (some summary) =
        let (counted, all) = apply_slos summary results requests in
        elim all [ none ↦ none | some _ ↦ some counted ]

    unfoldable pub from_results_with_slos :
        List RequestResult → List LlmRequest → Outcome (Option (ServingSummary F))
    unfolding from_results apply_slos
    from_results_with_slos results requests =
        from_results results >>= (λ summary. done (with_slos results requests summary))
