-- ===== src/Serving/SummaryTests.antt =====
-- src/serving/metrics.rs on a run, and on a few values.
use kvflow_sim.Base.{
  In, inl, sum_by, u64_max, map, nat_eq, ℕ, ◌≤◌, ◌≡◌, refl, List, [], ◌∷◌, Option, none, some,
  arith, length,
}
use kvflow_sim.Float.Hundredths.{hundredths, hundredths-IsIeee}
use kvflow_sim.Float.Quantiles.{over}
use kvflow_sim.Panic.{Outcome, done}
use kvflow_sim.Trace.Request.{LlmRequest}
use kvflow_sim.Transfer.Analytical.{AnalyticalTransferModel}
use kvflow_sim.Transfer.Model.{analytical}
use kvflow_sim.Policy.Baselines.{RemoteLru}
use kvflow_sim.Policy.Interface.{remote}
use kvflow_sim.Serving.Runner
use kvflow_sim.Serving.Runner.{RequestResult, ttft_ns, jct_ns, mean_tbt_ns}
use kvflow_sim.Serving.Engine.{Engine}
use kvflow_sim.Serving.Engine.Load.{asked}
use kvflow_sim.Serving.CacheRunner
use kvflow_sim.Serving.CacheRunner.{CacheAwareRunner}
use kvflow_sim.Serving.CacheRunner.Handlers
use kvflow_sim.Serving.CacheRunner.Complete.{IsCounted}
use kvflow_sim.Serving.Metrics.{
  LatencyStats, ServingSummary, summary_of, from_results_with_slos, from_results, apply_slos,
  count_slos, results_by_id, from_values, percentile,
}
use kvflow_sim.Serving.Metrics.Latency.{from_values_exact, Describes}
use kvflow_sim.Serving.Metrics.Slos.{apply_slos_lacks}
use kvflow_sim.Serving.Summary.{
  Judges, no_reuse_run_summary, event_driven_run_summary, cache_aware_run_summary,
  cache_aware_summarizes,
}
use kvflow_sim.Serving.Fixtures.{program, turn, runner, session, in_order, cached, fresh}

-- The session, with an objective that its first turn meets and the others miss.
abbrev in_a_hurry : LlmRequest → LlmRequest
in_a_hurry q = record q { slo_ttft_ns = some 5_000_000; slo_tbt_ns = some 1 }

abbrev hurried : List LlmRequest
hurried = map in_a_hurry session

once_each : (k : ℕ) → asked k hurried ≤ 1
once_each k = ground arith

abbrev summary_in :
    Outcome (Option (Engine × Option (ServingSummary ℕ))) → Option (ServingSummary ℕ)
summary_in (done (some (_, summary))) = summary
summary_in _ = none

metrics : Unit {0}
unfolding program event_driven_run_summary from_results_with_slos from_results apply_slos count_slos
    results_by_id from_values percentile hundredths ttft_ns jct_ns mean_tbt_ns Runner.run
    no_reuse_run_summary cache_aware_run_summary
metrics = tt

-- How many are done, the times to the first token, and how many turns miss each objective.
numbers : Option (ServingSummary ℕ) → List ℕ
numbers none = []
numbers (some s) =
    s.completed_requests
    ∷ s.makespan_ns
    ∷ (s.ttft).min_ns
    ∷ (s.ttft).p50_ns
    ∷ (s.ttft).p95_ns
    ∷ (s.ttft).max_ns
    ∷ s.slo_violations_ttft
    ∷ s.slo_violations_tbt
    ∷ []

two_turns_are_late :
    numbers (summary_in (event_driven_run_summary hundredths runner hurried))
    ≡ 3 ∷ 48_112_000 ∷ 4_331_000 ∷ 5_239_000 ∷ 6_135_000 ∷ 6_135_000 ∷ 2 ∷ 3 ∷ []
unfolding metrics runner numbers
two_turns_are_late = refl

remote_cache : CacheAwareRunner RemoteLru AnalyticalTransferModel
unfolding cached CacheRunner.new
remote_cache = cached (record { target_node = 0 })

cache_aware_summarizes_example :
    (c : CacheAwareRunner RemoteLru AnalyticalTransferModel) × (results : List RequestResult)
    × (s : ServingSummary ℕ) × (Handlers.run analytical (remote in_order) remote_cache hurried
        ≡ done (some (c, results)))
    × (cache_aware_run_summary hundredths analytical (remote in_order) remote_cache hurried
        ≡ done (some (c, some (s, c.hits))))
    × Judges hundredths hurried results s
    × IsCounted s.completed_requests c.hits
unfolding remote_cache cached CacheRunner.new
cache_aware_summarizes_example =
    cache_aware_summarizes hundredths hundredths-IsIeee hurried (omega arith) (omega arith)
      once_each analytical (remote in_order) remote_cache fresh

three_times : List ℕ
three_times = 30 ∷ 10 ∷ 20 ∷ []

three_times-small : (v : ℕ) → In v three_times → v ≤ u64_max
unfolding three_times
three_times-small v i = ground (arith, i)

from_values_exact_example :
    (s : LatencyStats ℕ) × (from_values hundredths three_times ≡ done (some s))
    × Describes hundredths three_times s
    × (s.mean_ns ≡ over hundredths (sum_by (λ v. v) three_times) (length three_times))
unfolding three_times
from_values_exact_example =
    from_values_exact hundredths three_times hundredths-IsIeee (omega arith) (omega arith)
      three_times-small

blank : ServingSummary ℕ
blank = summary_of hundredths [] 0 0 times times times
  where
    times : LatencyStats ℕ
    times = record { min_ns = 0; max_ns = 0; mean_ns = 0; p50_ns = 0; p95_ns = 0; p99_ns = 0 }

apply_slos_lacks_example : (apply_slos blank [] hurried).1 ≡ none
unfolding blank
apply_slos_lacks_example =
    apply_slos_lacks [] blank hurried (in_a_hurry (turn 0 0 1024 1024)) (inl refl) refl
