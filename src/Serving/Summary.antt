-- ===== src/Serving/Summary.antt =====
-- `run_summary` of the three runners of src/serving: a run, and what its results come to.
use kvflow_sim.Base.{
  ℕ, nat_eq, ◌-◌, ◌≤◌, ◌≡◌, refl, sym, subst, ◌∙◌, ap, inl, inr, List, [], ◌∷◌, In, map, Option,
  none, some, arith, length, u64_max, ◌==◌,
}
use kvflow_sim.Base.Counts.{same_counts-length}
use kvflow_sim.Base.Sort.{sort, sum_by-sort}
use kvflow_sim.Float.{Float, IsIeee}
use kvflow_sim.Panic.{Outcome, done, ◌>>=◌}
use kvflow_sim.Trace.Request.{LlmRequest}
use kvflow_sim.Transfer.Model.{TransferModel}
use kvflow_sim.Policy.Interface.{PlacementPolicy}
use kvflow_sim.Serving.Runner
use kvflow_sim.Serving.Runner.{NoReuseRunner, earlier, RequestResult, ttft_ns, jct_ns, mean_tbt_ns}
use kvflow_sim.Serving.Workers.{HasWorkers, Serves, run-Completes}
use kvflow_sim.Serving.Engine.{Engine}
use kvflow_sim.Serving.Engine.Sound.{is, completed}
use kvflow_sim.Serving.Engine.Load.{Fresh, asked}
use kvflow_sim.Serving.Scheduler
use kvflow_sim.Serving.Complete.{run_finishes}
use kvflow_sim.Serving.CacheRunner.{CacheAwareRunner, CacheHitStats}
use kvflow_sim.Serving.CacheRunner.Handlers
use kvflow_sim.Serving.CacheRunner.Complete.{cache_run_finishes, IsCounted}
use kvflow_sim.Serving.Metrics.{ServingSummary, with_slos, from_results_with_slos}
use kvflow_sim.Serving.Metrics.Latency.{Describes}
use kvflow_sim.Serving.Metrics.Results.{from_results-Sums}
use kvflow_sim.Serving.Metrics.Slos.{late_first, late_between, apply_slos_counts}

module _ {F : Type 0} (float : Float F) where
  unfoldable pub no_reuse_run_summary :
      NoReuseRunner → List LlmRequest → Outcome (NoReuseRunner × Option (ServingSummary F))
  unfolding Runner.run from_results_with_slos
  no_reuse_run_summary self requests = do
    (after, results) ← Runner.run self requests
    summary ← from_results_with_slos float results requests
    done (after, summary)

  -- Nothing where the loop runs out of fuel.
  unfoldable pub event_driven_run_summary :
      Engine → List LlmRequest → Outcome (Option (Engine × Option (ServingSummary F)))
  unfolding Scheduler.run from_results_with_slos
  event_driven_run_summary self requests = Scheduler.run self requests >>= summarized
    where
      summarized :
          Option (Engine × List RequestResult)
          → Outcome (Option (Engine × Option (ServingSummary F)))
      summarized none = done none
      summarized (some (after, results)) = do
        summary ← from_results_with_slos float results requests
        done (some (after, summary))

  -- `?`, and the counters of hits.
  abbrev pub with_hits :
      Option (ServingSummary F) → CacheHitStats → Option (ServingSummary F × CacheHitStats)
  with_hits none hits = none
  with_hits (some summary) hits = some (summary, hits)

  unfoldable pub cache_aware_run_summary :
      {P T : Type 0}
      → TransferModel T
      → PlacementPolicy P T
      → CacheAwareRunner P T
      → List LlmRequest
      → Outcome (Option (CacheAwareRunner P T × Option (ServingSummary F × CacheHitStats)))
  unfolding Handlers.run from_results_with_slos
  cache_aware_run_summary {P} {T} model policy self requests =
      Handlers.run model policy self requests >>= summarized
    where
      summarized :
          Option (CacheAwareRunner P T × List RequestResult)
          → Outcome (Option (CacheAwareRunner P T × Option (ServingSummary F × CacheHitStats)))
      summarized none = done none
      summarized (some (after, results)) = do
        summary ← from_results_with_slos float results requests
        done (some (after, with_hits summary after.hits))

  -- What the summary of a run says of its requests and their results.
  pub record Judges (requests : List LlmRequest) (results : List RequestResult)
      (s : ServingSummary F) : Type 0 where
    pub completed : s.completed_requests ≡ length requests
    pub spans :
        (a b : RequestResult)
        → In a results
        → In b results
        → b.finish_ns - a.arrival_ns ≤ s.makespan_ns
    pub ttft : Describes float (map ttft_ns results) s.ttft
    pub tbt : Describes float (map mean_tbt_ns results) s.tbt
    pub jct : Describes float (map jct_ns results) s.jct
    pub late_first : s.slo_violations_ttft ≡ late_first results requests
    pub late_between : s.slo_violations_tbt ≡ late_between results requests

  asked-In : (q : LlmRequest) (l : List LlmRequest) → In q l → 1 ≤ asked q.request_id l
  asked-In q [] i = absurd i
  asked-In q (x ∷ l) (inl same) = ground (arith, ap (λ (r : LlmRequest). r.request_id) same)
  asked-In q (x ∷ l) (inr i) = omega (arith, asked-In q l i)

  module _ (ieee : IsIeee float) (requests : List LlmRequest) (some_there : 1 ≤ length requests)
      (few : length requests ≤ u64_max) (once : (k : ℕ) → asked k requests ≤ 1) where
    from_all-Judges :
        (results : List RequestResult)
        → ((k : ℕ) → completed k results ≡ asked k requests)
        → (s : ServingSummary F) × (from_results_with_slos float results requests ≡ done (some s))
          × Judges requests results s
    unfolding from_results_with_slos
    from_all-Judges results all =
        let same_length =
          same_counts-length (λ (r : RequestResult). r.request_id)
            (λ (q : LlmRequest). q.request_id) results requests all in
        let (base, got, sums) =
          from_results-Sums float results ieee (omega (arith, same_length))
            (omega (arith, few, same_length)) in
        let one : (q : LlmRequest) → In q requests → completed q.request_id results ≡ 1 =
          λ q i. omega (arith, all q.request_id, once q.request_id, asked-In q requests i) in
        (
          record base {
            slo_violations_ttft = late_first results requests;
            slo_violations_tbt = late_between results requests;
          },
          ap (λ o. o >>= (λ x. done (with_slos float results requests x))) got
              ∙ ap
                  (λ (x : ServingSummary F × Option (Unit {0})).
                    done (elim x.1 [ none ↦ none | some _ ↦ some x.0 ]))
                  (apply_slos_counts results base requests one few),
          record {
            completed = sums.completed ∙ same_length;
            spans = sums.spans;
            ttft = sums.ttft;
            tbt = sums.tbt;
            jct = sums.jct;
            late_first = refl;
            late_between = refl;
          },
        )

    Serves-completed :
        (k : ℕ) (runner : NoReuseRunner) (l : List LlmRequest) (results : List RequestResult)
        → Serves runner l results
        → completed k results ≡ asked k l
    Serves-completed k runner [] [] h = refl
    Serves-completed k runner [] (r ∷ results) h = absurd h
    Serves-completed k runner (q ∷ l) [] h = absurd h
    Serves-completed k runner (q ∷ l) (r ∷ results) (after, one, rest) =
        ground (arith, one.0, Serves-completed k after l results rest)

    -- Under the arithmetic of IEEE 754, where both worker pools have a worker, and for one or more
    -- requests of distinct ids, `NoReuseRunner::run_summary` gives a summary.
    pub no_reuse_summarizes :
        (runner : NoReuseRunner)
        → HasWorkers runner
        → (after : NoReuseRunner) × (results : List RequestResult) × (s : ServingSummary F)
          × (Runner.run runner requests ≡ done (after, results))
          × (no_reuse_run_summary runner requests ≡ done (after, some s))
          × Judges requests results s
    unfolding no_reuse_run_summary
    no_reuse_summarizes runner workers =
        let ((after, results), ran, served) = run-Completes runner requests workers in
        let (s, got, judged) = from_all-Judges results (λ k.
          Serves-completed k runner (sort earlier requests) results served
          ∙ sum_by-sort earlier (λ (q : LlmRequest). is (q.request_id == k)) requests) in
        (after, results, s, ran, rw ran (rw got refl), judged)

    -- Under the arithmetic of IEEE 754, on a cluster of distinct node ids with an idle GPU for each
    -- role and no GPU at work, and for one or more requests of distinct ids, as many as a word counts,
    -- `EventDrivenRunner::run_summary` ends without a panic and gives a summary.
    pub event_driven_summarizes :
        (e : Engine)
        → Fresh e.cluster
        → (e' : Engine) × (results : List RequestResult) × (s : ServingSummary F) × (Scheduler.run e
              requests
            ≡ done (some (e', results)))
          × (event_driven_run_summary e requests ≡ done (some (e', some s)))
          × Judges requests results s
    unfolding event_driven_run_summary
    event_driven_summarizes e fresh =
        let (e', results, ran, all, _, _, _, _) = run_finishes e requests fresh once in
        let (s, got, judged) = from_all-Judges results all in
        (e', results, s, ran, rw ran (rw got refl), judged)

    -- Under the arithmetic of IEEE 754, on a cluster of distinct node ids with an idle GPU for each
    -- role and no GPU at work, and for one or more requests of distinct ids, as many as a word
    -- counts, `CacheAwareRunner::run_summary` always gives a summary, under every policy and
    -- transfer model: it counts every request as done and as a hit or a miss, its span covers every
    -- result, each percentile is the time in its place among the results, and it counts the
    -- requests slower than they ask for.
    pub cache_aware_summarizes :
        {P T : Type 0} (model : TransferModel T) (policy : PlacementPolicy P T)
        (c : CacheAwareRunner P T)
        → Fresh (c.engine).cluster
        → (c' : CacheAwareRunner P T) × (results : List RequestResult) × (s : ServingSummary F)
          × (Handlers.run model policy c requests ≡ done (some (c', results)))
          × (cache_aware_run_summary model policy c requests ≡ done (some (c', some (s, c'.hits))))
          × Judges requests results s
          × IsCounted s.completed_requests c'.hits
    unfolding cache_aware_run_summary
    cache_aware_summarizes model policy c fresh =
        let (c', results, ran, all, _, hits, _, _, _) =
          cache_run_finishes model policy c requests fresh once few in
        let (s, got, judged) = from_all-Judges results all in
        (
          c',
          results,
          s,
          ran,
          rw ran (rw got refl),
          judged,
          subst (λ n. IsCounted n c'.hits) (sym judged.completed) hits,
        )
