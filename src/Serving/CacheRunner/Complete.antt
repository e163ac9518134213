-- ===== src/Serving/CacheRunner/Complete.antt =====
-- `run` of src/serving/cache_runner.rs from its start to its end, for any placement policy and any
-- transfer model, whatever errors they report.
use kvflow_sim.Base.{
  ℕ, nat_eq, ◌+◌, ◌*◌, ◌≤◌, ◌≡◌, refl, ap, ◌==◌, List, [], none, some, arith, u64_max, length,
}
use kvflow_sim.Base.Map
use kvflow_sim.Base.Sort.{Sorted, sort, sum_by-sort, length-sort}
use kvflow_sim.Panic.{done}
use kvflow_sim.Transfer.Model.{TransferModel}
use kvflow_sim.Policy.Interface.{PlacementPolicy}
use kvflow_sim.Trace.Request.{LlmRequest}
use kvflow_sim.Serving.Drive.{drive_lem}
use kvflow_sim.Serving.Runner.{RequestResult, earlier}
use kvflow_sim.Serving.Engine
use kvflow_sim.Serving.Engine.{Engine, load, sooner}
use kvflow_sim.Serving.Engine.Pending.{pending-none}
use kvflow_sim.Serving.Engine.Sound.{is, completed}
use kvflow_sim.Serving.Engine.Weight.{weight, is_arrival, is_fetch}
use kvflow_sim.Serving.Engine.Load.{
  Fresh, asked, Loaded, load-Loaded_all, Loaded-Ready, Ready-finished, results-Sorted,
}
use kvflow_sim.Serving.CacheRunner.{CacheAwareRunner, CacheHitStats, clear_state, no_hits}
use kvflow_sim.Serving.CacheRunner.Handlers.{handle_event, with_sim, event_loop, run}
use kvflow_sim.Serving.CacheRunner.Tally.{Keeps, one}
use kvflow_sim.Serving.CacheRunner.Events.{handle_event-Handles}

pub Loaded-Keeps :
    {total : ℕ → ℕ} {requests : ℕ} (e : Engine)
    → Loaded total requests e
    → Keeps total requests 0 e no_hits
Loaded-Keeps e h = record {
  ready = Loaded-Ready e h;
  flagged = λ k. omega (arith, ap one (h.flags k), h.fetch k);
  from = λ k tier q. ground (arith, h.flags k);
  tally = record { all = omega (arith, h.arrivals); fetches = omega (arith, h.fetches) };
}

-- What the counters of hits come to.
abbrev pub IsCounted : ℕ → CacheHitStats → Type 0
IsCounted requests h =
    (h.hits_gpu + h.hits_cpu + h.hits_remote + h.misses ≡ requests) × (h.pending_fetches ≡ 0)

-- On a cluster of distinct node ids with an idle GPU for each role and no GPU at work, and for
-- requests of distinct ids, as many as a word counts, `CacheAwareRunner::run` ends without a panic
-- under every placement policy and every transfer model, whatever errors they return: every request
-- has just one result, in order of arrival and of id, each is counted just once, as a miss or as a
-- hit on a GPU, a host or a remote tier, no fetch is left pending and no queue holds a request.
pub cache_run_finishes :
    {P T : Type 0} (model : TransferModel T) (policy : PlacementPolicy P T)
    (s : CacheAwareRunner P T) (requests : List LlmRequest)
    → Fresh (s.engine).cluster
    → ((k : ℕ) → asked k requests ≤ 1)
    → length requests ≤ u64_max
    → (s' : CacheAwareRunner P T) × (results : List RequestResult) × (run model policy s requests
        ≡ done (some (s', results)))
      × ((k : ℕ) → completed k results ≡ asked k requests)
      × Sorted sooner results
      × IsCounted (length requests) s'.hits
      × ((k : ℕ) → Map.get k (s'.engine).in_flight ≡ none)
      × ((s'.engine).prefill_queue ≡ [])
      × ((s'.engine).decode_queue ≡ [])
unfolding run event_loop clear_state
cache_run_finishes {P} {T} model policy s requests fresh once fits =
    let sorted = sort earlier requests in
    let same =
      λ (k : ℕ). sum_by-sort earlier (λ (r : LlmRequest). is (r.request_id == k)) requests in
    let loaded = load-Loaded_all s.engine sorted fresh (λ k. omega (arith, once k, same k)) in
    let start : CacheAwareRunner P T = record (clear_state s) {
      engine = load (Engine.clear_state s.engine) sorted;
    } in
    let (s', t, ran, h, ended) =
      drive_lem (λ (x : CacheAwareRunner P T). (x.engine).sim) (with_sim model policy)
        (handle_event model policy)
        (λ now_ns x. Keeps (λ k. asked k sorted) (length sorted) now_ns x.engine x.hits)
        (λ x. weight x.engine)
        (λ now_ns t x event sim next keeps.
          let (x', handled, (keeps', less)) =
            handle_event-Handles model policy (omega (arith, fits, length-sort earlier requests)) x
              sim keeps event next in
          (x', handled, keeps', less))
        (6 * length requests + 1) 0 start
        (omega (arith, loaded.weighs, length-sort earlier requests)) (Loaded-Keeps _ loaded) in
    let (all, gone, prefills, decodes) = Ready-finished s'.engine h.ready ended in
    (
      record s' { engine = record s'.engine { results = [] } },
      sort sooner (s'.engine).results,
      rw ran refl,
      (λ k. omega (
        arith,
        all k,
        same k,
        sum_by-sort sooner (λ (r : RequestResult). is (r.request_id == k)) (s'.engine).results,
      )),
      results-Sorted (s'.engine).results,
      (
        omega (
          arith,
          (h.tally).all,
          (h.tally).fetches,
          pending-none is_arrival (s'.engine).sim ended,
          pending-none is_fetch (s'.engine).sim ended,
          length-sort earlier requests,
        ),
        omega (arith, (h.tally).fetches, pending-none is_fetch (s'.engine).sim ended),
      ),
      gone,
      prefills,
      decodes,
    )
