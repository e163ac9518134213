-- ===== src/Serving/RunTests.antt =====
-- Runs of src/serving/scheduler.rs and src/serving/cache_runner.rs on small clusters, and the theorems
-- there.
use kvflow_sim.Base.{
  In, inl, inr, ℕ, nat_eq, ◌≡◌, refl, List, [], ◌∷◌, Option, none, some, arith, ltb, length,
}
use kvflow_sim.Base.Map
use kvflow_sim.Base.Sort.{Sorted}
use kvflow_sim.Core.Simulator
use kvflow_sim.Panic.{Outcome, done}
use kvflow_sim.Trace.Request.{LlmRequest, reused_prefix_tokens}
use kvflow_sim.Serving.Runner.{RequestResult}
use kvflow_sim.Serving.Engine.{sooner, load, clear_state, Engine}
use kvflow_sim.Serving.Engine.Sound.{completed, is}
use kvflow_sim.Serving.Engine.Weight.{Runs}
use kvflow_sim.Serving.Event.{request_arrival, ServingEvent}
use kvflow_sim.Core.Simulator.{Simulator}
use kvflow_sim.Serving.CacheRunner.Events.{Handles, handle_event-Handles}
use kvflow_sim.Serving.Engine.Load.{load-Loaded_all, asked}
use kvflow_sim.Serving.Scheduler.{new, run}
use kvflow_sim.Trace.Synthetic.{SyntheticTraceConfig, default, generate_synthetic_trace, request_at}
use kvflow_sim.Serving.Synthetic.{
  generate_synthetic_trace-once, synthetic_run_finishes, reuses_the_turn_before,
}
use kvflow_sim.Serving.NoReuse.{no_reuse_same_results}
use kvflow_sim.Serving.Engine.Carried.{Answers}
use kvflow_sim.Serving.Belongs.{run-Answers}
use kvflow_sim.Serving.Complete.{run_finishes}
use kvflow_sim.Transfer.Analytical.{AnalyticalTransferModel}
use kvflow_sim.Transfer.Model.{analytical}
use kvflow_sim.Policy.Baselines.{RemoteLru}
use kvflow_sim.Policy.Interface.{local_gpu_lru, remote}
use kvflow_sim.Serving.CacheRunner
use kvflow_sim.Serving.CacheRunner.Handlers
use kvflow_sim.Serving.CacheRunner.{CacheAwareRunner, CacheHitStats, no_hits}
use kvflow_sim.Serving.CacheRunner.Complete.{Loaded-Keeps, cache_run_finishes, IsCounted}
use kvflow_sim.Serving.Fixtures.{
  program, request, runner, session, in_order, profile, cached, fresh, once,
}

-- Id, start and end of the prefill, start and end of the decode.
abbrev times : List RequestResult → List (ℕ × ℕ × ℕ × ℕ × ℕ)
times [] = []
times (r ∷ l) =
    (r.request_id, r.prefill_start_ns, r.prefill_done_ns, r.decode_start_ns, r.finish_ns) ∷ times l

abbrev times_of : Outcome (Option (Engine × List RequestResult)) → List (ℕ × ℕ × ℕ × ℕ × ℕ)
times_of (done (some (_, results))) = times results
times_of _ = []

-- The runner is used again.
abbrev again :
    Outcome (Option (Engine × List RequestResult))
    → List LlmRequest
    → Outcome (Option (Engine × List RequestResult))
again (done (some (e, _))) l = run e l
again o l = o

requests_are_served_one_by_one :
    times_of (run runner (request 3 50 ∷ request 2 50 ∷ request 1 0 ∷ []))
    ≡ (1, 0, 3_684_000, 3_684_000, 6_272_000)
      ∷ (2, 6_272_000, 9_956_000, 9_956_000, 12_544_000)
      ∷ (3, 12_544_000, 16_228_000, 16_228_000, 18_816_000)
      ∷ []
unfolding program runner
requests_are_served_one_by_one = refl

-- A request that arrives just when the only GPU ends a prefill is prefilled on it while it decodes.
one_gpu_has_two_requests_at_a_time :
    times_of (run runner (request 1 0 ∷ request 2 3_684_000 ∷ []))
    ≡ (1, 0, 3_684_000, 3_684_000, 6_272_000) ∷ (2, 3_684_000, 7_368_000, 7_368_000, 9_956_000) ∷ []
unfolding program runner
one_gpu_has_two_requests_at_a_time = refl

-- The second run starts at time 0 with a GPU that is busy until the end of the first.
second_run_loses_its_request :
    times_of (again (run runner (request 1 0 ∷ [])) (request 2 0 ∷ [])) ≡ []
unfolding program runner
second_run_loses_its_request = refl

abbrev hits_of :
    {P : Type 0}
    → Outcome (Option (CacheAwareRunner P AnalyticalTransferModel × List RequestResult))
    → CacheHitStats
hits_of (done (some (s, _))) = s.hits
hits_of _ = no_hits

later_turns_hit_the_gpu :
    hits_of (
      CacheRunner.Handlers.run analytical
        (local_gpu_lru in_order)
        (cached (record { target_node = 0 }))
        session)
    ≡ record no_hits { hits_gpu = 2; misses = 1 }
unfolding program cached in_order profile
later_turns_hit_the_gpu = refl

later_turns_are_fetched :
    hits_of (
      CacheRunner.Handlers.run analytical
        (remote in_order)
        (cached (record { target_node = 0 }))
        session)
    ≡ record no_hits { hits_remote = 2; misses = 1 }
unfolding program cached in_order profile
later_turns_are_fetched = refl

run_finishes_example :
    (e' : Engine) × (results : List RequestResult) × (run runner session
      ≡ done (some (e', results)))
    × ((k : ℕ) → completed k results ≡ asked k session)
    × Sorted sooner results
    × ((k : ℕ) → Map.get k e'.in_flight ≡ none)
    × (e'.prefill_queue ≡ [])
    × (e'.decode_queue ≡ [])
unfolding runner new
run_finishes_example = run_finishes runner session fresh once

run-Answers_example :
    (e' : Engine) × (results : List RequestResult) × (run runner session
      ≡ done (some (e', results)))
    × ((r : RequestResult) → In r results → Answers session r)
unfolding runner new
run-Answers_example = run-Answers runner session fresh once

cache_run_finishes_example :
    (s' : CacheAwareRunner RemoteLru AnalyticalTransferModel) × (results : List RequestResult)
    × (CacheRunner.Handlers.run analytical
          (remote in_order)
          (cached (record { target_node = 0 }))
          session
        ≡ done (some (s', results)))
    × ((k : ℕ) → completed k results ≡ asked k session)
    × Sorted sooner results
    × IsCounted (length session) s'.hits
    × ((k : ℕ) → Map.get k (s'.engine).in_flight ≡ none)
    × ((s'.engine).prefill_queue ≡ [])
    × ((s'.engine).decode_queue ≡ [])
unfolding cached CacheRunner.new
cache_run_finishes_example =
    cache_run_finishes analytical (remote in_order) (cached (record { target_node = 0 })) session
      fresh once (omega arith)

-- src/trace/synthetic.rs: `synthetic_trace_has_reused_prefix_after_first_turn`.
abbrev small : SyntheticTraceConfig
small = record default {
  sessions = 1;
  turns_per_session = 3;
  initial_prompt_tokens = 100;
  tokens_added_per_turn = 20;
}

abbrev reused : List LlmRequest → List ℕ
reused [] = []
reused (r ∷ l) = reused_prefix_tokens r ∷ reused l

later_turns_reuse_a_prefix : reused (generate_synthetic_trace small) ≡ 0 ∷ 100 ∷ 120 ∷ []
unfolding generate_synthetic_trace reused_prefix_tokens
later_turns_reuse_a_prefix = refl

generate_synthetic_trace-once_example :
    ((k : ℕ) → asked k (generate_synthetic_trace small) ≡ is (ltb k 3))
    × (length (generate_synthetic_trace small) ≡ 3)
generate_synthetic_trace-once_example = generate_synthetic_trace-once small (omega arith)

synthetic_run_finishes_example :
    (s' : CacheAwareRunner RemoteLru AnalyticalTransferModel) × (results : List RequestResult)
    × (CacheRunner.Handlers.run analytical
          (remote in_order)
          (cached (record { target_node = 0 }))
          (generate_synthetic_trace small)
        ≡ done (some (s', results)))
    × ((k : ℕ) → completed k results ≡ is (ltb k 3))
    × Sorted sooner results
    × IsCounted 3 s'.hits
unfolding cached CacheRunner.new
synthetic_run_finishes_example =
    synthetic_run_finishes analytical (remote in_order) (cached (record { target_node = 0 })) small
      fresh (omega arith)

reuses_the_turn_before_example :
    reused_prefix_tokens (request_at small 2 0 2 2_000_000)
    ≡ (request_at small 1 0 1 1_000_000).prompt_tokens
reuses_the_turn_before_example =
    reuses_the_turn_before small 1 0 1 2 1_000_000 2_000_000 (omega arith)

-- The first event of a run.
to_remote : RemoteLru
to_remote = record { target_node = 0 }

loaded : CacheAwareRunner RemoteLru AnalyticalTransferModel
loaded = record (cached to_remote) {
  engine = load (clear_state (cached to_remote).engine) session;
  hits = no_hits;
}

rest : Simulator ServingEvent
unfolding program loaded cached to_remote profile
rest = elim (Simulator.step (loaded.engine).sim) [
  | none ↦ (loaded.engine).sim
  | some (_, sim) ↦ sim
]

handle_event-Handles_example : Runs (Handles (λ k. asked k session) 3 0 loaded) (
    CacheRunner.Handlers.handle_event analytical
      (remote in_order)
      (CacheRunner.Handlers.with_sim analytical (remote in_order) loaded rest)
      0
      (request_arrival 0))
unfolding program cached profile loaded rest to_remote
handle_event-Handles_example =
    handle_event-Handles analytical (remote in_order) (omega arith) loaded rest
      (Loaded-Keeps loaded.engine (load-Loaded_all (cached to_remote).engine session fresh once))
      (request_arrival 0) refl

abbrev apart : List LlmRequest
apart = request 3 50 ∷ request 2 50 ∷ request 1 0 ∷ []

no_reuse_same_results_example :
    (e' : Engine) × (s' : CacheAwareRunner RemoteLru AnalyticalTransferModel) × (results : List
      RequestResult)
    × (run (cached to_remote).engine apart ≡ done (some (e', results)))
    × (CacheRunner.Handlers.run analytical (remote in_order) (cached to_remote) apart
        ≡ done (some (s', results)))
unfolding cached CacheRunner.new reused_prefix_tokens
no_reuse_same_results_example =
    no_reuse_same_results analytical (remote in_order) (cached to_remote) apart fresh
      (λ k. ground arith) plain
  where
    plain : (r : LlmRequest) → In r apart → reused_prefix_tokens r ≡ 0
    plain r i = elim i [
      | inl q ↦ rw q refl
      | inr (inl q) ↦ rw q refl
      | inr (inr (inl q)) ↦ rw q refl
      | inr (inr (inr x)) ↦ elim x [ ]
    ]
