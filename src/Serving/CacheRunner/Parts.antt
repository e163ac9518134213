-- ===== src/Serving/CacheRunner/Parts.antt =====
-- src/serving/cache_runner.rs: what `CacheAwareRunner` does with a request whatever the placement policy
-- and the transfer model are. The messages on standard error are left out.
use kvflow_sim.Base.{ℕ, nat_eq, ◌==◌, Option, none, some, if◌then◌else◌, wrap_add, sat_add}
use kvflow_sim.Base.Map
use kvflow_sim.Panic.{Outcome, done, ◌>>=◌, unwrap}
use kvflow_sim.Cluster.Gpu.{WorkerRole}
use kvflow_sim.Cluster.Topology.{find_idle_gpu_for}
use kvflow_sim.Cache.Tier.{TierKind}
use kvflow_sim.Cache.Object.{CacheLocation}
use kvflow_sim.Transfer.Path.{
  TransferPath, local_cpu_to_gpu, remote_memory_to_gpu, remote_ssd_to_gpu,
}
use kvflow_sim.Serving.Inflight.{InFlightRequest, tier_of}
use kvflow_sim.Serving.Engine.{
  Engine, put, push_prefill, start_prefill, prefill_or_queue, decode_or_queue, try_assign_prefill,
  try_assign_decode, on_decode_done,
}
use kvflow_sim.Serving.CacheRunner.{CacheAwareRunner, CacheHitStats, missed, credited, fetch_over}

-- `if let Some(inflight) = self.in_flight.get_mut(&request_id) { .. }` around a write to it.
unfoldable pub modify : Engine → ℕ → (InFlightRequest → InFlightRequest) → Engine
modify e request_id write = elim (Map.get request_id e.in_flight) [
  | none ↦ e
  | some f ↦ record e { in_flight = Map.insert request_id (write f) e.in_flight }
]

abbrev pub to_prefill : ℕ → InFlightRequest → InFlightRequest
to_prefill tokens f = record f { prefill_tokens = tokens }

abbrev pub pending_from : Option TierKind → InFlightRequest → InFlightRequest
pending_from tier f = record f { pending_fetch_tier = tier }

-- The end of `on_arrival`: the request is unwrapped.
unfoldable pub prefill_arrived : Engine → ℕ → ℕ → Outcome Engine
prefill_arrived e request_id now_ns = do
  idle ← find_idle_gpu_for e.cluster now_ns WorkerRole.prefill
  elim idle [
    | some gpu ↦ do
      f ← unwrap (Map.get request_id e.in_flight)
      s ← start_prefill e.sim e.cluster e.compute f gpu.0 gpu.1 now_ns
      done (put e request_id s)
    | none ↦ done (push_prefill e request_id)
  ]

abbrev pub fetch_path : CacheLocation → Option TransferPath
fetch_path (CacheLocation.cpu _) = some local_cpu_to_gpu
fetch_path (CacheLocation.remote_memory _) = some remote_memory_to_gpu
fetch_path (CacheLocation.remote_ssd _) = some remote_ssd_to_gpu
fetch_path _ = none

-- `if had_pending { self.hits.pending_fetches = self.hits.pending_fetches.saturating_sub(1); }`.
abbrev pub no_longer_pending : Option TierKind → CacheHitStats → CacheHitStats
no_longer_pending none h = h
no_longer_pending (some _) h = fetch_over h

module _ {P T : Type 0} where
  -- A function of the engine, on the runner.
  abbrev pub on_engine : CacheAwareRunner P T → Outcome Engine → Outcome (CacheAwareRunner P T)
  on_engine s step = do e ← step; done (record s { engine = e })

  -- `degrade_to_miss` behind its counters.
  abbrev pub degraded :
      CacheAwareRunner P T → ℕ → ℕ → Option InFlightRequest → Outcome (CacheAwareRunner P T)
  degraded s now_ns request_id none = done s
  degraded s now_ns request_id (some f) =
      on_engine
        (record s { recomputed_tokens = sat_add s.recomputed_tokens (f.request).prompt_tokens })
        (prefill_or_queue (modify s.engine request_id (to_prefill (f.request).prompt_tokens))
          request_id now_ns)

  -- Without the mark of the fetch.
  abbrev pub unmarked : CacheAwareRunner P T → Option TierKind → Engine → CacheAwareRunner P T
  unmarked s tier engine = record s {
    hits = missed (no_longer_pending tier s.hits);
    engine = engine;
  }

  unfoldable pub degrade_to_miss : CacheAwareRunner P T → ℕ → ℕ → Outcome (CacheAwareRunner P T)
  unfolding modify
  degrade_to_miss s now_ns request_id =
      let tier = tier_of (Map.get request_id (s.engine).in_flight) in
      let engine = modify s.engine request_id (pending_from none) in
      degraded (unmarked s tier engine) now_ns request_id (Map.get request_id engine.in_flight)

  unfoldable pub start_or_queue_remaining_prefill :
      CacheAwareRunner P T → ℕ → ℕ → Outcome (CacheAwareRunner P T)
  unfolding modify
  start_or_queue_remaining_prefill s now_ns request_id =
      elim (Map.get request_id (s.engine).in_flight) [
        | none ↦ done s
        | some f ↦
            let tokens = (f.request).new_prompt_tokens in
            if tokens == 0
            then on_engine s (decode_or_queue s.engine request_id now_ns)
            else on_engine (record s { recomputed_tokens = wrap_add s.recomputed_tokens tokens })
                (prefill_or_queue (modify s.engine request_id (to_prefill tokens)) request_id
                  now_ns)
      ]

  -- The cache miss of `on_arrival`.
  unfoldable pub miss :
      CacheAwareRunner P T → ℕ → ℕ → InFlightRequest → Outcome (CacheAwareRunner P T)
  unfolding modify prefill_arrived
  miss s now_ns request_id f =
      on_engine
        (record s {
          hits = missed s.hits;
          recomputed_tokens = wrap_add s.recomputed_tokens (f.request).prompt_tokens;
        })
        (prefill_arrived (modify s.engine request_id (to_prefill (f.request).prompt_tokens))
          request_id now_ns)

  unfoldable pub on_decode_done_of :
      CacheAwareRunner P T → ℕ → ℕ → ℕ → ℕ → Outcome (CacheAwareRunner P T)
  on_decode_done_of s now_ns request_id node_id gpu_idx =
      on_engine s (on_decode_done s.engine now_ns request_id node_id gpu_idx)

  unfoldable pub on_fetch_done : CacheAwareRunner P T → ℕ → ℕ → Outcome (CacheAwareRunner P T)
  unfolding start_or_queue_remaining_prefill modify
  on_fetch_done s now_ns request_id = do
    let tier = tier_of (Map.get request_id (s.engine).in_flight)
    started ←
        start_or_queue_remaining_prefill
          (record s {
            hits = credited tier s.hits;
            engine = modify s.engine request_id (pending_from none);
          })
          now_ns request_id
    on_engine started
        (try_assign_decode started.engine now_ns >>= (λ e. try_assign_prefill e now_ns))
