-- ===== src/Serving/CacheRunner/Handlers.antt =====
-- src/serving/cache_runner.rs: what `CacheAwareRunner` does with each event, for any policy and any
-- transfer model. The messages on standard error are left out.
use kvflow_sim.Base.{
  ℕ, nat_eq, ◌+◌, ◌*◌, ltb, List, [], Option, none, some, if◌then◌else◌, length, wrap_add,
}
use kvflow_sim.Base.Map
use kvflow_sim.Base.Sort.{sort}
use kvflow_sim.Error.{Result, ok, err}
use kvflow_sim.Panic.{Outcome, done, ◌>>=◌}
use kvflow_sim.Core.Simulator
use kvflow_sim.Core.Simulator.{Simulator}
use kvflow_sim.Cache.Tier.{TierKind}
use kvflow_sim.Cache.Object.{CacheLocation, KvObject}
use kvflow_sim.Cache.State.{lookup, update_access, alloc_kv_id}
use kvflow_sim.Model.Profile.{kv_bytes}
use kvflow_sim.Transfer.Path.{TransferEstimate}
use kvflow_sim.Transfer.Model.{TransferModel}
use kvflow_sim.Policy.Placement.{PlaceRequest, Placed}
use kvflow_sim.Policy.Interface.{PlacementPolicy}
use kvflow_sim.Trace.Request.{LlmRequest, reused_prefix_tokens}
use kvflow_sim.Serving.Event.{ServingEvent, request_arrival, prefill_done, fetch_done, decode_done}
use kvflow_sim.Serving.Inflight.{InFlightRequest}
use kvflow_sim.Serving.Drive.{drive}
use kvflow_sim.Serving.Runner.{RequestResult, earlier}
use kvflow_sim.Serving.Engine.{
  decode_or_queue, try_assign_prefill, try_assign_decode, release, load, sooner,
}
use kvflow_sim.Serving.CacheRunner.{
  CacheAwareRunner, clear_state, hit_gpu, fetch_failed, placement_failed, fetch_started,
  add_evicted,
}
use kvflow_sim.Serving.CacheRunner.Parts.{
  modify, pending_from, fetch_path, on_engine, degrade_to_miss, start_or_queue_remaining_prefill,
  miss, on_decode_done_of, on_fetch_done,
}

module _ {P T : Type 0} where
  module _ (model : TransferModel T) where
    -- What `handle_fetch` makes of the estimate.
    abbrev pub fetch_by :
        CacheAwareRunner P T
        → ℕ
        → ℕ
        → KvObject
        → T × Result TransferEstimate
        → Outcome (CacheAwareRunner P T)
    fetch_by s now_ns request_id kv (transfer, ok estimate) = done (record s {
      transfer = transfer;
      fetched_bytes = wrap_add s.fetched_bytes kv.bytes;
      engine = record s.engine {
        sim = Simulator.schedule (s.engine).sim estimate.finish_ns (fetch_done request_id);
      };
    })
    fetch_by s now_ns request_id kv (transfer, err _) =
        degrade_to_miss (record s { transfer = transfer; hits = fetch_failed s.hits }) now_ns
          request_id

    unfoldable pub handle_fetch :
        CacheAwareRunner P T → ℕ → ℕ → KvObject → Outcome (CacheAwareRunner P T)
    unfolding degrade_to_miss
    handle_fetch s now_ns request_id kv = elim (fetch_path kv.location) [
      | none ↦ degrade_to_miss (record s { hits = fetch_failed s.hits }) now_ns request_id
      | some path ↦ fetch_by s now_ns request_id kv (model.estimate s.transfer now_ns path kv.bytes)
    ]

    -- A hit that is not on a GPU.
    unfoldable pub fetch_from :
        TierKind → CacheAwareRunner P T → ℕ → ℕ → KvObject → Outcome (CacheAwareRunner P T)
    unfolding handle_fetch modify
    fetch_from tier s now_ns request_id kv =
        handle_fetch
          (record s {
            hits = fetch_started s.hits;
            engine = modify s.engine request_id (pending_from (some tier));
          })
          now_ns request_id kv

    -- The `match` on the location of what the lookup finds.
    abbrev pub found_at :
        CacheLocation
        → CacheAwareRunner P T
        → ℕ
        → ℕ
        → InFlightRequest
        → KvObject
        → Outcome (CacheAwareRunner P T)
    found_at (CacheLocation.gpu _ _) s now_ns request_id f kv =
        start_or_queue_remaining_prefill
          (record s { hits = hit_gpu s.hits; cache = update_access s.cache kv.kv_id now_ns }) now_ns
          request_id
    found_at (CacheLocation.cpu _) s now_ns request_id f kv =
        fetch_from TierKind.cpu s now_ns request_id kv
    found_at (CacheLocation.remote_memory _) s now_ns request_id f kv =
        fetch_from TierKind.remote_memory s now_ns request_id kv
    found_at (CacheLocation.remote_ssd _) s now_ns request_id f kv =
        fetch_from TierKind.remote_ssd s now_ns request_id kv
    found_at _ s now_ns request_id f kv = miss s now_ns request_id f

    unfoldable pub on_arrival : CacheAwareRunner P T → ℕ → ℕ → Outcome (CacheAwareRunner P T)
    unfolding start_or_queue_remaining_prefill fetch_from miss lookup
    on_arrival s now_ns request_id = elim (Map.get request_id (s.engine).in_flight) [
      | none ↦ done s
      | some f ↦
          let reused = reused_prefix_tokens f.request in
          elim (if ltb 0 reused then lookup s.cache (f.request).session_id reused else none) [
            | none ↦ miss s now_ns request_id f
            | some kv ↦ found_at kv.location s now_ns request_id f kv
          ]
    ]

    module _ (policy : PlacementPolicy P T) where
      abbrev pub stored : CacheAwareRunner P T → (P × T) × Placed → CacheAwareRunner P T
      stored s ((placement, transfer), (cache, ok (_, evicted))) = record s {
        placement = placement;
        transfer = transfer;
        cache = cache;
        evicted_bytes = add_evicted s.evicted_bytes evicted;
      }
      stored s ((placement, transfer), (cache, err _)) = record s {
        placement = placement;
        transfer = transfer;
        cache = cache;
        hits = placement_failed s.hits;
      }

      abbrev pub place_request : CacheAwareRunner P T → ℕ → LlmRequest → PlaceRequest
      place_request s now_ns request = record {
        kv_id = (alloc_kv_id s.cache).1;
        session_id = request.session_id;
        prefix_tokens = request.prompt_tokens;
        bytes = kv_bytes s.profile request.prompt_tokens;
        now_ns = now_ns;
      }

      -- The new KV object goes into the cache.
      unfoldable pub store_kv : CacheAwareRunner P T → ℕ → ℕ → CacheAwareRunner P T
      store_kv s now_ns request_id = elim (Map.get request_id (s.engine).in_flight) [
        | none ↦ s
        | some f ↦
            if ltb 0 (f.request).prompt_tokens
            then stored s (
                policy.place s.placement s.transfer model (place_request s now_ns f.request)
                  (s.engine).cluster (alloc_kv_id s.cache).0 (s.engine).compute)
            else s
      ]

      -- Behind the release of the GPU.
      unfoldable pub decode_prefilled :
          CacheAwareRunner P T → ℕ → ℕ → Outcome (CacheAwareRunner P T)
      decode_prefilled s now_ns request_id = elim (Map.get request_id (s.engine).in_flight) [
        | none ↦ done s
        | some _ ↦ on_engine s (decode_or_queue s.engine request_id now_ns)
      ]

      unfoldable pub on_prefill_done :
          CacheAwareRunner P T → ℕ → ℕ → ℕ → ℕ → Outcome (CacheAwareRunner P T)
      unfolding store_kv decode_prefilled
      on_prefill_done s now_ns request_id node_id gpu_idx = do
        released ← on_engine s (release s.engine node_id gpu_idx now_ns)
        decoding ← decode_prefilled (store_kv released now_ns request_id) now_ns request_id
        on_engine decoding
            (try_assign_prefill decoding.engine now_ns >>= (λ e. try_assign_decode e now_ns))

      unfoldable pub handle_event :
          CacheAwareRunner P T → ℕ → ServingEvent → Outcome (CacheAwareRunner P T)
      unfolding on_arrival on_prefill_done on_fetch_done on_decode_done_of
      handle_event s now_ns (request_arrival request_id) = on_arrival s now_ns request_id
      handle_event s now_ns (prefill_done request_id node_id gpu_idx) =
          on_prefill_done s now_ns request_id node_id gpu_idx
      handle_event s now_ns (fetch_done request_id) = on_fetch_done s now_ns request_id
      handle_event s now_ns (decode_done request_id node_id gpu_idx) =
          on_decode_done_of s now_ns request_id node_id gpu_idx

      abbrev pub with_sim : CacheAwareRunner P T → Simulator ServingEvent → CacheAwareRunner P T
      with_sim s sim = record s { engine = record s.engine { sim = sim } }

      unfoldable pub event_loop : ℕ → CacheAwareRunner P T → Outcome (Option (CacheAwareRunner P T))
      unfolding handle_event
      event_loop = drive (λ s. (s.engine).sim) with_sim handle_event

      -- `std::mem::take(&mut self.results)` behind the last sort.
      abbrev pub take_results :
          Option (CacheAwareRunner P T) → Option (CacheAwareRunner P T × List RequestResult)
      take_results none = none
      take_results (some s) =
          some
            (record s { engine = record s.engine { results = [] } }, sort sooner (s.engine).results)

      -- The fuel is that of the runner without a cache.
      unfoldable pub run :
          CacheAwareRunner P T
          → List LlmRequest
          → Outcome (Option (CacheAwareRunner P T × List RequestResult))
      unfolding event_loop clear_state
      run s requests = do
        let cleared = clear_state s
        r ←
            event_loop (6 * length requests + 1)
              (record cleared { engine = load cleared.engine (sort earlier requests) })
        done (take_results r)
