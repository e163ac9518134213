-- ===== src/Serving/CacheRunner/Cached.antt =====
-- What the handlers of src/serving/cache_runner.rs that place nothing do to the cache: an arrival may
-- touch an object, and the others leave it alone.
use kvflow_sim.Base.{
  ℕ, nat_eq, Bool, true, false, ◌==◌, Option, none, some, wrap_add, sat_add, ltb, if◌then◌else◌,
}
use kvflow_sim.Base.Map
use kvflow_sim.Error.{Result, ok, err}
use kvflow_sim.Panic.{Outcome, done, panic, ◌>>=◌}
use kvflow_sim.Cache.Tier.{TierKind}
use kvflow_sim.Cache.Object.{CacheLocation, KvObject}
use kvflow_sim.Cache.State.{CacheState, lookup, update_access}
use kvflow_sim.Transfer.Path.{TransferEstimate}
use kvflow_sim.Transfer.Model.{TransferModel}
use kvflow_sim.Trace.Request.{reused_prefix_tokens}
use kvflow_sim.Serving.Inflight.{InFlightRequest, tier_of}
use kvflow_sim.Serving.Engine.{
  Engine, decode_or_queue, prefill_or_queue, try_assign_decode, try_assign_prefill,
}
use kvflow_sim.Serving.CacheRunner.{
  CacheAwareRunner, hit_gpu, missed, fetch_failed, fetch_started, credited,
}
use kvflow_sim.Serving.CacheRunner.Parts.{
  modify, to_prefill, pending_from, unmarked, on_engine, degraded, degrade_to_miss,
  start_or_queue_remaining_prefill, miss, on_fetch_done, fetch_path,
}
use kvflow_sim.Serving.CacheRunner.Handlers.{
  fetch_by, handle_fetch, fetch_from, found_at, on_arrival,
}

module _ {P T : Type 0} where
  -- What holds of the cache of the result, if there is one.
  abbrev pub Leaves : (CacheState → Type 0) → Outcome (CacheAwareRunner P T) → Type 0
  Leaves q panic = Unit
  Leaves q (done s) = q s.cache

  pub then-Leaves :
      (q r : CacheState → Type 0) (o : Outcome (CacheAwareRunner P T))
      (f : CacheAwareRunner P T → Outcome (CacheAwareRunner P T))
      → Leaves q o
      → ((s : CacheAwareRunner P T) → q s.cache → Leaves r (f s))
      → Leaves r (o >>= f)
  then-Leaves q r panic f h g = tt
  then-Leaves q r (done s) f h g = g s h

  module _ (q : CacheState → Type 0) where
    branch-Leaves :
        (b : Bool) (x y : Outcome (CacheAwareRunner P T))
        → Leaves q x
        → Leaves q y
        → Leaves q (if b then x else y)
    branch-Leaves true x y g h = g
    branch-Leaves false x y g h = h

    pub found-Leaves :
        {A : Type 0} (o : Option A) (f : A → Outcome (CacheAwareRunner P T))
        (y : Outcome (CacheAwareRunner P T))
        → ((a : A) → Leaves q (f a))
        → Leaves q y
        → Leaves q (elim o [ none ↦ y | some a ↦ f a ])
    found-Leaves none f y g h = h
    found-Leaves (some a) f y g h = g a

    pub on_engine-Leaves :
        (s : CacheAwareRunner P T) (o : Outcome Engine) → q s.cache → Leaves q (on_engine s o)
    on_engine-Leaves s panic h = tt
    on_engine-Leaves s (done e) h = h

    degraded-Leaves :
        (s : CacheAwareRunner P T) (t id : ℕ) (f : Option InFlightRequest)
        → q s.cache
        → Leaves q (degraded s t id f)
    degraded-Leaves s t id none h = h
    degraded-Leaves s t id (some f) h =
        on_engine-Leaves
          (record s { recomputed_tokens = sat_add s.recomputed_tokens (f.request).prompt_tokens })
          (prefill_or_queue (modify s.engine id (to_prefill (f.request).prompt_tokens)) id t) h

    degrade_to_miss-Leaves :
        (s : CacheAwareRunner P T) (t id : ℕ) → q s.cache → Leaves q (degrade_to_miss s t id)
    unfolding degrade_to_miss
    degrade_to_miss-Leaves s t id h =
        let engine = modify s.engine id (pending_from none) in
        degraded-Leaves (unmarked s (tier_of (Map.get id (s.engine).in_flight)) engine) t id
          (Map.get id engine.in_flight) h

    remaining-Leaves :
        (s : CacheAwareRunner P T) (t id : ℕ)
        → q s.cache
        → Leaves q (start_or_queue_remaining_prefill s t id)
    unfolding start_or_queue_remaining_prefill
    remaining-Leaves s t id h =
        found-Leaves (Map.get id (s.engine).in_flight) _ _
          (λ f.
            let tokens = (f.request).new_prompt_tokens in
            branch-Leaves (tokens == 0) _ _ (on_engine-Leaves s (decode_or_queue s.engine id t) h) (
              on_engine-Leaves
                (record s { recomputed_tokens = wrap_add s.recomputed_tokens tokens })
                (prefill_or_queue (modify s.engine id (to_prefill tokens)) id t) h))
          h

    pub fetch_done-Leaves :
        (s : CacheAwareRunner P T) (t id : ℕ) → q s.cache → Leaves q (on_fetch_done s t id)
    unfolding on_fetch_done
    fetch_done-Leaves s t id h =
        let tier = tier_of (Map.get id (s.engine).in_flight) in
        let credit : CacheAwareRunner P T = record s {
          hits = credited tier s.hits;
          engine = modify s.engine id (pending_from none);
        } in
        then-Leaves q q (start_or_queue_remaining_prefill credit t id)
          (λ x. on_engine x (try_assign_decode x.engine t >>= (λ e. try_assign_prefill e t)))
          (remaining-Leaves credit t id h) (λ x g. on_engine-Leaves x _ g)

    module _ (model : TransferModel T) where
      fetch_by-Leaves :
          (s : CacheAwareRunner P T) (t id : ℕ) (kv : KvObject) (x : T × Result TransferEstimate)
          → q s.cache
          → Leaves q (fetch_by model s t id kv x)
      fetch_by-Leaves s t id kv (transfer, ok estimate) h = h
      fetch_by-Leaves s t id kv (transfer, err e) h =
          degrade_to_miss-Leaves (record s { transfer = transfer; hits = fetch_failed s.hits }) t id
            h

      fetch_from-Leaves :
          (tier : TierKind) (s : CacheAwareRunner P T) (t id : ℕ) (kv : KvObject)
          → q s.cache
          → Leaves q (fetch_from model tier s t id kv)
      unfolding fetch_from handle_fetch
      fetch_from-Leaves tier s t id kv h =
          let marked : CacheAwareRunner P T = record s {
            hits = fetch_started s.hits;
            engine = modify s.engine id (pending_from (some tier));
          } in
          found-Leaves (fetch_path kv.location) _ _
            (λ path. fetch_by-Leaves marked t id kv (model.estimate s.transfer t path kv.bytes) h)
            (degrade_to_miss-Leaves (record marked { hits = fetch_failed marked.hits }) t id h)

      miss-Leaves :
          (s : CacheAwareRunner P T) (t id : ℕ) (f : InFlightRequest)
          → q s.cache
          → Leaves q (miss s t id f)
      unfolding miss
      miss-Leaves s t id f h =
          on_engine-Leaves
            (record s {
              hits = missed s.hits;
              recomputed_tokens = wrap_add s.recomputed_tokens (f.request).prompt_tokens;
            })
            _ h

      -- Where touching an object keeps what holds of the cache.
      pub arrival-Leaves :
          (s : CacheAwareRunner P T) (t id : ℕ)
          → q s.cache
          → ((k : ℕ) → q (update_access s.cache k t))
          → Leaves q (on_arrival model s t id)
      unfolding on_arrival
      arrival-Leaves s t id h touch =
          found-Leaves (Map.get id (s.engine).in_flight) _ _
            (λ f.
              let reused = reused_prefix_tokens f.request in
              found-Leaves
                (if ltb 0 reused then lookup s.cache (f.request).session_id reused else none) _ _
                (λ kv. at kv f kv.location) (miss-Leaves s t id f h))
            h
        where
          at :
              (kv : KvObject) (f : InFlightRequest) (l : CacheLocation)
              → Leaves q (found_at model l s t id f kv)
          at kv f (CacheLocation.gpu n i) =
              remaining-Leaves
                (record s { hits = hit_gpu s.hits; cache = update_access s.cache kv.kv_id t }) t id
                (touch kv.kv_id)
          at kv f (CacheLocation.cpu n) = fetch_from-Leaves TierKind.cpu s t id kv h
          at kv f (CacheLocation.local_ssd n) = miss-Leaves s t id f h
          at kv f (CacheLocation.remote_memory n) =
              fetch_from-Leaves TierKind.remote_memory s t id kv h
          at kv f (CacheLocation.remote_ssd n) = fetch_from-Leaves TierKind.remote_ssd s t id kv h
          at kv f CacheLocation.missing = miss-Leaves s t id f h
