-- ===== src/Serving/CacheRunner/Belongs.antt =====
-- Each result of a run of src/serving/cache_runner.rs is one of its requests.
use kvflow_sim.Base.{
  ℕ, nat_eq, ◌+◌, ◌*◌, ◌≤◌, ◌≡◌, refl, sym, subst, List, In, Option, none, some, length, u64_max,
  wrap_add, ltb, if◌then◌else◌,
}
use kvflow_sim.Base.Map
use kvflow_sim.Base.Sort.{sort, sort-In}
use kvflow_sim.Error.{Result, ok, err}
use kvflow_sim.Panic.{Outcome, done, panic, ◌>>=◌}
use kvflow_sim.Cache.Tier.{TierKind}
use kvflow_sim.Cache.Object.{CacheLocation, KvObject}
use kvflow_sim.Cache.State.{lookup, update_access}
use kvflow_sim.Trace.Request.{LlmRequest, reused_prefix_tokens}
use kvflow_sim.Transfer.Path.{TransferEstimate}
use kvflow_sim.Transfer.Model.{TransferModel}
use kvflow_sim.Policy.Interface.{PlacementPolicy}
use kvflow_sim.Serving.Event.{ServingEvent, request_arrival, prefill_done, fetch_done, decode_done}
use kvflow_sim.Serving.Drive.{Ends, drive-Ends}
use kvflow_sim.Serving.Inflight.{InFlightRequest}
use kvflow_sim.Serving.Runner.{RequestResult, earlier}
use kvflow_sim.Serving.Engine
use kvflow_sim.Serving.Engine.{
  Engine, Started, put, push_prefill, start_prefill, load, sooner, release, prefill_or_queue,
  decode_or_queue, try_assign_prefill, try_assign_decode, on_decode_done,
}
use kvflow_sim.Serving.Engine.Load.{Fresh, asked}
use kvflow_sim.Serving.Engine.Carried.{
  Answers, then-Stays, decode_or_queue-Stays, release-Stays, try_assign_prefill-Stays,
  try_assign_decode-Stays, on_decode_done-Stays, load-Carries, clear_state-Carries,
}
use kvflow_sim.Serving.CacheRunner.{
  CacheAwareRunner, hit_gpu, missed, fetch_failed, fetch_started, clear_state,
}
use kvflow_sim.Serving.CacheRunner.Parts.{
  modify, to_prefill, pending_from, prefill_arrived, on_engine, miss, on_decode_done_of, fetch_path,
}
use kvflow_sim.Serving.CacheRunner.Handlers.{
  fetch_by, handle_fetch, fetch_from, found_at, on_arrival, store_kv, decode_prefilled,
  on_prefill_done, handle_event, with_sim, event_loop, run, take_results,
}
use kvflow_sim.Serving.CacheRunner.Storing.{store_kv-keeps}
use kvflow_sim.Serving.CacheRunner.Complete.{cache_run_finishes}
use kvflow_sim.Serving.CacheRunner.Kept.{
  Keeps, Owns, degrade_to_miss-Keeps, fetch_done-Keeps, found-Keeps, modify-Carries,
  on_engine-Keeps, prefill_arrived-Stays, remaining-Keeps, then-Keeps,
}

module _ (requests : List LlmRequest) where
  module _ {P T : Type 0} where
    module _ (model : TransferModel T) where
      fetch_from-Keeps :
          (tier : TierKind) (s : CacheAwareRunner P T) (t id : ℕ) (kv : KvObject)
          → Owns requests s
          → Keeps requests (fetch_from model tier s t id kv)
      unfolding fetch_from handle_fetch
      fetch_from-Keeps tier s t id kv h =
          let marked : CacheAwareRunner P T = record s {
            hits = fetch_started s.hits;
            engine = modify s.engine id (pending_from (some tier));
          } in
          let g = modify-Carries requests s.engine id (pending_from (some tier)) (λ f. refl) h in
          found-Keeps requests (fetch_path kv.location) _ _
            (λ path. fetched marked (model.estimate s.transfer t path kv.bytes) g)
            (degrade_to_miss-Keeps requests (record marked { hits = fetch_failed marked.hits }) t id
              g)
        where
          fetched :
              (x : CacheAwareRunner P T) (r : T × Result TransferEstimate)
              → Owns requests x
              → Keeps requests (fetch_by model x t id kv r)
          fetched x (transfer, ok estimate) g = g
          fetched x (transfer, err e) g =
              degrade_to_miss-Keeps requests
                (record x { transfer = transfer; hits = fetch_failed x.hits }) t id g

      miss-Keeps :
          (s : CacheAwareRunner P T) (t id : ℕ) (f : InFlightRequest)
          → Owns requests s
          → Keeps requests (miss s t id f)
      unfolding miss
      miss-Keeps s t id f h =
          let tokens = (f.request).prompt_tokens in
          on_engine-Keeps requests
            (record s {
              hits = missed s.hits;
              recomputed_tokens = wrap_add s.recomputed_tokens tokens;
            })
            (prefill_arrived (modify s.engine id (to_prefill tokens)) id t)
            (prefill_arrived-Stays requests (modify s.engine id (to_prefill tokens)) id t
              (modify-Carries requests s.engine id (to_prefill tokens) (λ f. refl) h))

      arrival-Keeps :
          (s : CacheAwareRunner P T) (t id : ℕ)
          → Owns requests s
          → Keeps requests (on_arrival model s t id)
      unfolding on_arrival
      arrival-Keeps s t id h =
          found-Keeps requests (Map.get id (s.engine).in_flight) _ (done s)
            (λ f.
              let reused = reused_prefix_tokens f.request in
              found-Keeps requests
                (if ltb 0 reused then lookup s.cache (f.request).session_id reused else none) _ _
                (λ kv. at kv f kv.location) (miss-Keeps s t id f h))
            h
        where
          at :
              (kv : KvObject) (f : InFlightRequest) (l : CacheLocation)
              → Keeps requests (found_at model l s t id f kv)
          at kv f (CacheLocation.gpu n i) =
              remaining-Keeps requests
                (record s { hits = hit_gpu s.hits; cache = update_access s.cache kv.kv_id t }) t id
                h
          at kv f (CacheLocation.cpu n) = fetch_from-Keeps TierKind.cpu s t id kv h
          at kv f (CacheLocation.local_ssd n) = miss-Keeps s t id f h
          at kv f (CacheLocation.remote_memory n) =
              fetch_from-Keeps TierKind.remote_memory s t id kv h
          at kv f (CacheLocation.remote_ssd n) = fetch_from-Keeps TierKind.remote_ssd s t id kv h
          at kv f CacheLocation.missing = miss-Keeps s t id f h

      module _ (policy : PlacementPolicy P T) where
        store_kv-Owns :
            (s : CacheAwareRunner P T) (t id : ℕ)
            → Owns requests s
            → Owns requests (store_kv model policy s t id)
        store_kv-Owns s t id h =
            let (p, m, c, x, b, placed, _, _) = store_kv-keeps model policy s t id in
            subst (Owns requests) (sym placed) h

        prefill_done-Keeps :
            (s : CacheAwareRunner P T) (t id n i : ℕ)
            → Owns requests s
            → Keeps requests (on_prefill_done model policy s t id n i)
        unfolding on_prefill_done decode_prefilled
        prefill_done-Keeps s t id n i h =
            then-Keeps requests (on_engine s (release s.engine n i t))
              (λ released.
                decode_prefilled model policy (store_kv model policy released t id) t id >>= (λ x.
                  on_engine x (try_assign_prefill x.engine t >>= (λ e. try_assign_decode e t))))
              (on_engine-Keeps requests s (release s.engine n i t)
                (release-Stays requests s.engine n i t h))
              (λ released g.
                let s1 = store_kv model policy released t id in
                let g1 = store_kv-Owns released t id g in
                then-Keeps requests (decode_prefilled model policy s1 t id)
                  (λ x.
                    on_engine x (try_assign_prefill x.engine t >>= (λ e. try_assign_decode e t)))
                  (found-Keeps requests (Map.get id (s1.engine).in_flight)
                    (λ _. on_engine s1 (decode_or_queue s1.engine id t)) (done s1)
                    (λ _.
                      on_engine-Keeps requests s1 (decode_or_queue s1.engine id t)
                        (decode_or_queue-Stays requests s1.engine id t g1))
                    g1)
                  (λ x g2. on_engine-Keeps requests x _ (
                    then-Stays requests (try_assign_prefill x.engine t) (λ e. try_assign_decode e t)
                      (try_assign_prefill-Stays requests x.engine t g2)
                      (λ e k. try_assign_decode-Stays requests e t k))))

        handle_event-Keeps :
            (s : CacheAwareRunner P T) (t : ℕ) (event : ServingEvent)
            → Owns requests s
            → Keeps requests (handle_event model policy s t event)
        unfolding handle_event on_decode_done_of
        handle_event-Keeps s t (request_arrival id) h = arrival-Keeps s t id h
        handle_event-Keeps s t (prefill_done id n i) h = prefill_done-Keeps s t id n i h
        handle_event-Keeps s t (fetch_done id) h = fetch_done-Keeps requests s t id h
        handle_event-Keeps s t (decode_done id n i) h =
            on_engine-Keeps requests s (on_decode_done s.engine t id n i)
              (on_decode_done-Stays requests s.engine t id n i h)

        -- Every result that a run returns.
        abbrev AllAnswer : Outcome (Option (CacheAwareRunner P T × List RequestResult)) → Type 0
        AllAnswer panic = Unit
        AllAnswer (done none) = Unit
        AllAnswer (done (some (s, results))) =
            (r : RequestResult) → In r results → Answers requests r

        returned :
            (o : Outcome (Option (CacheAwareRunner P T)))
            → Ends (Owns requests) o
            → AllAnswer (o >>= (λ r. done (take_results model policy r)))
        returned panic h = tt
        returned (done none) h = tt
        returned (done (some s)) h = λ r i. h.1 r ((sort-In sooner r (s.engine).results).0 i)

        run-AllAnswer : (s : CacheAwareRunner P T) → AllAnswer (run model policy s requests)
        unfolding run event_loop clear_state
        run-AllAnswer s = returned _ (
            drive-Ends (λ (x : CacheAwareRunner P T). (x.engine).sim) (with_sim model policy)
              (handle_event model policy) (Owns requests)
              (λ x t event rest h. handle_event-Keeps (with_sim model policy x rest) t event h)
              (6 * length requests + 1)
              (record (clear_state s) {
                engine = load (Engine.clear_state s.engine) (sort earlier requests);
              })
              (load-Carries requests (sort earlier requests) (Engine.clear_state s.engine)
                (λ q i. (sort-In earlier q requests).0 i) (clear_state-Carries requests s.engine)))

-- On a cluster of distinct node ids with an idle GPU for each role and no GPU at work, and for
-- requests of distinct ids, as many as a word counts, `CacheAwareRunner::run` ends without a panic
-- and every result is that of a request of the run, with its id, session, turn, arrival and token
-- counts, under every policy and transfer model.
pub cache_run-Answers :
    {P T : Type 0} (model : TransferModel T) (policy : PlacementPolicy P T)
    (s : CacheAwareRunner P T) (requests : List LlmRequest)
    → Fresh (s.engine).cluster
    → ((k : ℕ) → asked k requests ≤ 1)
    → length requests ≤ u64_max
    → (s' : CacheAwareRunner P T) × (results : List RequestResult) × (run model policy s requests
        ≡ done (some (s', results)))
      × ((r : RequestResult) → In r results → Answers requests r)
cache_run-Answers model policy s requests fresh once few =
    let (s', results, ran, _, _, _, _, _, _) =
      cache_run_finishes model policy s requests fresh once few in
    (
      s',
      results,
      ran,
      subst (AllAnswer requests model policy) ran (run-AllAnswer requests model policy s),
    )
