-- ===== src/Serving/CacheRunner/Consistent.antt =====
-- The cache through a whole run of src/serving/cache_runner.rs, for any policy that keeps the contract of
-- src/policy and any transfer model.
use kvflow_sim.Base.{
  ℕ, nat_eq, List, [], ◌*◌, length, ◌+◌, ◌≤◌, ◌<◌, ◌≡◌, refl, sym, subst, ◌==◌, inl, inr, none,
  some, arith, u64_max, ltb, Option-cases, Bool-cases,
}
use kvflow_sim.Base.Map
use kvflow_sim.Error.{ok, err}
use kvflow_sim.Panic.{done, ◌>>=◌}
use kvflow_sim.Cache.State.{CacheState, update_access, alloc_kv_id}
use kvflow_sim.Cache.State.Sane.{
  IsSane, remove_absent, remove-IsSane, insert-IsSane, alloc-IsSane, update_access-IsSane,
}
use kvflow_sim.Transfer.Model.{TransferModel}
use kvflow_sim.Policy.Placement.{PlaceRequest, Placed, object_at}
use kvflow_sim.Policy.Interface.{PlacementPolicy}
use kvflow_sim.Policy.Contract.{Cleared, stop, take, Behaves, leaves, puts, IsLawful}
use kvflow_sim.Trace.Request.{LlmRequest}
use kvflow_sim.Serving.Event.{ServingEvent, request_arrival, prefill_done, fetch_done, decode_done}
use kvflow_sim.Serving.Engine.{
  Engine, decode_or_queue, release, prefill_or_queue, try_assign_decode, try_assign_prefill,
}
use kvflow_sim.Serving.CacheRunner.{CacheAwareRunner}
use kvflow_sim.Serving.CacheRunner.Parts.{on_engine, on_decode_done_of}
use kvflow_sim.Serving.CacheRunner.Handlers.{
  stored, place_request, store_kv, decode_prefilled, on_prefill_done, handle_event,
}
use kvflow_sim.Base.Sort.{sort, sum_by-sort, length-sort}
use kvflow_sim.Serving.Drive.{drive_lem}
use kvflow_sim.Serving.Runner.{RequestResult, earlier}
use kvflow_sim.Serving.Engine
use kvflow_sim.Serving.Engine.{load, sooner}
use kvflow_sim.Serving.Engine.Sound.{is}
use kvflow_sim.Serving.Engine.Weight.{weight}
use kvflow_sim.Serving.Engine.Load.{Fresh, asked, load-Loaded_all}
use kvflow_sim.Serving.CacheRunner.{clear_state}
use kvflow_sim.Serving.CacheRunner.Handlers.{with_sim, event_loop, run}
use kvflow_sim.Serving.CacheRunner.Tally.{Keeps}
use kvflow_sim.Serving.CacheRunner.Events.{handle_event-Handles}
use kvflow_sim.Serving.CacheRunner.Complete.{Loaded-Keeps}
use kvflow_sim.Serving.CacheRunner.Cached.{
  Leaves, on_engine-Leaves, then-Leaves, found-Leaves, fetch_done-Leaves, arrival-Leaves,
}

Cleared-IsSane : {next : ℕ} {c d : CacheState} → Cleared c d → IsSane next c → IsSane next d
Cleared-IsSane stop h = h
Cleared-IsSane (take {c = c} k g) h = Cleared-IsSane g (remove-IsSane c k h)

Cleared-absent :
    {c d : CacheState} (k : ℕ)
    → Cleared c d
    → Map.get k c.objects ≡ none
    → Map.get k d.objects ≡ none
Cleared-absent k stop h = h
Cleared-absent k (take {c = c} j g) h = Cleared-absent k g (remove_absent c j k h)

-- A policy leaves the cache as sound as it was.
Behaves-IsSane :
    {next : ℕ} {r : PlaceRequest} {c d : CacheState}
    → Behaves r c d
    → IsSane next c
    → Map.get r.kv_id c.objects ≡ none
    → r.kv_id < next
    → IsSane next d
Behaves-IsSane (leaves g) h fresh small = Cleared-IsSane g h
Behaves-IsSane {r = r} (puts {d = d} loc g) h fresh small =
    insert-IsSane d (object_at r loc) (Cleared-IsSane g h) (Cleared-absent r.kv_id g fresh) small

-- Sound, with no more ids given out than these.
abbrev pub IsSaneTo : ℕ → CacheState → Type 0
IsSaneTo most c = (next : ℕ) × (next ≤ most) × IsSane next c

later : {most : ℕ} {c : CacheState} → IsSaneTo most c → IsSaneTo (most + 1) c
later (next, few, h) = (next, omega (arith, few), h)

touched :
    {most : ℕ} {c : CacheState} (k t : ℕ) → IsSaneTo most c → IsSaneTo most (update_access c k t)
touched {c = c} k t (next, few, h) = (next, few, update_access-IsSane c k t h)

module _ {P T : Type 0} (model : TransferModel T) (policy : PlacementPolicy P T)
    (lawful : IsLawful policy) (most : ℕ) (few : most < u64_max) where
  stored-cache :
      (s : CacheAwareRunner P T) (x : (P × T) × Placed) → (stored model policy s x).cache ≡ x.1.0
  stored-cache s ((p, m), (c, ok (loc, evicted))) = refl
  stored-cache s ((p, m), (c, err e)) = refl

  placed-IsSaneTo :
      (s : CacheAwareRunner P T) (t : ℕ) (request : LlmRequest)
      → IsSaneTo most s.cache
      → IsSaneTo
          (most + 1)
          (policy.place s.placement s.transfer model
            (place_request model policy s t request)
            (s.engine).cluster
            (alloc_kv_id s.cache).0
            (s.engine).compute).1.0
  placed-IsSaneTo s t request (next, small, h) =
      let (allocated, fresh, own) = alloc-IsSane s.cache h (omega (arith, small, few)) in
      (
        next + 1,
        omega (arith, small),
        Behaves-IsSane
            (lawful.behaves s.placement s.transfer model (place_request model policy s t request)
              (s.engine).cluster (alloc_kv_id s.cache).0 (s.engine).compute)
            allocated fresh own,
      )

  store_kv-IsSaneTo :
      (s : CacheAwareRunner P T) (t id : ℕ)
      → IsSaneTo most s.cache
      → IsSaneTo (most + 1) (store_kv model policy s t id).cache
  unfolding store_kv
  store_kv-IsSaneTo s t id h = elim (Option-cases (Map.get id (s.engine).in_flight)) [
    | inl gone ↦ rw (gone, store_kv) (later h)
    | inr (f, there) ↦ elim (Bool-cases (ltb 0 (f.request).prompt_tokens)) [
      | inr empty ↦ rw (there, store_kv) (rw empty (later h))
      | inl some_tokens ↦
          rw (there, store_kv)
            (rw some_tokens (
              subst (IsSaneTo (most + 1)) (sym (stored-cache s _))
                (placed-IsSaneTo s t f.request h)))
    ]
  ]

  prefill_done-IsSaneTo :
      (s : CacheAwareRunner P T) (t id n i : ℕ)
      → IsSaneTo most s.cache
      → Leaves (IsSaneTo (most + 1)) (on_prefill_done model policy s t id n i)
  unfolding on_prefill_done decode_prefilled
  prefill_done-IsSaneTo s t id n i h =
      let q = IsSaneTo (most + 1) in
      then-Leaves (IsSaneTo most) q (on_engine s (release s.engine n i t))
        (λ released.
          decode_prefilled model policy (store_kv model policy released t id) t id
          >>= (λ x. on_engine x (try_assign_prefill x.engine t >>= (λ e. try_assign_decode e t))))
        (on_engine-Leaves (IsSaneTo most) s (release s.engine n i t) h)
        (λ released g.
          let s1 = store_kv model policy released t id in
          let g1 = store_kv-IsSaneTo released t id g in
          then-Leaves q q (decode_prefilled model policy s1 t id)
            (λ x. on_engine x (try_assign_prefill x.engine t >>= (λ e. try_assign_decode e t)))
            (found-Leaves q (Map.get id (s1.engine).in_flight)
              (λ _. on_engine s1 (decode_or_queue s1.engine id t)) (done s1)
              (λ _. on_engine-Leaves q s1 (decode_or_queue s1.engine id t) g1) g1)
            (λ x g2. on_engine-Leaves q x _ g2))

  -- Each event leaves the cache sound, and gives out at most one id.
  handle_event-IsSaneTo :
      (s : CacheAwareRunner P T) (t : ℕ) (event : ServingEvent)
      → IsSaneTo most s.cache
      → Leaves (IsSaneTo (most + 1)) (handle_event model policy s t event)
  unfolding handle_event on_decode_done_of
  handle_event-IsSaneTo s t (request_arrival id) h =
      arrival-Leaves (IsSaneTo (most + 1)) model s t id (later h) (λ k. later (touched k t h))
  handle_event-IsSaneTo s t (prefill_done id n i) h = prefill_done-IsSaneTo s t id n i h
  handle_event-IsSaneTo s t (fetch_done id) h =
      fetch_done-Leaves (IsSaneTo (most + 1)) s t id (later h)
  handle_event-IsSaneTo s t (decode_done id n i) h =
      on_engine-Leaves (IsSaneTo (most + 1)) s _ (later h)

-- A run that leaves the cache as it should be.
module _ {P T : Type 0} (model : TransferModel T) (policy : PlacementPolicy P T)
    (lawful : IsLawful policy) where
  -- On a cluster of distinct node ids with an idle GPU for each role and no GPU at work, for
  -- requests of distinct ids, from a cache in order, and while six ids a request do not use up the
  -- words, `CacheAwareRunner::run` leaves the cache in order, under every policy that at most
  -- removes objects and then inserts that of the request, and under every transfer model, whatever
  -- errors they return: the bookkeeping is exact, no tier is overfull, what the index finds has the
  -- session and the prefix asked for, and every id is below the next one.
  pub cache_stays_sound :
      (s : CacheAwareRunner P T) (requests : List LlmRequest) (next : ℕ)
      → Fresh (s.engine).cluster
      → ((k : ℕ) → asked k requests ≤ 1)
      → IsSane next s.cache
      → next + 6 * length requests ≤ u64_max
      → (s' : CacheAwareRunner P T) × (results : List RequestResult) × (run model policy s requests
          ≡ done (some (s', results)))
        × IsSaneTo (next + 6 * length requests) s'.cache
  unfolding run event_loop clear_state
  cache_stays_sound s requests next fresh once h few =
      let sorted = sort earlier requests in
      let same =
        λ (k : ℕ). sum_by-sort earlier (λ (r : LlmRequest). is (r.request_id == k)) requests in
      let loaded = load-Loaded_all s.engine sorted fresh (λ k. omega (arith, once k, same k)) in
      let start : CacheAwareRunner P T = record (clear_state s) {
        engine = load (Engine.clear_state s.engine) sorted;
      } in
      let (s', t, ran, (keeps, left), ended) =
        drive_lem (λ (x : CacheAwareRunner P T). (x.engine).sim) (with_sim model policy)
          (handle_event model policy)
          (λ now_ns x.
            Keeps (λ k. asked k sorted) (length sorted) now_ns x.engine x.hits
            × ((most : ℕ) × (most + weight x.engine ≤ next + 6 * length requests)
                × IsSaneTo most x.cache))
          (λ x. weight x.engine)
          (λ now_ns t x event sim step (keeps, (most, bound, g)).
            let (x', handled, (keeps', less)) =
              handle_event-Handles model policy (omega (arith, few, length-sort earlier requests)) x
                sim keeps event step in
            (
              x',
              handled,
              (
                keeps',
                (
                  most + 1,
                  omega (arith, bound, less),
                  subst (Leaves (IsSaneTo (most + 1))) handled (
                      handle_event-IsSaneTo model policy lawful most
                        (omega (arith, bound, less, few)) (with_sim model policy x sim) t event g),
                ),
              ),
              less,
            ))
          (6 * length requests + 1) 0 start
          (omega (arith, loaded.weighs, length-sort earlier requests))
          (
            Loaded-Keeps _ loaded,
            (
              next,
              omega (arith, loaded.weighs, length-sort earlier requests),
              (next, omega arith, h),
            ),
          ) in
      let (most, bound, (id, under, sane)) = left in
      (
        record s' { engine = record s'.engine { results = [] } },
        sort sooner (s'.engine).results,
        rw ran refl,
        (id, omega (arith, under, bound), sane),
      )
