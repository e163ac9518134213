-- ===== src/Serving/CacheRunner/Storing.antt =====
-- `placement.place` in src/serving/cache_runner.rs, whatever it returns.
use kvflow_sim.Base.{ℕ, nat_eq, ◌≡◌, refl, inl, inr, ltb, Bool-cases, Option-cases}
use kvflow_sim.Base.Map
use kvflow_sim.Error.{ok, err}
use kvflow_sim.Cache.State.{CacheState, alloc_kv_id}
use kvflow_sim.Transfer.Model.{TransferModel}
use kvflow_sim.Policy.Placement.{Placed}
use kvflow_sim.Policy.Interface.{PlacementPolicy}
use kvflow_sim.Serving.CacheRunner.{CacheAwareRunner, CacheHitStats, placement_failed, add_evicted}
use kvflow_sim.Serving.CacheRunner.Handlers.{stored, place_request, store_kv}
use kvflow_sim.Serving.CacheRunner.Tally.{counted}

module _ {P T : Type 0} (model : TransferModel T) (policy : PlacementPolicy P T) where
  -- The placement, however it ends, leaves the engine and the counters of hits alone.
  pub store_kv-keeps :
      (s : CacheAwareRunner P T) (t id : ℕ)
      → (p : P) × (m : T) × (c : CacheState) × (h : CacheHitStats) × (evicted : ℕ) × (store_kv model
            policy s t id
          ≡ record s { placement = p; transfer = m; cache = c; hits = h; evicted_bytes = evicted })
        × (counted h ≡ counted s.hits)
        × (h.pending_fetches ≡ s.hits.pending_fetches)
  unfolding store_kv
  store_kv-keeps s t id = elim (Option-cases (Map.get id (s.engine).in_flight)) [
    | inl gone ↦ (
      s.placement,
      s.transfer,
      s.cache,
      s.hits,
      s.evicted_bytes,
      rw (gone, store_kv) refl,
      refl,
      refl,
    )
    | inr (f, there) ↦ elim (Bool-cases (ltb 0 (f.request).prompt_tokens)) [
      | inr empty ↦ (
        s.placement,
        s.transfer,
        s.cache,
        s.hits,
        s.evicted_bytes,
        rw (there, store_kv) (rw empty refl),
        refl,
        refl,
      )
      | inl some_tokens ↦
          let (p, m, c, h, b, q, same, same_pending) = placed (
            policy.place s.placement s.transfer model (place_request model policy s t f.request)
              (s.engine).cluster (alloc_kv_id s.cache).0 (s.engine).compute) in
          (p, m, c, h, b, rw (there, store_kv) (rw some_tokens q), same, same_pending)
    ]
  ]
    where
      placed :
          (r : (P × T) × Placed)
          → (p : P) × (m : T) × (c : CacheState) × (h : CacheHitStats) × (evicted : ℕ) × (stored
                model policy s r
              ≡ record s {
                placement = p;
                transfer = m;
                cache = c;
                hits = h;
                evicted_bytes = evicted;
              })
            × (counted h ≡ counted s.hits)
            × (h.pending_fetches ≡ s.hits.pending_fetches)
      placed ((p, m), (c, ok (_, evicted))) =
          (p, m, c, s.hits, add_evicted s.evicted_bytes evicted, refl, refl, refl)
      placed ((p, m), (c, err _)) =
          (p, m, c, placement_failed s.hits, s.evicted_bytes, refl, refl, refl)
