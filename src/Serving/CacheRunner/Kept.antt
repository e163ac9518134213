-- ===== src/Serving/CacheRunner/Kept.antt =====
-- The requests of a run of src/serving/cache_runner.rs through its single steps.
use kvflow_sim.Base.{
  ℕ, nat_eq, ◌≡◌, refl, sym, subst, inl, inr, Bool, true, false, ◌==◌, List, In, Option, none, some,
  wrap_add, sat_add, if◌then◌else◌, Option-cases,
}
use kvflow_sim.Base.Map
use kvflow_sim.Panic.{Outcome, done, panic, ◌>>=◌}
use kvflow_sim.Cluster.Gpu.{WorkerRole}
use kvflow_sim.Cluster.Topology.{find_idle_gpu_for}
use kvflow_sim.Trace.Request.{LlmRequest}
use kvflow_sim.Serving.Drive.{After}
use kvflow_sim.Serving.Inflight.{InFlightRequest, tier_of}
use kvflow_sim.Serving.Engine.{
  Engine, push_prefill, start_prefill, prefill_or_queue, decode_or_queue, try_assign_prefill,
  try_assign_decode,
}
use kvflow_sim.Serving.Engine.Carried.{
  Carries, Stays, then-Stays, idle-Stays, insert-Carries, started-Stays, prefill_or_queue-Stays,
  decode_or_queue-Stays, try_assign_prefill-Stays, try_assign_decode-Stays,
}
use kvflow_sim.Serving.CacheRunner.{CacheAwareRunner, credited}
use kvflow_sim.Serving.CacheRunner.Parts.{
  modify, to_prefill, pending_from, unmarked, prefill_arrived, on_engine, degraded, degrade_to_miss,
  start_or_queue_remaining_prefill, on_fetch_done,
}

module _ (requests : List LlmRequest) where
  pub modify-Carries :
      (e : Engine) (id : ℕ) (write : InFlightRequest → InFlightRequest)
      → ((f : InFlightRequest) → (write f).request ≡ f.request)
      → Carries requests e.in_flight e.results
      → Carries requests (modify e id write).in_flight (modify e id write).results
  unfolding modify
  modify-Carries e id write same h = elim (Option-cases (Map.get id e.in_flight)) [
    | inl gone ↦ rw (gone, modify) h
    | inr (f, there) ↦
        rw (there, modify)
          (insert-Carries requests id (write f) e.in_flight e.results
            (subst (λ (q : LlmRequest). In q requests) (sym (same f)) (h.0 id f there)) h)
  ]

  pub prefill_arrived-Stays :
      (e : Engine) (id t : ℕ)
      → Carries requests e.in_flight e.results
      → Stays requests (prefill_arrived e id t)
  unfolding prefill_arrived start_prefill
  prefill_arrived-Stays e id t h =
      idle-Stays requests (find_idle_gpu_for e.cluster t WorkerRole.prefill) _
        (done (push_prefill e id))
        (λ gpu. elim (Option-cases (Map.get id e.in_flight)) [
          | inl gone ↦ rw gone tt
          | inr (f, there) ↦ rw there (started-Stays requests e id _ _ (λ c. h.0 id f there) h)
        ])
        h

  module _ {P T : Type 0} where
    -- The requests of the engine of the runner.
    abbrev pub Owns : CacheAwareRunner P T → Type 0
    Owns s = Carries requests (s.engine).in_flight (s.engine).results

    abbrev pub Keeps : Outcome (CacheAwareRunner P T) → Type 0
    Keeps = After Owns

    pub then-Keeps :
        (o : Outcome (CacheAwareRunner P T))
        (f : CacheAwareRunner P T → Outcome (CacheAwareRunner P T))
        → Keeps o
        → ((s : CacheAwareRunner P T) → Owns s → Keeps (f s))
        → Keeps (o >>= f)
    then-Keeps panic f h g = tt
    then-Keeps (done s) f h g = g s h

    pub branch-Keeps :
        (b : Bool) (x y : Outcome (CacheAwareRunner P T))
        → Keeps x
        → Keeps y
        → Keeps (if b then x else y)
    branch-Keeps true x y g h = g
    branch-Keeps false x y g h = h

    pub found-Keeps :
        {A : Type 0} (o : Option A) (f : A → Outcome (CacheAwareRunner P T))
        (y : Outcome (CacheAwareRunner P T))
        → ((a : A) → Keeps (f a))
        → Keeps y
        → Keeps (elim o [ none ↦ y | some a ↦ f a ])
    found-Keeps none f y g h = h
    found-Keeps (some a) f y g h = g a

    pub on_engine-Keeps :
        (s : CacheAwareRunner P T) (o : Outcome Engine) → Stays requests o → Keeps (on_engine s o)
    on_engine-Keeps s panic h = tt
    on_engine-Keeps s (done e) h = h

    pub degrade_to_miss-Keeps :
        (s : CacheAwareRunner P T) (t id : ℕ) → Owns s → Keeps (degrade_to_miss s t id)
    unfolding degrade_to_miss
    degrade_to_miss-Keeps s t id h =
        let engine = modify s.engine id (pending_from none) in
        degraded-Keeps (unmarked s (tier_of (Map.get id (s.engine).in_flight)) engine)
          (Map.get id engine.in_flight)
          (modify-Carries s.engine id (pending_from none) (λ f. refl) h)
      where
        degraded-Keeps :
            (x : CacheAwareRunner P T) (f : Option InFlightRequest)
            → Owns x
            → Keeps (degraded x t id f)
        degraded-Keeps x none g = g
        degraded-Keeps x (some f) g =
            let tokens = (f.request).prompt_tokens in
            on_engine-Keeps (record x { recomputed_tokens = sat_add x.recomputed_tokens tokens })
              (prefill_or_queue (modify x.engine id (to_prefill tokens)) id t)
              (prefill_or_queue-Stays requests (modify x.engine id (to_prefill tokens)) id t
                (modify-Carries x.engine id (to_prefill tokens) (λ f. refl) g))

    pub remaining-Keeps :
        (s : CacheAwareRunner P T) (t id : ℕ)
        → Owns s
        → Keeps (start_or_queue_remaining_prefill s t id)
    unfolding start_or_queue_remaining_prefill
    remaining-Keeps s t id h =
        found-Keeps (Map.get id (s.engine).in_flight) _ (done s)
          (λ f.
            let tokens = (f.request).new_prompt_tokens in
            branch-Keeps (tokens == 0) _ _
              (on_engine-Keeps s (decode_or_queue s.engine id t)
                (decode_or_queue-Stays requests s.engine id t h))
              (on_engine-Keeps
                (record s { recomputed_tokens = wrap_add s.recomputed_tokens tokens })
                (prefill_or_queue (modify s.engine id (to_prefill tokens)) id t)
                (prefill_or_queue-Stays requests (modify s.engine id (to_prefill tokens)) id t
                  (modify-Carries s.engine id (to_prefill tokens) (λ f. refl) h))))
          h

    pub fetch_done-Keeps :
        (s : CacheAwareRunner P T) (t id : ℕ) → Owns s → Keeps (on_fetch_done s t id)
    unfolding on_fetch_done
    fetch_done-Keeps s t id h =
        let tier = tier_of (Map.get id (s.engine).in_flight) in
        let credit : CacheAwareRunner P T = record s {
          hits = credited tier s.hits;
          engine = modify s.engine id (pending_from none);
        } in
        then-Keeps (start_or_queue_remaining_prefill credit t id)
          (λ x. on_engine x (try_assign_decode x.engine t >>= (λ e. try_assign_prefill e t)))
          (remaining-Keeps credit t id
            (modify-Carries s.engine id (pending_from none) (λ f. refl) h))
          (λ x g. on_engine-Keeps x _ (
            then-Stays requests (try_assign_decode x.engine t) (λ e. try_assign_prefill e t)
              (try_assign_decode-Stays requests x.engine t g)
              (λ e k. try_assign_prefill-Stays requests e t k)))
