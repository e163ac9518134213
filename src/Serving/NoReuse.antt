-- ===== src/Serving/NoReuse.antt =====
-- src/serving/cache_runner.rs against src/serving/scheduler.rs, on requests that reuse no prefix.
use kvflow_sim.Base.{
  ℕ, zero, suc, nat_eq, ◌+◌, ◌*◌, ◌≤◌, ◌<◌, ◌≡◌, refl, sym, ◌∙◌, ap, subst, ◌==◌, List, [], ◌∷◌, In,
  some, arith, inl, inr, Option-cases, length,
}
use kvflow_sim.Base.Map
use kvflow_sim.Base.Map.{Map, get-insert}
use kvflow_sim.Base.Sort.{sort, sort-In, sum_by-sort, length-sort}
use kvflow_sim.Panic.{Outcome, done, panic}
use kvflow_sim.Core.Simulator
use kvflow_sim.Core.Simulator.{Simulator}
use kvflow_sim.Cluster.Idle.{DistinctIds}
use kvflow_sim.Transfer.Model.{TransferModel}
use kvflow_sim.Policy.Interface.{PlacementPolicy}
use kvflow_sim.Trace.Request.{LlmRequest, reused_prefix_tokens}
use kvflow_sim.Serving.Event.{ServingEvent, request_arrival, prefill_done, fetch_done, decode_done}
use kvflow_sim.Serving.Inflight
use kvflow_sim.Serving.Inflight.{InFlightRequest}
use kvflow_sim.Serving.Drive.{drive}
use kvflow_sim.Serving.Runner.{RequestResult, earlier}
use kvflow_sim.Serving.Engine
use kvflow_sim.Serving.Engine.{
  Engine, load, sooner, prefill_or_queue, decode_or_queue, release, on_decode_done,
  try_assign_prefill, try_assign_decode,
}
use kvflow_sim.Serving.Engine.Sound.{Sound, subject, gpu_of, is}
use kvflow_sim.Serving.Engine.Pending.{pending-step}
use kvflow_sim.Serving.CacheRunner.Events.{in_hand-flies}
use kvflow_sim.Serving.Engine.Weight.{weight, is_fetch}
use kvflow_sim.Serving.Engine.Take.{step-Taken}
use kvflow_sim.Serving.Engine.Load.{Fresh, asked, load-Loaded_all, Loaded-Ready}
use kvflow_sim.Serving.Engine.Twins.{insert-Same, Same, Twins, Both}
use kvflow_sim.Serving.Engine.TwinQueues.{
  prefill_then_decode-Both, release-Both, on_decode_done-Both,
}
use kvflow_sim.Serving.Scheduler
use kvflow_sim.Serving.Scheduler.{decode_next}
use kvflow_sim.Serving.Complete.{Keeps, handle_event-Progress}
use kvflow_sim.Serving.CacheRunner.{CacheAwareRunner, clear_state}
use kvflow_sim.Serving.CacheRunner.Parts.{on_decode_done_of}
use kvflow_sim.Serving.CacheRunner.Handlers
use kvflow_sim.Serving.CacheRunner.Handlers.{on_arrival, store_kv, decode_prefilled, with_sim}
use kvflow_sim.Serving.CacheRunner.Storing.{store_kv-keeps}
use kvflow_sim.Serving.NoReuseEvents.{
  engines, engines-on_engine, at_twin, then-engines, arrival-Both, decode-Both,
}

module _ {P T : Type 0} where
  module _ (model : TransferModel T) (policy : PlacementPolicy P T) where
    prefilled-Both :
        (t id : ℕ) (s : CacheAwareRunner P T) (e : Engine) (m : Map ℕ InFlightRequest)
        → Same e.in_flight m
        → Both (decode_next e id t) (
            engines
              (decode_prefilled model policy (store_kv model policy (at_twin s e m) t id) t id))
    prefilled-Both t id s e m same =
        let (p, n, c, h, b, placed, _, _) = store_kv-keeps model policy (at_twin s e m) t id in
        subst (λ x. Both (decode_next e id t) (engines (decode_prefilled model policy x t id)))
          (sym placed)
          (decode-Both model policy
            (record s { placement = p; transfer = n; cache = c; hits = h; evicted_bytes = b }) e m
            same t id)

    module _ (s : CacheAwareRunner P T) (e : Engine) (m : Map ℕ InFlightRequest)
        (same : Same e.in_flight m) where
      -- Every event but a fetch.
      handle_event-Both :
          (t : ℕ) (event : ServingEvent)
          → is_fetch event ≡ 0
          → DistinctIds (e.cluster).nodes
          → ((id : ℕ)
              → event ≡ request_arrival id
              → (f : InFlightRequest) × (Map.get id e.in_flight ≡ some f))
          → Both
              (Scheduler.handle_event e t event)
              (engines (Handlers.handle_event model policy (at_twin s e m) t event))
      unfolding Scheduler.handle_event Handlers.handle_event Scheduler.on_prefill_done
          Handlers.on_prefill_done on_decode_done_of
      handle_event-Both t (request_arrival id) no_fetch distinct flies =
          let (f, there) = flies id refl in
          arrival-Both model policy s e m same t id f distinct there
      handle_event-Both t (prefill_done id n i) no_fetch distinct flies =
          then-engines _ _ _ _
            (subst (Both (release e n i t)) (sym (engines-on_engine (at_twin s e m) _))
              (release-Both e m same n i t))
            (λ x y z w. then-engines _ _ _ _ (prefilled-Both t id x y z w) (λ a b c d.
              subst (Both _) (sym (engines-on_engine (at_twin a b c) _))
                (prefill_then_decode-Both b c d t)))
      handle_event-Both t (fetch_done id) no_fetch distinct flies = absurd (omega arith)
      handle_event-Both t (decode_done id n i) no_fetch distinct flies =
          subst (Both _) (sym (engines-on_engine (at_twin s e m) _))
            (on_decode_done-Both e m t id n i same)

    -- Both loops come to an end, and to a pair.
    Ends : ℕ → Engine → CacheAwareRunner P T → Type 0
    Ends fuel e s =
        (e' : Engine) × (s' : CacheAwareRunner P T) × (drive (λ x. x.sim)
            (λ x sim. record x { sim = sim }) Scheduler.handle_event fuel e
          ≡ done (some e'))
        × (drive (λ (x : CacheAwareRunner P T). (x.engine).sim) (with_sim model policy)
              (Handlers.handle_event model policy) fuel s
            ≡ done (some s'))
        × Twins e' s'.engine

    loop-Ends :
        {total : ℕ → ℕ} (fuel now_ns : ℕ) (s : CacheAwareRunner P T) (e : Engine)
        (m : Map ℕ InFlightRequest)
        → weight e < fuel
        → Keeps total now_ns e
        → Same e.in_flight m
        → Ends fuel e (at_twin s e m)
    unfolding Ends drive
    loop-Ends zero now_ns s e m enough keeps same = absurd (omega arith)
    loop-Ends {total = total} (suc fuel) now_ns s e m enough keeps same =
        elim (Option-cases (Simulator.step e.sim)) [
          | inl ended ↦
              (e, at_twin s e m, rw (ended, drive) refl, rw (ended, drive) refl, (m, refl, same))
          | inr (((t, event), rest), next) ↦
              let (e2, ran, keeps2, less) = handle_event-Progress e rest event next keeps in
              let no_fetch : is_fetch event ≡ 0 =
                omega (arith, keeps.no_fetch, (pending-step is_fetch e.sim rest t event next).0) in
              let both =
                handle_event-Both s (record e { sim = rest }) m same t event no_fetch
                  ((keeps.ready).sound).distinct (arrives t event rest next) in
              goes_on t event rest next e2 ran
                (λ x y z. loop-Ends {total = total} fuel t x e2 y (omega arith) keeps2 z)
                (Handlers.handle_event model policy (at_twin s (record e { sim = rest }) m) t event)
                refl
                (subst
                  (λ o. Both o (
                    engines (
                      Handlers.handle_event model policy (at_twin s (record e { sim = rest }) m) t
                        event)))
                  ran both)
        ]
      where
        arrives :
            (t : ℕ) (event : ServingEvent) (rest : Simulator ServingEvent)
            → Simulator.step e.sim ≡ some ((t, event), rest)
            → (id : ℕ) → event ≡ request_arrival id
            → (f : InFlightRequest) × (Map.get id e.in_flight ≡ some f)
        arrives t event rest next id q =
            in_hand-flies id (record e { sim = rest })
              (subst (λ k. Sound (some k) total t (record e { sim = rest })) (ap subject q)
                (step-Taken e event rest next (ap gpu_of q) keeps.ready).in_hand)

        goes_on :
            (t : ℕ) (event : ServingEvent) (rest : Simulator ServingEvent)
            → Simulator.step e.sim ≡ some ((t, event), rest)
            → (e2 : Engine) → Scheduler.handle_event (record e { sim = rest }) t event ≡ done e2
            → ((x : CacheAwareRunner P T) (y : Map ℕ InFlightRequest)
                → Same e2.in_flight y
                → Ends fuel e2 (at_twin x e2 y))
            → (o : Outcome (CacheAwareRunner P T))
            → Handlers.handle_event model policy (at_twin s (record e { sim = rest }) m) t event ≡ o
            → Both (done e2) (engines o)
            → Ends (suc fuel) e (at_twin s e m)
        goes_on t event rest next e2 ran ends panic q both = elim both [ ]
        goes_on t event rest next e2 ran ends (done s2) q (m2, twin, same2) =
            let (e3, s3, first, second, twins) = ends s2 m2 same2 in
            let handled = q ∙ ap (λ x. done (record s2 { engine = x })) twin in
            (
              e3,
              s3,
              rw (next, drive) (rw (ran, drive) first),
              rw (next, drive) (rw (handled, drive) second),
              twins,
            )

-- No request in flight reuses a prefix or is marked with tokens to prefill.
load-Same :
    (l : List LlmRequest) (e : Engine)
    → ((r : LlmRequest) → In r l → reused_prefix_tokens r ≡ 0)
    → Same e.in_flight e.in_flight
    → Same (load e l).in_flight (load e l).in_flight
unfolding load
load-Same [] e plain same = same
load-Same (r ∷ l) e plain same =
    load-Same l
      (record e {
        sim = Simulator.schedule e.sim r.arrival_ns (request_arrival r.request_id);
        in_flight = Map.insert r.request_id (Inflight.new r) e.in_flight;
      })
      (λ x i. plain x (inr i))
      (insert-Same r.request_id (Inflight.new r) (Inflight.new r) e.in_flight e.in_flight
        (refl, plain r (inl refl), refl, refl) same)

-- On a cluster of distinct node ids with an idle GPU for each role and no GPU at work, and for
-- requests of distinct ids none of which reuses a prefix, `CacheAwareRunner::run` gives the very
-- results of `EventDrivenRunner::run`, under every placement policy and every transfer model, and
-- neither panics.
pub no_reuse_same_results :
    {P T : Type 0} (model : TransferModel T) (policy : PlacementPolicy P T)
    (s : CacheAwareRunner P T) (requests : List LlmRequest)
    → Fresh (s.engine).cluster
    → ((k : ℕ) → asked k requests ≤ 1)
    → ((r : LlmRequest) → In r requests → reused_prefix_tokens r ≡ 0)
    → (e' : Engine) × (s' : CacheAwareRunner P T) × (results : List RequestResult) × (Scheduler.run
          s.engine requests
        ≡ done (some (e', results)))
      × (Handlers.run model policy s requests ≡ done (some (s', results)))
unfolding Scheduler.run Scheduler.event_loop Handlers.run Handlers.event_loop clear_state Ends
    Engine.clear_state Map.get
no_reuse_same_results model policy s requests fresh once plain =
    let sorted = sort earlier requests in
    let same =
      λ (k : ℕ). sum_by-sort earlier (λ (r : LlmRequest). is (r.request_id == k)) requests in
    let loaded = load-Loaded_all s.engine sorted fresh (λ k. omega (arith, once k, same k)) in
    let start = load (Engine.clear_state s.engine) sorted in
    let (e', s', first, second, (m, twin, _)) =
      loop-Ends model policy (6 * length requests + 1) 0 (clear_state s) start start.in_flight
        (omega (arith, loaded.weighs, length-sort earlier requests))
        (record {
          ready = Loaded-Ready _ loaded;
          no_fetch = loaded.fetches;
          no_flag = loaded.flags;
        })
        (load-Same sorted (Engine.clear_state s.engine)
          (λ r i. plain r ((sort-In earlier r requests).0 i)) (λ k. tt)) in
    (
      record e' { results = [] },
      record s' { engine = record s'.engine { results = [] } },
      sort sooner e'.results,
      rw first refl,
      rw second (
          ap
            (λ (x : Engine). done (
              some
                (record s' { engine = record s'.engine { results = [] } }, sort sooner x.results)))
            twin),
    )
