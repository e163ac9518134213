-- ===== src/Serving/NoReuseEvents.antt =====
-- An arrival and the end of a prefill in src/serving/cache_runner.rs against src/serving/scheduler.rs, on
-- requests that reuse no prefix.
use kvflow_sim.Base.{
  ℕ, nat_eq, ◌≡◌, refl, sym, ◌∙◌, ap, subst, ◌==◌, wrap_add, Bool, true, false, Option, none, some,
  arith, if◌then◌else◌,
}
use kvflow_sim.Base.Map
use kvflow_sim.Base.Map.{Map, get-insert}
use kvflow_sim.Panic.{Outcome, done, panic, ◌>>=◌}
use kvflow_sim.Cluster.Idle.{DistinctIds}
use kvflow_sim.Transfer.Model.{TransferModel}
use kvflow_sim.Policy.Interface.{PlacementPolicy}
use kvflow_sim.Trace.Request.{reused_prefix_tokens}
use kvflow_sim.Serving.Inflight.{InFlightRequest}
use kvflow_sim.Serving.Engine.{Engine, prefill_or_queue, decode_or_queue}
use kvflow_sim.Serving.Engine.Twins.{
  Alike, Same, Both, with_flight, prefill_or_queue-Both, decode_or_queue-Both,
}
use kvflow_sim.Serving.Scheduler.{decode_next}
use kvflow_sim.Serving.CacheRunner.{missed, CacheAwareRunner}
use kvflow_sim.Serving.CacheRunner.Parts.{on_engine, to_prefill, prefill_arrived, miss}
use kvflow_sim.Serving.CacheRunner.Handlers.{on_arrival, decode_prefilled}
use kvflow_sim.Serving.CacheRunner.Steps.{modify_lem, get-inserted, prefill_arrived_lem}

module _ {P T : Type 0} where
  abbrev pub engines : Outcome (CacheAwareRunner P T) → Outcome Engine
  engines (done s) = done s.engine
  engines panic = panic

  pub engines-on_engine :
      (s : CacheAwareRunner P T) (o : Outcome Engine) → engines (on_engine s o) ≡ o
  engines-on_engine s (done e) = refl
  engines-on_engine s panic = refl

  abbrev pub at_twin : CacheAwareRunner P T → Engine → Map ℕ InFlightRequest → CacheAwareRunner P T
  at_twin s e m = record s { engine = with_flight e m }

  pub then-engines :
      (o : Outcome Engine) (o' : Outcome (CacheAwareRunner P T)) (next : Engine → Outcome Engine)
      (next' : CacheAwareRunner P T → Outcome (CacheAwareRunner P T))
      → Both o (engines o')
      → ((s : CacheAwareRunner P T) (e : Engine) (m : Map ℕ InFlightRequest)
          → Same e.in_flight m
          → Both (next e) (engines (next' (at_twin s e m))))
      → Both (o >>= next) (engines (o' >>= next'))
  then-engines (done e) (done s) next next' (m, q, same) h =
      subst (λ x. Both (next e) (engines (next' (record s { engine = x })))) (sym q) (h s e m same)
  then-engines panic panic next next' b h = tt
  then-engines (done e) panic next next' b h = elim b [ ]
  then-engines panic (done s) next next' b h = elim b [ ]

  module _ (model : TransferModel T) (policy : PlacementPolicy P T) (s : CacheAwareRunner P T)
      (e : Engine) (m : Map ℕ InFlightRequest) (same : Same e.in_flight m) where
    pub arrival-Both :
        (t id : ℕ) (f : InFlightRequest)
        → DistinctIds (e.cluster).nodes
        → Map.get id e.in_flight ≡ some f
        → Both (prefill_or_queue e id t) (engines (on_arrival model (at_twin s e m) t id))
    unfolding on_arrival miss
    arrival-Both t id f distinct there =
        of (Map.get id m) refl (subst (λ o. Alike o (Map.get id m)) there (same id))
      where
        written :
            (g : InFlightRequest)
            → Alike (Map.get id e.in_flight) (some g)
            → Same e.in_flight (Map.insert id g m)
        written g h k = rw (get-insert k id g m) (at (id == k) refl)
          where
            at :
                (b : Bool)
                → (id == k) ≡ b
                → Alike (Map.get k e.in_flight) (if b then some g else Map.get k m)
            at true q =
                subst (λ x. Alike (Map.get x e.in_flight) (some g)) ((nat_eq.beq_iff id k).0 q) h
            at false q = same k

        of :
            (o : Option InFlightRequest)
            → Map.get id m ≡ o
            → Alike (some f) o
            → Both (prefill_or_queue e id t) (engines (on_arrival model (at_twin s e m) t id))
        of none q h = elim h [ ]
        of (some g) q (h, r, v, w) =
            let n = (g.request).prompt_tokens in
            let m1 = Map.insert id (to_prefill n g) m in
            let nothing : reused_prefix_tokens g.request ≡ 0 =
              sym (ap (λ (x : InFlightRequest). reused_prefix_tokens x.request) h) ∙ r in
            let same1 : Same e.in_flight m1 =
              written (to_prefill n g) (
                subst (λ o. Alike o (some (to_prefill n g))) (sym there) (h, r, v, ground arith)) in
            let s1 : CacheAwareRunner P T = record (at_twin s e m) {
              hits = missed s.hits;
              recomputed_tokens = wrap_add s.recomputed_tokens n;
            } in
            let goes : on_arrival model (at_twin s e m) t id
                ≡ on_engine s1 (prefill_or_queue (with_flight e m1) id t) =
              rw (q, on_arrival)
                (rw (nothing, on_arrival)
                  (ap (λ x. on_engine s1 (prefill_arrived x id t))
                      (modify_lem (with_flight e m) id g (to_prefill n) q)
                    ∙ ap (on_engine s1) (
                        prefill_arrived_lem (with_flight e m1) id t (to_prefill n g) distinct
                          (get-inserted id (to_prefill n g) (with_flight e m))))) in
            subst (λ o. Both (prefill_or_queue e id t) (engines o)) (sym goes)
              (subst (Both (prefill_or_queue e id t))
                (sym (engines-on_engine s1 (prefill_or_queue (with_flight e m1) id t)))
                (prefill_or_queue-Both e m1 same1 id t))

    pub decode-Both :
        (t id : ℕ)
        → Both (decode_next e id t) (engines (decode_prefilled model policy (at_twin s e m) t id))
    unfolding decode_next decode_prefilled
    decode-Both t id = of (Map.get id e.in_flight) (Map.get id m) (same id)
      where
        of :
            (o o' : Option InFlightRequest)
            → Alike o o'
            → Both
                (elim o [ none ↦ done e | some _ ↦ decode_or_queue e id t ])
                (engines (elim o' [
                  | none ↦ done (at_twin s e m)
                  | some _ ↦ on_engine (at_twin s e m) (decode_or_queue (with_flight e m) id t)
                ]))
        of none none h = (m, refl, same)
        of none (some g) h = elim h [ ]
        of (some f) none h = elim h [ ]
        of (some f) (some g) h =
            subst (Both (decode_or_queue e id t)) (sym (engines-on_engine (at_twin s e m) _))
              (decode_or_queue-Both e m same id t)
