-- ===== src/Serving/CacheRunner/Steps.antt =====
-- What the parts of src/serving/cache_runner.rs do with a request in hand: it is prefilled, decoded,
-- fetched or queued, and counted.
use kvflow_sim.Base.{
  ℕ, nat_eq, ◌+◌, ◌≤◌, ◌≡◌, refl, ◌∙◌, ap, inl, inr, ◌==◌, Option, none, some, arith, u64_max,
  wrap_add, sat_add, Bool-cases, Option-cases,
}
use kvflow_sim.Base.Map
use kvflow_sim.Base.Map.{get-insert}
use kvflow_sim.Panic.{Outcome}
use kvflow_sim.Cache.Tier.{TierKind}
use kvflow_sim.Cluster.Gpu.{WorkerRole}
use kvflow_sim.Cluster.Idle.{DistinctIds, find_idle_gpu_for-Finds}
use kvflow_sim.Serving.Inflight.{InFlightRequest, tier_of}
use kvflow_sim.Serving.Engine.{Engine, prefill_or_queue, prefill_if_there}
use kvflow_sim.Serving.Engine.Weight.{weight, Runs}
use kvflow_sim.Serving.Engine.Starts.{prefill_or_queue-After, decode_or_queue-After}
use kvflow_sim.Serving.Engine.Take.{frees-Waits}
use kvflow_sim.Serving.CacheRunner.{CacheAwareRunner, missed}
use kvflow_sim.Serving.CacheRunner.Parts.{
  modify, to_prefill, pending_from, prefill_arrived, on_engine, degrade_to_miss, degraded, unmarked,
  start_or_queue_remaining_prefill, miss, no_longer_pending,
}
use kvflow_sim.Serving.CacheRunner.Tally.{Keeps, InHand, Tally, write-InHand, InHand-Keeps}
use kvflow_sim.Serving.CacheRunner.Counters.{missed-Tally}

pub prefill_arrived_lem :
    (e : Engine) (id t : ℕ) (f : InFlightRequest)
    → DistinctIds (e.cluster).nodes
    → Map.get id e.in_flight ≡ some f
    → prefill_arrived e id t ≡ prefill_or_queue e id t
unfolding prefill_arrived prefill_or_queue prefill_if_there
prefill_arrived_lem e id t f distinct there =
    let (r, searched, _) = find_idle_gpu_for-Finds e.cluster t WorkerRole.prefill distinct in
    elim (Option-cases r) [
      | inl nothing ↦ rw searched (rw nothing refl)
      | inr (gpu, found) ↦ rw searched (rw found (rw (there, prefill_if_there) refl))
    ]

pub modify_lem :
    (e : Engine) (id : ℕ) (f : InFlightRequest) (write : InFlightRequest → InFlightRequest)
    → Map.get id e.in_flight ≡ some f
    → modify e id write ≡ record e { in_flight = Map.insert id (write f) e.in_flight }
unfolding modify
modify_lem e id f write there = rw (there, modify) refl

pub get-inserted :
    (id : ℕ) (f : InFlightRequest) (e : Engine) → Map.get id (Map.insert id f e.in_flight) ≡ some f
get-inserted id f e = ground (arith, get-insert id id f e.in_flight)

-- The runner goes on, not much heavier.
abbrev pub Goes :
    {P T : Type 0} → (ℕ → ℕ) → ℕ → ℕ → ℕ → CacheAwareRunner P T → CacheAwareRunner P T → Type 0
Goes total requests t slack s s' =
    Keeps total requests t s'.engine s'.hits × (weight s'.engine ≤ weight s.engine + slack)

module _ {P T : Type 0} {total : ℕ → ℕ} {requests t id : ℕ} (fits : requests ≤ u64_max) where
  -- The request, written to for the last time, is prefilled or queued.
  prefills-Goes :
      (s : CacheAwareRunner P T) (f f' : InFlightRequest)
      → Map.get id (s.engine).in_flight ≡ some f
      → f'.request ≡ f.request
      → f'.pending_fetch_tier ≡ none
      → InHand total t id s.engine
      → Tally requests 0 s.hits s.engine
      → Runs (Goes total requests t 4 s) (
          on_engine s (
            prefill_or_queue
              (record s.engine { in_flight = Map.insert id f' (s.engine).in_flight })
              id
              t))
  prefills-Goes s f f' there same unmarked hand tally =
      let e1 : Engine = record s.engine { in_flight = Map.insert id f' (s.engine).in_flight } in
      let hand1 = write-InHand s.engine f f' there same hand in
      let (e2, ran, (after, freed)) = prefill_or_queue-After e1 id hand1.sound in
      (
        record s { engine = e2 },
        rw ran refl,
        (
          InHand-Keeps hand1 (ap tier_of (get-inserted id f' s.engine) ∙ unmarked)
              (record { all = tally.all; fetches = tally.fetches }) after (frees-Waits e2 freed),
          after.lighter,
        ),
      )

  pub start_or_queue-Goes :
      (s : CacheAwareRunner P T) (f : InFlightRequest)
      → Map.get id (s.engine).in_flight ≡ some f
      → f.pending_fetch_tier ≡ none
      → InHand total t id s.engine
      → Tally requests 0 s.hits s.engine
      → Runs (Goes total requests t 4 s) (start_or_queue_remaining_prefill s t id)
  unfolding start_or_queue_remaining_prefill modify
  start_or_queue-Goes s f there unmarked hand tally =
      elim (Bool-cases ((f.request).new_prompt_tokens == 0)) [
        | inl nothing_new ↦
            let (e2, ran, (after, freed)) = decode_or_queue-After s.engine id hand.sound in
            (
              record s { engine = e2 },
              rw (there, start_or_queue_remaining_prefill) (rw nothing_new (rw ran refl)),
              (
                InHand-Keeps hand (ap tier_of there ∙ unmarked) tally after (frees-Waits e2 freed),
                omega (arith, after.lighter),
              ),
            )
        | inr tokens ↦
            let n = (f.request).new_prompt_tokens in
            let s1 : CacheAwareRunner P T = record s {
              recomputed_tokens = wrap_add s.recomputed_tokens n;
            } in
            let (s2, ran, goes) =
              prefills-Goes s1 f (to_prefill n f) there refl unmarked hand tally in
            (
              s2,
              rw (there, start_or_queue_remaining_prefill, modify)
                  (rw tokens (rw (there, modify) ran)),
              goes,
            )
      ]

  pub miss-Goes :
      (s : CacheAwareRunner P T) (f : InFlightRequest)
      → Map.get id (s.engine).in_flight ≡ some f
      → f.pending_fetch_tier ≡ none
      → InHand total t id s.engine
      → Tally requests 1 s.hits s.engine
      → Runs (Goes total requests t 4 s) (miss s t id f)
  unfolding miss modify
  miss-Goes s f there unmarked hand tally =
      let n = (f.request).prompt_tokens in
      let s1 : CacheAwareRunner P T = record s {
        hits = missed s.hits;
        recomputed_tokens = wrap_add s.recomputed_tokens n;
      } in
      let (s2, ran, goes) =
        prefills-Goes s1 f (to_prefill n f) there refl unmarked hand (missed-Tally fits tally) in
      let e1 : Engine = record s.engine {
        in_flight = Map.insert id (to_prefill n f) (s.engine).in_flight;
      } in
      (
        s2,
        ap (λ e. on_engine s1 (prefill_arrived e id t))
              (modify_lem s.engine id f (to_prefill n) there)
            ∙ ap (on_engine s1) (
                prefill_arrived_lem e1 id t (to_prefill n f) (hand.sound).distinct
                  (get-inserted id (to_prefill n f) s.engine))
            ∙ ran,
        goes,
      )

  -- The mark of the fetch is taken off, whatever it is.
  pub degrade_to_miss-Goes :
      (s : CacheAwareRunner P T) (f : InFlightRequest)
      → Map.get id (s.engine).in_flight ≡ some f
      → InHand total t id s.engine
      → Tally requests 1 (no_longer_pending f.pending_fetch_tier s.hits) s.engine
      → Runs (Goes total requests t 4 s) (degrade_to_miss s t id)
  unfolding degrade_to_miss modify
  degrade_to_miss-Goes s f there hand tally =
      let n = (f.request).prompt_tokens in
      let f1 = pending_from none f in
      let e1 : Engine = record s.engine { in_flight = Map.insert id f1 (s.engine).in_flight } in
      let s1 : CacheAwareRunner P T = record s {
        hits = missed (no_longer_pending f.pending_fetch_tier s.hits);
        engine = e1;
        recomputed_tokens = sat_add s.recomputed_tokens n;
      } in
      let inserted = get-inserted id f1 s.engine in
      let counted = missed-Tally fits tally in
      let (s2, ran, goes) =
        prefills-Goes s1 f1 (to_prefill n f1) inserted refl refl
          (write-InHand s.engine f f1 there refl hand)
          (record { all = counted.all; fetches = counted.fetches }) in
      (
        s2,
        ap (λ o. by_mark (tier_of o) (modify s.engine id (pending_from none))) there
            ∙ ap (by_mark f.pending_fetch_tier) (modify_lem s.engine id f (pending_from none) there)
            ∙ ap (degraded (unmarked s f.pending_fetch_tier e1) t id) inserted
            ∙ ap (λ e. on_engine s1 (prefill_or_queue e id t))
                (modify_lem e1 id f1 (to_prefill n) inserted)
            ∙ ran,
        goes,
      )
    where
      by_mark : Option TierKind → Engine → Outcome (CacheAwareRunner P T)
      by_mark tier e = degraded (unmarked s tier e) t id (Map.get id e.in_flight)
