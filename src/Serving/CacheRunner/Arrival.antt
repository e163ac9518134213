-- ===== src/Serving/CacheRunner/Arrival.antt =====
-- `on_arrival` and `handle_fetch` of src/serving/cache_runner.rs: a request that arrives is counted
-- as a miss or a hit, or waits for its fetch.
use kvflow_sim.Base.{
  ℕ, nat_eq, ◌+◌, ◌≤◌, ◌≡◌, refl, ◌∙◌, ap, true, ◌⊎◌, inl, inr, ◌==◌, ltb, Option, none, some,
  arith, if◌then◌else◌, u64_max, Bool-cases, Option-cases,
}
use kvflow_sim.Base.Map
use kvflow_sim.Base.Map.{get-insert}
use kvflow_sim.Error.{Result, ok, err}
use kvflow_sim.Core.Simulator
use kvflow_sim.Core.Simulator.{Simulator}
use kvflow_sim.Cache.Tier.{TierKind}
use kvflow_sim.Cache.Object.{CacheLocation, KvObject}
use kvflow_sim.Cache.State.{lookup, update_access}
use kvflow_sim.Transfer.Path.{TransferEstimate, TransferPath}
use kvflow_sim.Transfer.Model.{TransferModel}
use kvflow_sim.Trace.Request.{reused_prefix_tokens}
use kvflow_sim.Serving.Event.{fetch_done}
use kvflow_sim.Serving.Inflight.{InFlightRequest}
use kvflow_sim.Serving.Engine.{Engine}
use kvflow_sim.Serving.Engine.Pending.{pending, pending-schedule}
use kvflow_sim.Serving.Engine.Sound.{frees_some, is}
use kvflow_sim.Serving.Engine.Moves.{awaits-Sound}
use kvflow_sim.Serving.Engine.Weight.{weigh, freeing, fetch_of, Runs}
use kvflow_sim.Serving.CacheRunner.{
  CacheAwareRunner, CacheHitStats, hit_gpu, fetch_failed, fetch_started,
}
use kvflow_sim.Serving.CacheRunner.Handlers.{
  fetch_by, handle_fetch, fetch_from, found_at, on_arrival,
}
use kvflow_sim.Serving.CacheRunner.Parts.{pending_from, miss, fetch_path, degrade_to_miss}
use kvflow_sim.Serving.CacheRunner.Tally.{Keeps, InHand, Tally, write-InHand, fetchable}
use kvflow_sim.Serving.CacheRunner.Counters.{hit_gpu-Tally, fetch_started-Tally, fetching-Tally}
use kvflow_sim.Serving.CacheRunner.Steps.{
  Goes, modify_lem, get-inserted, start_or_queue-Goes, miss-Goes, degrade_to_miss-Goes,
}

-- The mark stands where the fetch is to come.
fetching-Keeps :
    {total : ℕ → ℕ} {requests t id : ℕ} (e : Engine) (f : InFlightRequest) (h : CacheHitStats)
    (tier : TierKind) (finish_ns : ℕ)
    → requests ≤ u64_max
    → fetchable tier ≡ true
    → Map.get id e.in_flight ≡ some f
    → f.pending_fetch_tier ≡ some tier
    → InHand total t id e
    → Tally requests 1 h e
    → Keeps total requests t
        (record e { sim = Simulator.schedule e.sim finish_ns (fetch_done id) })
        (fetch_started h)
unfolding Simulator.schedule
fetching-Keeps {id = id} e f h tier finish_ns fits able there marked hand tally = record {
  ready = record {
    sound = awaits-Sound e id finish_ns (fetch_done id) refl refl hand.sound;
    clock = hand.clock;
    waits = (wait (hand.waits).0, wait (hand.waits).1);
  };
  flagged = λ k. elim (Bool-cases (id == k)) [
    | inl own ↦ ground (arith, scheduled k, hand.quiet, there)
    | inr other ↦ omega (arith, hand.flagged k other, scheduled k, ap is other)
  ];
  from = λ k found q. elim (Bool-cases (id == k)) [
    | inl own ↦ ground (arith, there)
    | inr other ↦ hand.from k found other q
  ];
  tally = fetching-Tally id finish_ns fits tally;
}
  where
    scheduled :
        (k : ℕ)
        → pending (fetch_of k) (Simulator.schedule e.sim finish_ns (fetch_done id))
          ≡ fetch_of k (fetch_done id) + pending (fetch_of k) e.sim
    scheduled k = pending-schedule (fetch_of k) e.sim finish_ns (fetch_done id)

    wait :
        {n : ℕ}
        → (n ≡ 0) ⊎ (1 ≤ freeing e)
        → (n ≡ 0) ⊎ (1 ≤ pending frees_some (Simulator.schedule e.sim finish_ns (fetch_done id)))
    wait w = elim w [
      | inl q ↦ inl q
      | inr l ↦ inr (omega (arith, pending-schedule frees_some e.sim finish_ns (fetch_done id)))
    ]

module _ {P T : Type 0} (model : TransferModel T) {total : ℕ → ℕ} {requests t id : ℕ}
    (fits : requests ≤ u64_max) where
  module _ (s : CacheAwareRunner P T) (f : InFlightRequest)
      (there : Map.get id (s.engine).in_flight ≡ some f) (unmarked : f.pending_fetch_tier ≡ none)
      (hand : InHand total t id s.engine) (tally : Tally requests 1 s.hits s.engine)
      (kv : KvObject) where
    fetch_from-Goes :
        (tier : TierKind)
        → fetchable tier ≡ true
        → Runs (Goes total requests t 5 s) (fetch_from model tier s t id kv)
    unfolding fetch_from handle_fetch
    fetch_from-Goes tier able =
        let (s', ran, goes) = of_path (fetch_path kv.location) refl in
        (
          s',
          ap
                (λ e.
                  handle_fetch model (record s { hits = fetch_started s.hits; engine = e }) t id kv)
                (modify_lem s.engine id f (pending_from (some tier)) there)
              ∙ ran,
          goes,
        )
      where
        f1 : InFlightRequest
        f1 = pending_from (some tier) f

        s1 : CacheAwareRunner P T
        s1 = record s {
          hits = fetch_started s.hits;
          engine = record s.engine { in_flight = Map.insert id f1 (s.engine).in_flight };
        }

        marked : InHand total t id s1.engine
        marked = write-InHand s.engine f f1 there refl hand

        degrades :
            (transfer : T)
            → Runs (Goes total requests t 4 s) (
                degrade_to_miss
                  (record s1 { transfer = transfer; hits = fetch_failed s1.hits })
                  t
                  id)
        degrades transfer =
            let y = fetch_started-Tally tier fits tally in
            degrade_to_miss-Goes fits
              (record s1 { transfer = transfer; hits = fetch_failed s1.hits }) f1
              (get-inserted id f1 s.engine) marked (record { all = y.all; fetches = y.fetches })

        by_estimate :
            (r : T × Result TransferEstimate)
            → Runs (Goes total requests t 5 s) (fetch_by model s1 t id kv r)
        by_estimate (transfer, err _) =
            let (s', ran, goes) = degrades transfer in (s', ran, (goes.0, omega (arith, goes.1)))
        by_estimate (transfer, ok estimate) = (
          _,
          refl,
          (
            fetching-Keeps s1.engine f1 s.hits tier estimate.finish_ns fits able
                (get-inserted id f1 s.engine) refl marked
                (record { all = tally.all; fetches = tally.fetches }),
            omega (arith, pending-schedule weigh (s.engine).sim estimate.finish_ns (fetch_done id)),
          ),
        )

        of_path :
            (path : Option TransferPath)
            → fetch_path kv.location ≡ path
            → Runs (Goes total requests t 5 s) (handle_fetch model s1 t id kv)
        of_path none h =
            let (s', ran, goes) = degrades s.transfer in
            (s', rw (h, handle_fetch) ran, (goes.0, omega (arith, goes.1)))
        of_path (some path) h =
            let (s', ran, goes) = by_estimate (model.estimate s.transfer t path kv.bytes) in
            (s', rw (h, handle_fetch) ran, goes)

    missed-Goes : Runs (Goes total requests t 5 s) (miss s t id f)
    missed-Goes =
        let (s', ran, goes) = miss-Goes fits s f there unmarked hand tally in
        (s', ran, (goes.0, omega (arith, goes.1)))

    found_at-Goes :
        (l : CacheLocation) → Runs (Goes total requests t 5 s) (found_at model l s t id f kv)
    found_at-Goes (CacheLocation.gpu _ _) =
        let y = hit_gpu-Tally fits tally in
        let s1 : CacheAwareRunner P T = record s {
          hits = hit_gpu s.hits;
          cache = update_access s.cache kv.kv_id t;
        } in
        let (s', ran, goes) =
          start_or_queue-Goes fits s1 f there unmarked hand
            (record { all = y.all; fetches = y.fetches }) in
        (s', ran, (goes.0, omega (arith, goes.1)))
    found_at-Goes (CacheLocation.cpu _) = fetch_from-Goes TierKind.cpu refl
    found_at-Goes (CacheLocation.remote_memory _) = fetch_from-Goes TierKind.remote_memory refl
    found_at-Goes (CacheLocation.remote_ssd _) = fetch_from-Goes TierKind.remote_ssd refl
    found_at-Goes (CacheLocation.local_ssd _) = missed-Goes
    found_at-Goes CacheLocation.missing = missed-Goes

  -- Every arrival is a miss, a hit or a fetch to come.
  pub on_arrival-Goes :
      (s : CacheAwareRunner P T) (f : InFlightRequest)
      → Map.get id (s.engine).in_flight ≡ some f
      → f.pending_fetch_tier ≡ none
      → InHand total t id s.engine
      → Tally requests 1 s.hits s.engine
      → Runs (Goes total requests t 5 s) (on_arrival model s t id)
  unfolding on_arrival
  on_arrival-Goes s f there unmarked hand tally =
      let reused = reused_prefix_tokens f.request in
      elim (Option-cases
        (if ltb 0 reused then lookup s.cache (f.request).session_id reused else none)) [
          | inl nothing ↦
              let (s', ran, goes) = miss-Goes fits s f there unmarked hand tally in
              (
                s',
                rw (there, on_arrival) (rw (nothing, on_arrival) ran),
                (goes.0, omega (arith, goes.1)),
              )
          | inr (kv, found) ↦
              let (s', ran, goes) = found_at-Goes s f there unmarked hand tally kv kv.location in
              (s', rw (there, on_arrival) (rw (found, on_arrival) ran), goes)
        ]
