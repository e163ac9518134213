-- ===== src/Serving/CacheRunner/Events.antt =====
-- Each event of src/serving/cache_runner.rs, handled: nothing panics, every request is in one place
-- and in one counter, and there is less to come.
use kvflow_sim.Base.{
  ℕ, nat_eq, ◌≤◌, ◌<◌, ◌≡◌, refl, sym, ◌∙◌, ap, inl, inr, Option, none, some, arith, u64_max,
  Option-cases,
}
use kvflow_sim.Base.Map
use kvflow_sim.Panic.{Outcome, ◌>>=◌}
use kvflow_sim.Core.Simulator
use kvflow_sim.Core.Simulator.{Simulator}
use kvflow_sim.Cache.Tier.{TierKind}
use kvflow_sim.Transfer.Model.{TransferModel}
use kvflow_sim.Policy.Interface.{PlacementPolicy}
use kvflow_sim.Serving.Event.{ServingEvent, request_arrival, prefill_done, fetch_done, decode_done}
use kvflow_sim.Serving.Inflight.{InFlightRequest, tier_of}
use kvflow_sim.Serving.Engine.{Engine, try_assign_decode, try_assign_prefill}
use kvflow_sim.Serving.Engine.Sound.{Sound, gpu_of}
use kvflow_sim.Serving.Engine.Weight.{
  weight, flag, is_arrival, is_fetch, fetch_of, is_arrival-NoGpu, is_fetch-NoGpu, fetch_of-NoGpu,
  Runs, follows,
}
use kvflow_sim.Serving.Engine.Starts.{decode_or_queue-After}
use kvflow_sim.Serving.Engine.Queues.{prefill_then_decode-Waits, decode_then_prefill-Waits}
use kvflow_sim.Serving.Engine.Take.{step-Taken, release-Taken, Progress, After-Progress}
use kvflow_sim.Serving.Engine.Finish.{on_decode_done-Progress}
use kvflow_sim.Serving.CacheRunner.{CacheAwareRunner, CacheHitStats, credited}
use kvflow_sim.Serving.CacheRunner.Handlers.{
  decode_prefilled, on_arrival, on_prefill_done, handle_event, with_sim,
}
use kvflow_sim.Serving.CacheRunner.Parts.{
  modify, pending_from, on_engine, start_or_queue_remaining_prefill, on_fetch_done,
  on_decode_done_of,
}
use kvflow_sim.Serving.CacheRunner.Tally.{
  Keeps, Tally, counted, one, in_hand-quiet, Taken-InHand, write-InHand, After-Keeps,
}
use kvflow_sim.Serving.CacheRunner.Counters.{credited-Tally}
use kvflow_sim.Serving.CacheRunner.Steps.{modify_lem, get-inserted, start_or_queue-Goes}
use kvflow_sim.Serving.CacheRunner.Storing.{store_kv-keeps}
use kvflow_sim.Serving.CacheRunner.Arrival.{on_arrival-Goes}

-- An event of a GPU leaves the counters of hits as they are.
Progress-Keeps :
    {total : ℕ → ℕ} {requests now_ns t : ℕ} {event : ServingEvent} {gpu : ℕ × ℕ} {e e' : Engine}
    {h h' : CacheHitStats}
    → gpu_of event ≡ some gpu
    → Keeps total requests now_ns e h
    → Progress total t event e e'
    → ((k : ℕ) → flag k e' ≡ flag k e)
    → counted h' ≡ counted h
    → h'.pending_fetches ≡ h.pending_fetches
    → Keeps total requests t e' h'
Progress-Keeps {event = event} {gpu} place keeps p flags same_count same_pending = record {
  ready = p.ready;
  flagged = λ k. omega (
    arith,
    ap one (flags k),
    keeps.flagged k,
    p.counts (fetch_of k) (fetch_of-NoGpu k),
    fetch_of-NoGpu k event gpu place,
  );
  from = λ k tier q. keeps.from k tier (sym (flags k) ∙ q);
  tally = record {
    all = omega (
      arith,
      (keeps.tally).all,
      p.counts is_arrival is_arrival-NoGpu,
      is_arrival-NoGpu event gpu place,
    );
    fetches = omega (
      arith,
      (keeps.tally).fetches,
      p.counts is_fetch is_fetch-NoGpu,
      is_fetch-NoGpu event gpu place,
    );
  };
}

-- The request in hand is in flight.
pub in_hand-flies :
    {total : ℕ → ℕ} {t : ℕ} (id : ℕ) (e : Engine)
    → Sound (some id) total t e
    → (f : InFlightRequest) × (Map.get id e.in_flight ≡ some f)
in_hand-flies id e s = elim (Option-cases (Map.get id e.in_flight)) [
  | inl gone ↦ absurd (ground (arith, s.listed id))
  | inr there ↦ there
]

one-zero : (o : Option TierKind) → one o ≡ 0 → o ≡ none
one-zero none h = refl
one-zero (some _) h = absurd (omega arith)

one-some : (o : Option TierKind) → 1 ≤ one o → (tier : TierKind) × (o ≡ some tier)
one-some none h = absurd (omega arith)
one-some (some tier) h = (tier, refl)

-- The event is handled, and there is less to come.
abbrev pub Handles :
    {P T : Type 0} → (ℕ → ℕ) → ℕ → ℕ → CacheAwareRunner P T → CacheAwareRunner P T → Type 0
Handles total requests t s s' =
    Keeps total requests t s'.engine s'.hits × (weight s'.engine < weight s.engine)

module _ {P T : Type 0} (model : TransferModel T) (policy : PlacementPolicy P T) where
  module _ {total : ℕ → ℕ} {requests now_ns t : ℕ} (fits : requests ≤ u64_max)
      (s : CacheAwareRunner P T) (sim : Simulator ServingEvent)
      (keeps : Keeps total requests now_ns s.engine s.hits) where
    arrival-Handles :
        (id : ℕ)
        → Simulator.step (s.engine).sim ≡ some ((t, request_arrival id), sim)
        → Runs (Handles total requests t s) (on_arrival model (with_sim model policy s sim) t id)
    arrival-Handles id next =
        let taken = step-Taken s.engine (request_arrival id) sim next refl keeps.ready in
        let hand = Taken-InHand refl refl keeps taken in
        let (f, there) = in_hand-flies id _ taken.in_hand in
        let flagged : one (flag id s.engine) ≡ 0 =
          omega (arith, keeps.flagged id, taken.counts (fetch_of id), hand.quiet) in
        let unmarked = sym (ap tier_of there) ∙ one-zero (flag id s.engine) flagged in
        let tally : Tally requests 1 s.hits (with_sim model policy s sim).engine = record {
          all = omega (arith, (keeps.tally).all, taken.counts is_arrival);
          fetches = omega (arith, (keeps.tally).fetches, taken.counts is_fetch);
        } in
        let (s', ran, goes) =
          on_arrival-Goes model fits (with_sim model policy s sim) f there unmarked hand tally in
        (s', ran, (goes.0, omega (arith, goes.1, taken.lighter)))

    prefill_done-Handles :
        (id n i : ℕ)
        → Simulator.step (s.engine).sim ≡ some ((t, prefill_done id n i), sim)
        → Runs
            (Handles total requests t s)
            (on_prefill_done model policy (with_sim model policy s sim) t id n i)
    unfolding on_prefill_done decode_prefilled
    prefill_done-Handles id n i next =
        let (e1, released, taken) =
          release-Taken s.engine (prefill_done id n i) sim next n i refl keeps.ready in
        let (f, there) = in_hand-flies id e1 taken.in_hand in
        let s1 : CacheAwareRunner P T = record s { engine = e1 } in
        let (p, m, c, h, b, placed, same, same_pending) = store_kv-keeps model policy s1 t id in
        let (e2, decoded, (begun, _)) = decode_or_queue-After e1 id taken.in_hand in
        let (e3, assigned, (after, waits)) = prefill_then_decode-Waits e2 begun.sound in
        let all = follows begun after in
        let progress = After-Progress taken all (omega arith) waits in
        (
          record s {
            engine = e3;
            placement = p;
            transfer = m;
            cache = c;
            hits = h;
            evicted_bytes = b;
          },
          rw released (rw placed (rw (there, decode_prefilled) (rw decoded (rw assigned refl)))),
          (
            Progress-Keeps refl keeps progress
                (λ k. all.flags k ∙ ap (λ m. tier_of (Map.get k m)) taken.flight) same same_pending,
            progress.lighter,
          ),
        )

    fetch_done-Handles :
        (id : ℕ)
        → Simulator.step (s.engine).sim ≡ some ((t, fetch_done id), sim)
        → Runs (Handles total requests t s) (on_fetch_done (with_sim model policy s sim) t id)
    unfolding on_fetch_done
    fetch_done-Handles id next =
        let taken = step-Taken s.engine (fetch_done id) sim next refl keeps.ready in
        let hand = Taken-InHand refl refl keeps taken in
        let (f, there) = in_hand-flies id _ taken.in_hand in
        let (tier, marked) =
          one-some (flag id s.engine)
            (ground (arith, keeps.flagged id, taken.counts (fetch_of id))) in
        let same_mark : f.pending_fetch_tier ≡ some tier = sym (ap tier_of there) ∙ marked in
        let e1 : Engine = record s.engine { sim = sim } in
        let f1 = pending_from none f in
        let e2 : Engine = record e1 { in_flight = Map.insert id f1 e1.in_flight } in
        let s1 : CacheAwareRunner P T = record s {
          hits = credited (some tier) s.hits;
          engine = e2;
        } in
        let y : Tally requests 0 (credited (some tier) s.hits) e1 =
          credited-Tally tier fits (keeps.from id tier marked) keeps.tally
            (omega (arith, taken.counts is_arrival)) (omega (arith, taken.counts is_fetch)) in
        let (s2, started, goes) =
          start_or_queue-Goes fits s1 f1 (get-inserted id f1 e1) refl
            (write-InHand e1 f f1 there refl hand) (record { all = y.all; fetches = y.fetches }) in
        let (e3, assigned, (after, waits)) =
          decode_then_prefill-Waits s2.engine ((goes.0).ready).sound in
        (
          record s2 { engine = e3 },
          ap (λ o. rest (credited (tier_of o) s.hits) (modify e1 id (pending_from none))) there
              ∙ ap (λ o. rest (credited o s.hits) (modify e1 id (pending_from none))) same_mark
              ∙ ap (rest (credited (some tier) s.hits))
                  (modify_lem e1 id f (pending_from none) there)
              ∙ ap (λ o. o >>= assign) started
              ∙ ap (on_engine s2) assigned,
          (After-Keeps goes.0 after waits, omega (arith, goes.1, after.lighter, taken.lighter)),
        )
      where
        assign : CacheAwareRunner P T → Outcome (CacheAwareRunner P T)
        assign started =
            on_engine started (try_assign_decode started.engine t >>= (λ e. try_assign_prefill e t))

        rest : CacheHitStats → Engine → Outcome (CacheAwareRunner P T)
        rest h e =
            start_or_queue_remaining_prefill (record s { hits = h; engine = e }) t id >>= assign

    decode_done-Handles :
        (id n i : ℕ)
        → Simulator.step (s.engine).sim ≡ some ((t, decode_done id n i), sim)
        → Runs
            (Handles total requests t s)
            (on_decode_done_of (with_sim model policy s sim) t id n i)
    unfolding on_decode_done_of
    decode_done-Handles id n i next =
        let (e1, _, taken) =
          release-Taken s.engine (decode_done id n i) sim next n i refl keeps.ready in
        let quiet : one (flag id s.engine) ≡ 0 =
          omega
            (arith, keeps.flagged id, taken.counts (fetch_of id), in_hand-quiet e1 taken.in_hand) in
        let (e2, ran, (p, flags)) =
          on_decode_done-Progress s.engine sim id n i next (one-zero _ quiet) keeps.ready in
        (
          record s { engine = e2 },
          rw ran refl,
          (Progress-Keeps refl keeps p flags refl refl, p.lighter),
        )

    -- For no more requests than a word counts, and in a state that the loop of `CacheAwareRunner`
    -- keeps, the next event is handled without a panic and leaves such a state, with less to come:
    -- every unfinished request has one event or one place in a queue, a request is marked with a
    -- tier just while its fetch is to come, each request that has arrived has one counter, a GPU
    -- that is busy has an event that frees it, and a queue is empty or some GPU is to be freed.
    pub handle_event-Handles :
        (event : ServingEvent)
        → Simulator.step (s.engine).sim ≡ some ((t, event), sim)
        → Runs
            (Handles total requests t s)
            (handle_event model policy (with_sim model policy s sim) t event)
    unfolding handle_event
    handle_event-Handles (request_arrival id) next = arrival-Handles id next
    handle_event-Handles (prefill_done id n i) next = prefill_done-Handles id n i next
    handle_event-Handles (fetch_done id) next = fetch_done-Handles id next
    handle_event-Handles (decode_done id n i) next = decode_done-Handles id n i next
