-- ===== src/Serving/Complete.antt =====
-- `run` of src/serving/scheduler.rs from its start to its end.
use kvflow_sim.Base.{
  ℕ, nat_eq, ◌+◌, ◌*◌, ◌≤◌, ◌<◌, ◌≡◌, refl, ◌∙◌, ap, inl, inr, List, [], none, some, arith, length,
  Option-cases, ◌==◌,
}
use kvflow_sim.Base.Map
use kvflow_sim.Base.Sort.{Sorted, sort, sum_by-sort, length-sort}
use kvflow_sim.Panic.{done}
use kvflow_sim.Core.Simulator
use kvflow_sim.Core.Simulator.{Simulator}
use kvflow_sim.Trace.Request.{LlmRequest}
use kvflow_sim.Serving.Inflight.{tier_of}
use kvflow_sim.Serving.Engine.Pending.{pending}
use kvflow_sim.Serving.Event.{ServingEvent, request_arrival, prefill_done, fetch_done, decode_done}
use kvflow_sim.Serving.Drive.{drive_lem}
use kvflow_sim.Serving.Runner.{RequestResult, earlier}
use kvflow_sim.Serving.Engine.{Engine, load, clear_state, sooner}
use kvflow_sim.Serving.Engine.Sound.{is, completed}
use kvflow_sim.Serving.Engine.Weight.{weight, flag, is_fetch, is_fetch-NoGpu, Runs, follows}
use kvflow_sim.Serving.Engine.Starts.{prefill_or_queue-After, decode_or_queue-After}
use kvflow_sim.Serving.Engine.Queues.{prefill_then_decode-Waits}
use kvflow_sim.Serving.Engine.Take.{
  Ready, step-Taken, release-Taken, Progress, After-Progress, frees-Waits,
}
use kvflow_sim.Serving.Engine.Finish.{on_decode_done-Progress}
use kvflow_sim.Serving.Engine.Load.{
  Fresh, asked, load-Loaded_all, Loaded-Ready, Ready-finished, results-Sorted,
}
use kvflow_sim.Serving.Scheduler.{decode_next, on_prefill_done, handle_event, event_loop, run}

-- The runner without a cache fetches nothing.
pub record Keeps (total : ℕ → ℕ) (now_ns : ℕ) (e : Engine) : Type 0 where
  pub ready : Ready total now_ns e
  pub no_fetch : pending is_fetch e.sim ≡ 0
  pub no_flag : (k : ℕ) → flag k e ≡ none

module _ {total : ℕ → ℕ} {now_ns t : ℕ} (e : Engine) (sim : Simulator ServingEvent) where
  Progress-Keeps :
      {event : ServingEvent} {e' : Engine}
      → Keeps total now_ns e
      → Progress total t event e e'
      → ((k : ℕ) → flag k e' ≡ flag k e)
      → Keeps total t e'
  Progress-Keeps h p flags = record {
    ready = p.ready;
    no_fetch = omega (arith, h.no_fetch, p.counts is_fetch is_fetch-NoGpu);
    no_flag = λ k. flags k ∙ h.no_flag k;
  }

  on_prefill_done-Progress :
      (id n i : ℕ)
      → Simulator.step e.sim ≡ some ((t, prefill_done id n i), sim)
      → Ready total now_ns e
      → Runs
          (λ e'. Progress total t (prefill_done id n i) e e' × ((k : ℕ) → flag k e' ≡ flag k e))
          (on_prefill_done (record e { sim = sim }) t id n i)
  unfolding on_prefill_done decode_next
  on_prefill_done-Progress id n i next h =
      let (e1, released, taken) = release-Taken e (prefill_done id n i) sim next n i refl h in
      let (e2, decoded, (begun, _)) = decode_or_queue-After e1 id taken.in_hand in
      let (e3, assigned, (after, waits)) = prefill_then_decode-Waits e2 begun.sound in
      elim (Option-cases (Map.get id e1.in_flight)) [
        | inl gone ↦ absurd (ground (arith, taken.in_hand.listed id))
        | inr (f, there) ↦
            let all = follows begun after in
            (
              e3,
              rw released (rw (there, decode_next) (rw decoded assigned)),
              (
                After-Progress taken all (omega arith) waits,
                λ k. all.flags k ∙ ap (λ m. tier_of (Map.get k m)) taken.flight,
              ),
            )
      ]

  -- Every event is handled, and brings the requests nearer to their end.
  pub handle_event-Progress :
      (event : ServingEvent)
      → Simulator.step e.sim ≡ some ((t, event), sim)
      → Keeps total now_ns e
      → (e' : Engine) × (handle_event (record e { sim = sim }) t event ≡ done e')
        × Keeps total t e'
        × (weight e' < weight e)
  unfolding handle_event
  handle_event-Progress (request_arrival id) next h =
      let taken = step-Taken e (request_arrival id) sim next refl h.ready in
      let (e2, ran, (after, freed)) =
        prefill_or_queue-After (record e { sim = sim }) id taken.in_hand in
      let p = After-Progress taken after (omega arith) (frees-Waits e2 freed) in
      (e2, ran, Progress-Keeps h p after.flags, p.lighter)
  handle_event-Progress (prefill_done id n i) next h =
      let (e2, ran, (p, flags)) = on_prefill_done-Progress id n i next h.ready in
      (e2, ran, Progress-Keeps h p flags, p.lighter)
  handle_event-Progress (fetch_done id) next h = absurd (
      omega
        (arith, h.no_fetch, (step-Taken e (fetch_done id) sim next refl h.ready).counts is_fetch))
  handle_event-Progress (decode_done id n i) next h =
      let (e2, ran, (p, flags)) =
        on_decode_done-Progress e sim id n i next (h.no_flag id) h.ready in
      (e2, ran, Progress-Keeps h p flags, p.lighter)

-- On a cluster of distinct node ids with an idle GPU for each role and no GPU at work, and for
-- requests of distinct ids, `EventDrivenRunner::run` ends without a panic: every request has just
-- one result, in order of arrival and of id, none stays in flight and no queue holds one.
pub run_finishes :
    (e : Engine) (requests : List LlmRequest)
    → Fresh e.cluster
    → ((k : ℕ) → asked k requests ≤ 1)
    → (e' : Engine) × (results : List RequestResult) × (run e requests ≡ done (some (e', results)))
      × ((k : ℕ) → completed k results ≡ asked k requests)
      × Sorted sooner results
      × ((k : ℕ) → Map.get k e'.in_flight ≡ none)
      × (e'.prefill_queue ≡ [])
      × (e'.decode_queue ≡ [])
unfolding run event_loop
run_finishes e requests fresh once =
    let sorted = sort earlier requests in
    let same =
      λ (k : ℕ). sum_by-sort earlier (λ (r : LlmRequest). is (r.request_id == k)) requests in
    let loaded = load-Loaded_all e sorted fresh (λ k. omega (arith, once k, same k)) in
    let (e', t, ran, h, ended) =
      drive_lem (λ x. x.sim) (λ x sim. record x { sim = sim }) handle_event
        (Keeps (λ k. asked k sorted)) weight
        (λ now_ns t x event sim. handle_event-Progress x sim event) (6 * length requests + 1) 0
        (load (clear_state e) sorted) (omega (arith, loaded.weighs, length-sort earlier requests))
        (record {
          ready = Loaded-Ready _ loaded;
          no_fetch = loaded.fetches;
          no_flag = loaded.flags;
        }) in
    let (all, gone, prefills, decodes) = Ready-finished e' h.ready ended in
    (
      record e' { results = [] },
      sort sooner e'.results,
      rw ran refl,
      (λ k. omega (
        arith,
        all k,
        same k,
        sum_by-sort sooner (λ (r : RequestResult). is (r.request_id == k)) e'.results,
      )),
      results-Sorted e'.results,
      gone,
      prefills,
      decodes,
    )
