-- ===== src/Serving/Belongs.antt =====
-- Each result of a run of src/serving is one of its requests: `EventDrivenRunner`.
use kvflow_sim.Base.{ℕ, nat_eq, ◌+◌, ◌*◌, ◌≤◌, ◌≡◌, subst, List, In, Option, none, some, length}
use kvflow_sim.Base.Map
use kvflow_sim.Base.Sort.{sort, sort-In}
use kvflow_sim.Panic.{Outcome, done, panic, ◌>>=◌}
use kvflow_sim.Trace.Request.{LlmRequest}
use kvflow_sim.Serving.Event.{ServingEvent, request_arrival, prefill_done, fetch_done, decode_done}
use kvflow_sim.Serving.Drive.{Ends, drive-Ends}
use kvflow_sim.Serving.Inflight.{InFlightRequest}
use kvflow_sim.Serving.Runner.{RequestResult, earlier}
use kvflow_sim.Serving.Engine.{
  Engine, load, clear_state, sooner, release, decode_or_queue, try_assign_prefill,
}
use kvflow_sim.Serving.Engine.Load.{Fresh, asked}
use kvflow_sim.Serving.Engine.Carried.{
  Answers, Carries, Stays, then-Stays, prefill_or_queue-Stays, decode_or_queue-Stays, release-Stays,
  try_assign_prefill-Stays, try_assign_decode-Stays, on_decode_done-Stays, load-Carries,
  clear_state-Carries,
}
use kvflow_sim.Serving.Scheduler.{
  decode_next, on_prefill_done, handle_event, event_loop, run, take_results,
}
use kvflow_sim.Serving.Complete.{run_finishes}

module _ (requests : List LlmRequest) where
  decode_next-Stays :
      (e : Engine) (id t : ℕ)
      → Carries requests e.in_flight e.results
      → Stays requests (decode_next e id t)
  unfolding decode_next
  decode_next-Stays e id t h = either (Map.get id e.in_flight)
    where
      either :
          (o : Option InFlightRequest)
          → Stays requests (elim o [ none ↦ done e | some _ ↦ decode_or_queue e id t ])
      either none = h
      either (some f) = decode_or_queue-Stays requests e id t h

  handle_event-Stays :
      (e : Engine) (t : ℕ) (event : ServingEvent)
      → Carries requests e.in_flight e.results
      → Stays requests (handle_event e t event)
  unfolding handle_event on_prefill_done
  handle_event-Stays e t (request_arrival id) h = prefill_or_queue-Stays requests e id t h
  handle_event-Stays e t (fetch_done id) h = tt
  handle_event-Stays e t (decode_done id n i) h = on_decode_done-Stays requests e t id n i h
  handle_event-Stays e t (prefill_done id n i) h =
      then-Stays requests (release e n i t) _ (release-Stays requests e n i t h) (λ x g.
        then-Stays requests (decode_next x id t) _ (decode_next-Stays x id t g) (λ y k.
          then-Stays requests (try_assign_prefill y t) _ (try_assign_prefill-Stays requests y t k)
            (λ z l. try_assign_decode-Stays requests z t l)))

  -- Every result that a run returns.
  abbrev pub AllAnswer : Outcome (Option (Engine × List RequestResult)) → Type 0
  AllAnswer panic = Unit
  AllAnswer (done none) = Unit
  AllAnswer (done (some (e, results))) = (r : RequestResult) → In r results → Answers requests r

  returned :
      (o : Outcome (Option Engine))
      → Ends (λ (e : Engine). Carries requests e.in_flight e.results) o
      → AllAnswer (o >>= (λ r. done (take_results r)))
  returned panic h = tt
  returned (done none) h = tt
  returned (done (some e)) h = λ r i. h.1 r ((sort-In sooner r e.results).0 i)

  run-AllAnswer : (e : Engine) → AllAnswer (run e requests)
  unfolding run event_loop
  run-AllAnswer e = returned _ (
      drive-Ends (λ x. x.sim) (λ x sim. record x { sim = sim }) handle_event
        (λ (x : Engine). Carries requests x.in_flight x.results)
        (λ x t event rest h. handle_event-Stays (record x { sim = rest }) t event h)
        (6 * length requests + 1) (load (clear_state e) (sort earlier requests))
        (load-Carries requests (sort earlier requests) (clear_state e)
          (λ q i. (sort-In earlier q requests).0 i) (clear_state-Carries requests e)))

-- On a cluster of distinct node ids with an idle GPU for each role and no GPU at work, and for
-- requests of distinct ids, `EventDrivenRunner::run` ends without a panic and every result is that
-- of a request of the run, with its id, session, turn, arrival and token counts.
pub run-Answers :
    (e : Engine) (requests : List LlmRequest)
    → Fresh e.cluster
    → ((k : ℕ) → asked k requests ≤ 1)
    → (e' : Engine) × (results : List RequestResult) × (run e requests ≡ done (some (e', results)))
      × ((r : RequestResult) → In r results → Answers requests r)
run-Answers e requests fresh once =
    let (e', results, ran, _, _, _, _, _) = run_finishes e requests fresh once in
    (e', results, ran, subst (AllAnswer requests) ran (run-AllAnswer requests e))
