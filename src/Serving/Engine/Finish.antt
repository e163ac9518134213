-- ===== src/Serving/Engine/Finish.antt =====
-- `on_decode_done`, which both runners of src/serving have: the request's result is written and the
-- freed GPU goes to the queues.
use kvflow_sim.Base.{ℕ, nat_eq, ◌≡◌, refl, ◌∙◌, ap, none, some, arith}
use kvflow_sim.Base.Map
use kvflow_sim.Base.Map.{get-erase}
use kvflow_sim.Core.Simulator
use kvflow_sim.Core.Simulator.{Simulator}
use kvflow_sim.Serving.Event.{ServingEvent, decode_done}
use kvflow_sim.Serving.Inflight.{tier_of}
use kvflow_sim.Serving.Engine.{Engine, finalize, on_decode_done}
use kvflow_sim.Serving.Engine.Sound.{Sound}
use kvflow_sim.Serving.Engine.Moves.{finalize-Sound}
use kvflow_sim.Serving.Engine.Weight.{flag, After, Runs, follows}
use kvflow_sim.Serving.Engine.Queues.{decode_then_prefill-Waits}
use kvflow_sim.Serving.Engine.Take.{Ready, release-Taken, Progress, After-Progress}

finalize-After :
    {total : ℕ → ℕ} {t : ℕ} (e : Engine) (id : ℕ)
    → flag id e ≡ none
    → Sound (some id) total t e
    → After total t e 0 (finalize e id)
unfolding finalize
finalize-After e id quiet s = record {
  sound = finalize-Sound e id s;
  same_now = ground arith;
  more = ground arith;
  lighter = ground arith;
  others = λ f no. ground arith;
  flags = λ k. ground (arith, get-erase k id e.in_flight);
}

pub on_decode_done-Progress :
    {total : ℕ → ℕ} {now_ns t : ℕ} (e : Engine) (sim : Simulator ServingEvent) (id n i : ℕ)
    → Simulator.step e.sim ≡ some ((t, decode_done id n i), sim)
    → flag id e ≡ none
    → Ready total now_ns e
    → Runs
        (λ e'. Progress total t (decode_done id n i) e e' × ((k : ℕ) → flag k e' ≡ flag k e))
        (on_decode_done (record e { sim = sim }) t id n i)
unfolding on_decode_done
on_decode_done-Progress e sim id n i next quiet h =
    let (e1, released, taken) = release-Taken e (decode_done id n i) sim next n i refl h in
    let kept = λ (k : ℕ). ap (λ m. tier_of (Map.get k m)) taken.flight in
    let finished = finalize-After e1 id (kept id ∙ quiet) taken.in_hand in
    let (e2, assigned, (after, waits)) =
      decode_then_prefill-Waits (finalize e1 id) finished.sound in
    let all = follows finished after in
    (
      e2,
      rw released assigned,
      (After-Progress taken all (omega arith) waits, λ k. all.flags k ∙ kept k),
    )
