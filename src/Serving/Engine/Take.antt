-- ===== src/Serving/Engine/Take.antt =====
-- The front event of src/serving's simulator taken off, and the GPU freed that it names.
use kvflow_sim.Base.{ℕ, ◌+◌, ◌≤◌, ◌<◌, ◌≡◌, refl, inr, none, some, arith, ◌∙◌}
use kvflow_sim.Core.Simulator
use kvflow_sim.Core.Simulator.{Simulator}
use kvflow_sim.Cluster.Busy.{set_busy-Sets}
use kvflow_sim.Serving.Event.{ServingEvent}
use kvflow_sim.Serving.Engine.{Engine, release}
use kvflow_sim.Serving.Engine.Pending.{pending, pending-step}
use kvflow_sim.Serving.Engine.Sound.{Sound, subject, gpu_of}
use kvflow_sim.Serving.Engine.Releases.{steps-Sound, releases-Sound, event_gpu}
use kvflow_sim.Serving.Engine.Weight.{weigh, weight, freeing, NoGpu, After, Waits, Runs}

-- What the loop keeps true between two events.
pub record Ready (total : ℕ → ℕ) (now_ns : ℕ) (e : Engine) : Type 0 where
  pub sound : Sound none total now_ns e
  pub clock : (e.sim).now_ns ≡ now_ns
  pub waits : Waits e

-- The event's request is in hand, and the event no longer counts.
pub record Taken (total : ℕ → ℕ) (t : ℕ) (event : ServingEvent) (e e' : Engine) : Type 0 where
  pub in_hand : Sound (some (subject event)) total t e'
  pub clock : (e'.sim).now_ns ≡ t
  pub lighter : weight e ≡ weigh event + weight e'
  pub counts : (f : ServingEvent → ℕ) → pending f e.sim ≡ f event + pending f e'.sim
  pub flight : e'.in_flight ≡ e.in_flight
  pub prefills : e'.prefill_queue ≡ e.prefill_queue
  pub decodes : e'.decode_queue ≡ e.decode_queue

module _ {total : ℕ → ℕ} {now_ns t : ℕ} (e : Engine) (event : ServingEvent)
    (sim : Simulator ServingEvent) (next : Simulator.step e.sim ≡ some ((t, event), sim)) where
  pub step-Taken :
      gpu_of event ≡ none → Ready total now_ns e → Taken total t event e (record e { sim = sim })
  step-Taken place h = record {
    in_hand =
        steps-Sound e t event sim next place
          (omega (arith, h.clock, (pending-step weigh e.sim sim t event next).2)) h.sound;
    clock = (pending-step weigh e.sim sim t event next).1;
    lighter = omega (arith, (pending-step weigh e.sim sim t event next).0);
    counts = λ f. (pending-step f e.sim sim t event next).0;
    flight = refl;
    prefills = refl;
    decodes = refl;
  }

  pub release-Taken :
      (n i : ℕ)
      → gpu_of event ≡ some (n, i)
      → Ready total now_ns e
      → Runs (Taken total t event e) (release (record e { sim = sim }) n i t)
  unfolding release
  release-Taken n i place h =
      let (g, at) = event_gpu e t n i event sim next place h.sound in
      let (c', set, sets) = set_busy-Sets e.cluster n i g t (h.sound).distinct at in
      (
        record e { sim = sim; cluster = c' },
        rw set refl,
        record {
          in_hand =
              releases-Sound e t n i event sim g c' next place
                (omega (arith, h.clock, (pending-step weigh e.sim sim t event next).2)) at sets
                h.sound;
          clock = (pending-step weigh e.sim sim t event next).1;
          lighter = omega (arith, (pending-step weigh e.sim sim t event next).0);
          counts = λ f. (pending-step f e.sim sim t event next).0;
          flight = refl;
          prefills = refl;
          decodes = refl;
        },
      )

-- What a handler makes of an event, where it starts no fetch.
pub record Progress (total : ℕ → ℕ) (t : ℕ) (event : ServingEvent) (e e' : Engine) : Type 0 where
  pub ready : Ready total t e'
  pub lighter : weight e' < weight e
  pub counts : (f : ServingEvent → ℕ) → NoGpu f → pending f e.sim ≡ f event + pending f e'.sim

pub After-Progress :
    {total : ℕ → ℕ} {t : ℕ} {event : ServingEvent} {e e1 e2 : Engine} {slack : ℕ}
    → Taken total t event e e1
    → After total t e1 slack e2
    → slack < weigh event
    → Waits e2
    → Progress total t event e e2
After-Progress taken h le waits = record {
  ready = record { sound = h.sound; clock = h.same_now ∙ taken.clock; waits = waits };
  lighter = omega (arith, taken.lighter, h.lighter);
  counts = λ f no. omega (arith, taken.counts f, h.others f no);
}

-- A GPU that is to be freed lets every queue wait.
pub frees-Waits : (e : Engine) → 1 ≤ freeing e → Waits e
frees-Waits e h = (inr h, inr h)
