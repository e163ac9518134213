-- ===== src/Core/Clock.antt =====
-- The clock of src/core/simulator.rs, against the agenda of its queue and over whole histories of
-- calls.
use kvflow_sim.Base.{
  ℕ, ◌≤◌, ◌≡◌, refl, subst, Option-cases, List, [], ◌∷◌, Option, none, some, arith, max, ◌⊎◌, inl,
  inr,
}
use kvflow_sim.Core.Event
use kvflow_sim.Core.Event.{Event, EventQueue}
use kvflow_sim.Core.Agenda.{agenda, Pops, agenda-pop}
use kvflow_sim.Core.Simulator.{Simulator, schedule, step}

-- What a driver does with a simulator.
pub data Call {ℓ} (T : Type ℓ) : Type ℓ where
  schedules : ℕ → T → Call T
  steps : Call T

abbrev pub NeverBack : ℕ → List ℕ → Type 0
NeverBack now [] = Unit
NeverBack now (t ∷ ts) = (now ≤ t) × NeverBack t ts

module _ {ℓ} {T : Type ℓ} where
  -- The first agenda entry `(d, k)` is handed out at `t`, the later of `d` and the clock, and the
  -- clock then shows `t`.
  abbrev pub Advances : Simulator T → Option ((ℕ × T) × Simulator T) → Type ℓ
  Advances s none = agenda s.queue ≡ []
  Advances s (some ((t, k), s')) =
      (d : ℕ) × (agenda s.queue ≡ (d, k) ∷ agenda s'.queue) × (t ≡ max s.now_ns d) × (s'.now_ns ≡ t)

  step-Pops :
      (s : Simulator T) (r : Option (Event T × EventQueue T))
      → Event.pop s.queue ≡ r
      → Pops (agenda s.queue) r
      → Advances s (step s)
  unfolding step
  step-Pops s none e p = rw (e, step) p
  step-Pops s (some (ev, q)) e p = rw (e, step) (ev.time_ns, p, refl, refl)

  -- On every simulator `step` either finds the agenda empty and returns nothing, or hands out the
  -- first entry of the agenda at the later of its due time and the clock, and moves the clock
  -- there.
  step-Advances : (s : Simulator T) → Advances s (step s)
  step-Advances s = step-Pops s (Event.pop s.queue) refl (agenda-pop s.queue)

  -- The times that the calls report, in order.
  unfoldable pub reports : Simulator T → List (Call T) → List ℕ
  reports s [] = []
  reports s (schedules t k ∷ cs) = reports (schedule s t k) cs
  reports s (steps ∷ cs) = elim (step s) [
    | none ↦ reports s cs
    | some ((t, _), s') ↦ t ∷ reports s' cs
  ]

  schedule-now : (s : Simulator T) (t : ℕ) (k : T) → (schedule s t k).now_ns ≡ s.now_ns
  unfolding schedule
  schedule-now s t k = refl

  -- Whatever a driver schedules, in the past too, and whenever it steps, the times that it is told
  -- never go back, and never lie before the clock at the start.
  pub reports-NeverBack : (s : Simulator T) (cs : List (Call T)) → NeverBack s.now_ns (reports s cs)
  unfolding reports
  reports-NeverBack s [] = tt
  reports-NeverBack s (schedules t k ∷ cs) =
      subst (λ n. NeverBack n (reports (schedule s t k) cs)) (schedule-now s t k)
        (reports-NeverBack (schedule s t k) cs)
  reports-NeverBack s (steps ∷ cs) = after (Option-cases (step s)) (λ s'. reports-NeverBack s' cs)
    where
      after :
          (step s ≡ none) ⊎ ((r : (ℕ × T) × Simulator T) × (step s ≡ some r))
          → ((s' : Simulator T) → NeverBack s'.now_ns (reports s' cs))
          → NeverBack s.now_ns (reports s (steps ∷ cs))
      after (inl e) ih = rw (e, reports) (ih s)
      after (inr (((t, k), s'), e)) ih =
          rw (e, reports)
            (let (d, _, at, clock) = subst (Advances s) e (step-Advances s) in
              (omega arith, subst (λ n. NeverBack n (reports s' cs)) clock (ih s')))
