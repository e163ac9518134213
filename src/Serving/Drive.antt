-- ===== src/Serving/Drive.antt =====
-- The loop that src/serving/scheduler.rs and src/serving/cache_runner.rs both end in,
-- `while let Some((now_ns, event)) = self.sim.step() { self.handle_event(now_ns, event); }`.
use kvflow_sim.Base.{
  ℕ, zero, suc, ◌≡◌, ◌<◌, refl, Option, none, some, arith, Option-cases, inl, inr,
}
use kvflow_sim.Panic.{Outcome, done, panic, ◌>>=◌}
use kvflow_sim.Core.Simulator
use kvflow_sim.Core.Simulator.{Simulator}
use kvflow_sim.Serving.Event.{ServingEvent}

-- What holds of a result, if there is one, and of that of the loop.
abbrev pub After : {S : Type 0} → (S → Type 0) → Outcome S → Type 0
After holds panic = Unit
After holds (done s) = holds s

abbrev pub Ends : {S : Type 0} → (S → Type 0) → Outcome (Option S) → Type 0
Ends holds panic = Unit
Ends holds (done none) = Unit
Ends holds (done (some s)) = holds s

-- How a runner's simulator is read and written, and its handler.
module _ {S : Type 0} (sim : S → Simulator ServingEvent) (with_sim : S → Simulator ServingEvent → S)
    (handle_event : S → ℕ → ServingEvent → Outcome S) where
  -- `none` where the fuel runs out.
  unfoldable pub drive : ℕ → S → Outcome (Option S)
  drive zero s = done none
  drive (suc fuel) s = elim (Simulator.step (sim s)) [
    | none ↦ done (some s)
    | some ((now_ns, event), rest) ↦ do
      s' ← handle_event (with_sim s rest) now_ns event
      drive fuel s'
  ]

  -- Where each event leaves something true and makes something less, the loop comes to an end.
  module _ (Keeps : ℕ → S → Type 0) (left : S → ℕ)
      (handles : (now_ns t : ℕ) (s : S) (event : ServingEvent) (rest : Simulator ServingEvent)
        → Simulator.step (sim s) ≡ some ((t, event), rest)
        → Keeps now_ns s
        → (s' : S) × (handle_event (with_sim s rest) t event ≡ done s')
          × Keeps t s'
          × (left s' < left s)) where
    pub drive_lem :
        (fuel now_ns : ℕ) (s : S)
        → left s < fuel
        → Keeps now_ns s
        → (s' : S) × (t : ℕ) × (drive fuel s ≡ done (some s'))
          × Keeps t s'
          × (Simulator.step (sim s') ≡ none)
    unfolding drive
    drive_lem zero now_ns s enough h = absurd (omega arith)
    drive_lem (suc fuel) now_ns s enough h = elim (Option-cases (Simulator.step (sim s))) [
      | inl ended ↦ (s, now_ns, rw (ended, drive) refl, h, ended)
      | inr (((t, event), rest), next) ↦
          let (s', handled, h', less) = handles now_ns t s event rest next h in
          let (s2, t2, ran, keeps, ended) = drive_lem fuel t s' (omega arith) h' in
          (s2, t2, rw (next, drive) (rw (handled, drive) ran), keeps, ended)
    ]

  -- What no event breaks holds at the end.
  module _ (holds : S → Type 0)
      (handles : (s : S) (t : ℕ) (event : ServingEvent) (rest : Simulator ServingEvent)
        → holds s
        → After holds (handle_event (with_sim s rest) t event)) where
    Ends-then :
        (o : Outcome S) (f : S → Outcome (Option S))
        → After holds o
        → ((s : S) → holds s → Ends holds (f s))
        → Ends holds (o >>= f)
    Ends-then panic f h g = tt
    Ends-then (done s) f h g = g s h

    pub drive-Ends : (fuel : ℕ) (s : S) → holds s → Ends holds (drive fuel s)
    unfolding drive
    drive-Ends zero s h = tt
    drive-Ends (suc fuel) s h = elim (Option-cases (Simulator.step (sim s))) [
      | inl ended ↦ rw (ended, drive) h
      | inr (((t, event), rest), next) ↦
          rw (next, drive)
            (Ends-then (handle_event (with_sim s rest) t event) (drive fuel)
              (handles s t event rest h) (λ x g. drive-Ends fuel x g))
    ]
