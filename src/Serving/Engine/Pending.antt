-- ===== src/Serving/Engine/Pending.antt =====
-- Sums over the pending events of a simulator of src/core/simulator.rs: what `schedule` adds to them
-- and what `step` takes off.
use mathlib.Core.Option.{some-injective}
use kvflow_sim.Base.{ℕ, ◌+◌, ◌≤◌, ◌≡◌, refl, ap, List, [], ◌∷◌, none, some, arith, sum_by, max}
use kvflow_sim.Core.Event
use kvflow_sim.Core.Event.{Event, EventQueue, split_max, is_less, heap_pop}
use kvflow_sim.Core.Simulator
use kvflow_sim.Core.Simulator.{Simulator}

module _ {T : Type 0} (f : T → ℕ) where
  abbrev pub pending : Simulator T → ℕ
  pending s = sum_by (λ (ev : Event T). f ev.kind) (s.queue).queue

  pub pending-schedule :
      (s : Simulator T) (time_ns : ℕ) (kind : T)
      → pending (Simulator.schedule s time_ns kind) ≡ f kind + pending s
  unfolding Simulator.schedule Event.schedule
  pending-schedule s time_ns kind = refl

  sum-split_max :
      (e : Event T) (l : List (Event T))
      → sum_by (λ (ev : Event T). f ev.kind) (e ∷ l)
        ≡ f (split_max e l).0.kind + sum_by (λ (ev : Event T). f ev.kind) (split_max e l).1
  unfolding split_max
  sum-split_max e [] = refl
  sum-split_max e (d ∷ l) = ground (arith, sum-split_max d l)

  -- One event goes, and the clock moves on.
  pub pending-step :
      (s s' : Simulator T) (now_ns : ℕ) (kind : T)
      → Simulator.step s ≡ some ((now_ns, kind), s')
      → (pending s ≡ f kind + pending s') × (s'.now_ns ≡ now_ns) × (s.now_ns ≤ now_ns)
  unfolding Simulator.step Event.pop
  pending-step s s' now_ns kind h = of_queue s.now_ns (s.queue).next_seq (s.queue).queue h
    where
      of_queue :
          (now seq : ℕ) (l : List (Event T))
          → Simulator.step (record { now_ns = now; queue = record { queue = l; next_seq = seq } })
            ≡ some ((now_ns, kind), s')
          → (sum_by (λ (ev : Event T). f ev.kind) l ≡ f kind + pending s')
            × (s'.now_ns ≡ now_ns)
            × (now ≤ now_ns)
      of_queue now seq [] h = cc
      of_queue now seq (e ∷ l) h =
          let q = some-injective _ _ h in
          let kinds : (split_max e l).0.kind ≡ kind =
            ap (λ (x : (ℕ × T) × Simulator T). (x.0).1) q in
          let times : max now (split_max e l).0.time_ns ≡ now_ns =
            ap (λ (x : (ℕ × T) × Simulator T). (x.0).0) q in
          let left : (split_max e l).1 ≡ (s'.queue).queue =
            ap (λ (x : (ℕ × T) × Simulator T). ((x.1).queue).queue) q in
          let clock : max now (split_max e l).0.time_ns ≡ s'.now_ns =
            ap (λ (x : (ℕ × T) × Simulator T). (x.1).now_ns) q in
          (
            omega (
              arith,
              sum-split_max e l,
              ap f kinds,
              ap (sum_by (λ (ev : Event T). f ev.kind)) left,
            ),
            omega arith,
            omega arith,
          )

  pub pending-none : (s : Simulator T) → Simulator.step s ≡ none → pending s ≡ 0
  unfolding Simulator.step Event.pop
  pending-none s h = ground arith
