-- ===== src/Core/Simulator.antt =====
-- src/core/simulator.rs: the clock over the event queue.
use kvflow_sim.Base.{ℕ, Bool, Option, none, some, max}
use kvflow_sim.Core.Event
use kvflow_sim.Core.Event.{Event, EventQueue}

pub record Simulator {ℓ} (T : Type ℓ) : Type ℓ where
  pub now_ns : ℕ
  pub queue : EventQueue T

module _ {ℓ} {T : Type ℓ} where
  unfoldable pub new : Simulator T
  new = record { now_ns = 0; queue = Event.new }

  unfoldable pub schedule : Simulator T → ℕ → T → Simulator T
  schedule s time_ns kind = record s { queue = Event.schedule s.queue time_ns kind }

  unfoldable pub step : Simulator T → Option ((ℕ × T) × Simulator T)
  step s = elim (Event.pop s.queue) [
    | none ↦ none
    | some (ev, q) ↦
        let now = max s.now_ns ev.time_ns in
        some ((now, ev.kind), record { now_ns = now; queue = q })
  ]

  unfoldable pub is_empty : Simulator T → Bool
  is_empty s = Event.is_empty s.queue

  unfoldable pub len : Simulator T → ℕ
  len s = Event.len s.queue
