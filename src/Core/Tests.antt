-- ===== src/Core/Tests.antt =====
-- Runs of src/core on small inputs, among them the source's own tests, and the theorems there.
use kvflow_sim.Base.{ℕ, zero, suc, ◌≡◌, refl, List, [], ◌∷◌, none, some, arith}
use kvflow_sim.Core.Event
use kvflow_sim.Core.Event.{Event, EventQueue}
use kvflow_sim.Core.Agenda.{agenda, enqueue, IsFresh, agenda-schedule, agenda-pop, Pops}
use kvflow_sim.Core.Simulator
use kvflow_sim.Core.Simulator.{Simulator}
use kvflow_sim.Core.Clock.{Call, schedules, steps, reports, NeverBack, reports-NeverBack}

program : Unit {0}
unfolding Event.new Event.schedule Event.pop Event.split_max Event.is_less Simulator.new
    Simulator.schedule Simulator.step reports
program = tt

three : EventQueue ℕ
three = Event.schedule (Event.schedule (Event.schedule Event.new 100 3) 10 1) 50 2

kinds : ℕ → EventQueue ℕ → List ℕ
kinds zero q = []
kinds (suc n) q = elim (Event.pop q) [ none ↦ [] | some (e, q') ↦ e.kind ∷ kinds n q' ]

events_processed_in_time_order : kinds 4 three ≡ 1 ∷ 2 ∷ 3 ∷ []
unfolding program three kinds
events_processed_in_time_order = refl

same_time_processed_fifo :
    kinds 2 (Event.schedule (Event.schedule Event.new 10 1) 10 2) ≡ 1 ∷ 2 ∷ []
unfolding program kinds
same_time_processed_fifo = refl

abbrev driver : List (Call ℕ)
driver = schedules 100 1 ∷ steps ∷ schedules 50 2 ∷ steps ∷ steps ∷ []

-- An event scheduled in the past is handed out at once.
past_event : reports Simulator.new driver ≡ 100 ∷ 100 ∷ []
unfolding program
past_event = refl

three-IsFresh : IsFresh three
unfolding three program
three-IsFresh = omega arith

agenda-schedule_example : agenda (Event.schedule three 50 7) ≡ enqueue 50 7 (agenda three)
agenda-schedule_example = agenda-schedule three 50 7 three-IsFresh

agenda-pop_example : Pops (agenda three) (Event.pop three)
agenda-pop_example = agenda-pop three

reports-NeverBack_example : NeverBack (Simulator.new {T = ℕ}).now_ns (reports Simulator.new driver)
reports-NeverBack_example = reports-NeverBack Simulator.new driver
