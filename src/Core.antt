-- ===== src/Core.antt =====
-- src/core: the event queue and the simulator shell.
pub mod Event
pub mod Simulator
pub mod Agenda
pub mod Clock
mod Tests
