-- ===== src/Trace.antt =====
-- src/trace: the requests that drive a simulation.
pub mod Request
pub mod Synthetic
pub mod Stats
pub mod Jsonl
mod Tests
