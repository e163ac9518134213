-- ===== src/Model.antt =====
-- src/model: model profiles and the compute latency model.
pub mod Profile
pub mod Compute
pub mod Sizing
mod Tests
