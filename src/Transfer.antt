-- ===== src/Transfer.antt =====
-- src/transfer: the three transfer models behind one trait.
pub mod Path
pub mod Analytical
pub mod Queued
pub mod Table
pub mod Units
pub mod Model
pub mod Durations
pub mod Nic
mod Tests
