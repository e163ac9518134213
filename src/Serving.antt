-- ===== src/Serving.antt =====
-- src/serving: the runners.
pub mod Event
pub mod Drive
pub mod Runner
pub mod Metrics
pub mod Inflight
pub mod Engine
pub mod Workers
pub mod Scheduler
pub mod Complete
pub mod Belongs
pub mod CacheRunner
pub mod Synthetic
pub mod Summary
pub mod NoReuseEvents
pub mod NoReuse
pub mod Fixtures
mod Tests
mod RunTests
mod SummaryTests
mod CacheTests
