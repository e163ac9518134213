-- ===== src/Policy.antt =====
-- src/policy: where a newly computed KV object is stored, and what is evicted for it.
pub mod Placement
pub mod Evict
pub mod LocalGpuLru
pub mod CpuOffloadLru
pub mod Baselines
pub mod NetworkAware
pub mod Interface
pub mod Fetch
pub mod Contract
pub mod Lru
pub mod Room
pub mod Outcome
pub mod Best
pub mod Utility
pub mod Offload
mod Tests
