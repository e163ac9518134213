-- ===== src/Cache.antt =====
-- src/cache: objects, tiers, the cache state and eviction.
pub mod Tier
pub mod Object
pub mod State
pub mod Eviction
mod Tests
