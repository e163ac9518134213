-- ===== src/Policy/Baselines.antt =====
-- src/policy/baselines.rs. Neither policy looks whether the eviction made room: `insert` does.
use kvflow_sim.Base.{ℕ, List, [], if◌then◌else◌, leb}
use kvflow_sim.Cache.Tier.{TierKind}
use kvflow_sim.Cache.Object.{CacheLocation}
use kvflow_sim.Cache.State.{CacheState, HashOrder}
use kvflow_sim.Policy.Placement.{PlaceRequest, Placed, EvictedKv, store_at}
use kvflow_sim.Policy.Evict.{evict_lru}

pub record RemoteLru : Type 0 where
  pub target_node : ℕ

pub record SizeAware : Type 0 where
  pub target_node : ℕ
  pub gpu_threshold_bytes : ℕ

-- `place` behind the eviction.
abbrev pub store_after : PlaceRequest → CacheLocation → CacheState × List EvictedKv → Placed
store_after r loc (c, evicted) = store_at c r loc evicted

unfoldable pub remote_lru : RemoteLru → HashOrder → PlaceRequest → CacheState → Placed
remote_lru self order r c =
    store_after r (CacheLocation.remote_memory self.target_node)
      (evict_lru order self.target_node TierKind.remote_memory r.bytes c [])

abbrev pub tier_for : SizeAware → ℕ → TierKind
tier_for self bytes = if leb bytes self.gpu_threshold_bytes then TierKind.gpu else TierKind.cpu

abbrev pub location_for : ℕ → TierKind → CacheLocation
location_for node_id TierKind.gpu = CacheLocation.gpu node_id 0
location_for node_id _ = CacheLocation.cpu node_id

unfoldable pub size_aware : SizeAware → HashOrder → PlaceRequest → CacheState → Placed
size_aware self order r c =
    store_after r (location_for self.target_node (tier_for self r.bytes))
      (evict_lru order self.target_node (tier_for self r.bytes) r.bytes c [])
