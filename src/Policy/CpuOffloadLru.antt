-- ===== src/Policy/CpuOffloadLru.antt =====
-- src/policy/cpu_offload_lru.rs.
use kvflow_sim.Base.{ℕ, List, [], Option, none, some, if◌then◌else◌, ltb}
use kvflow_sim.Error.{err, invalid_model_profile, text}
use kvflow_sim.Cache.Tier.{TierKind}
use kvflow_sim.Cache.Object.{CacheLocation}
use kvflow_sim.Cache.State.{CacheState, HashOrder, available_space}
use kvflow_sim.Cluster.Topology.{ClusterTopology, node}
use kvflow_sim.Policy.Placement.{PlaceRequest, Placed, EvictedKv, store_at}
use kvflow_sim.Policy.Evict.{evict_lru}
use kvflow_sim.Policy.LocalGpuLru.{first_gpu_of}

pub record CpuOffloadLru : Type 0 where
  pub target_node : ℕ

abbrev pub on_gpu : ℕ → Option ℕ → Option CacheLocation
on_gpu node_id none = none
on_gpu node_id (some gpu_id) = some (CacheLocation.gpu node_id gpu_id)

abbrev pub location_in : ClusterTopology → ℕ → TierKind → Option CacheLocation
location_in cluster node_id TierKind.gpu = on_gpu node_id (first_gpu_of (node cluster node_id))
location_in cluster node_id TierKind.cpu = some (CacheLocation.cpu node_id)
location_in cluster node_id TierKind.local_ssd = some (CacheLocation.local_ssd node_id)
location_in cluster node_id TierKind.remote_memory = some (CacheLocation.remote_memory node_id)
location_in cluster node_id TierKind.remote_ssd = some (CacheLocation.remote_ssd node_id)

unfoldable pub try_place_in_tier :
    ClusterTopology → CacheState → ℕ → TierKind → ℕ → Option CacheLocation
try_place_in_tier cluster c node_id tier bytes =
    if ltb (available_space c node_id tier) bytes then none else location_in cluster node_id tier

module _ (self : CpuOffloadLru) (order : HashOrder) (cluster : ClusterTopology)
    (r : PlaceRequest) where
  open self use {target_node}

  -- `if let Some(loc) = try_place_in_tier(..) { insert; return }`, and what follows it.
  unfoldable pub try_tier : TierKind → CacheState → List EvictedKv → Placed → Placed
  try_tier tier c evicted otherwise = elim (try_place_in_tier cluster c target_node tier r.bytes) [
    | some loc ↦ store_at c r loc evicted
    | none ↦ otherwise
  ]

  -- Behind the eviction from the host.
  unfoldable pub after_cpu : CacheState × List EvictedKv → Placed
  unfolding try_tier
  after_cpu (c, evicted) =
      try_tier TierKind.cpu c evicted (
        c,
        err (invalid_model_profile (text "CpuOffloadLru: no space on GPU or CPU for KV object")),
      )

  -- Behind the eviction from the GPUs.
  unfoldable pub after_gpu : CacheState × List EvictedKv → Placed
  unfolding try_tier after_cpu
  after_gpu (c, evicted) = try_tier TierKind.gpu c evicted (
      try_tier TierKind.cpu c evicted
        (after_cpu (evict_lru order target_node TierKind.cpu r.bytes c evicted)))

  unfoldable pub place : CacheState → Placed
  unfolding try_tier after_gpu
  place c =
      try_tier TierKind.gpu c [] (after_gpu (evict_lru order target_node TierKind.gpu r.bytes c []))
