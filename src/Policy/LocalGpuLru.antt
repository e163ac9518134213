-- ===== src/Policy/LocalGpuLru.antt =====
-- src/policy/local_gpu_lru.rs.
use kvflow_sim.Base.{ℕ, List, [], ◌∷◌, Option, none, some, if◌then◌else◌, leb}
use kvflow_sim.Error.{err, invalid_model_profile, text}
use kvflow_sim.Cache.Tier.{TierKind}
use kvflow_sim.Cache.Object.{CacheLocation}
use kvflow_sim.Cache.State.{CacheState, HashOrder, available_space}
use kvflow_sim.Cluster.Gpu.{GpuResource}
use kvflow_sim.Cluster.Node.{ServingNode}
use kvflow_sim.Cluster.Topology.{ClusterTopology, node}
use kvflow_sim.Policy.Placement.{PlaceRequest, Placed, EvictedKv, store_at}
use kvflow_sim.Policy.Evict.{evict_lru}

pub record LocalGpuLru : Type 0 where
  pub target_node : ℕ

-- `node.gpus.first().map(|g| g.gpu_id)`.
abbrev pub first_gpu_id : List GpuResource → Option ℕ
first_gpu_id [] = none
first_gpu_id (g ∷ _) = some g.gpu_id

abbrev pub first_gpu_of : Option ServingNode → Option ℕ
first_gpu_of none = none
first_gpu_of (some n) = first_gpu_id n.gpus

unfoldable pub find_gpu_with_space : ClusterTopology → CacheState → ℕ → ℕ → Option ℕ
find_gpu_with_space cluster c node_id bytes =
    if leb bytes (available_space c node_id TierKind.gpu)
    then first_gpu_of (node cluster node_id)
    else none

module _ (self : LocalGpuLru) (order : HashOrder) (cluster : ClusterTopology)
    (r : PlaceRequest) where
  open self use {target_node}

  -- The fallback: on the host, or nowhere.
  unfoldable pub fall_back : CacheState → List EvictedKv → Placed
  fall_back c evicted =
      if leb r.bytes (available_space c target_node TierKind.cpu)
      then store_at c r (CacheLocation.cpu target_node) evicted
      else (
        c,
        err (invalid_model_profile (text "LocalGpuLru: no space on GPU or CPU for KV object")),
      )

  -- Behind the eviction loop.
  unfoldable pub after_eviction : CacheState × List EvictedKv → Placed
  unfolding fall_back
  after_eviction (c, evicted) =
      if leb r.bytes (available_space c target_node TierKind.gpu)
      then (elim (find_gpu_with_space cluster c target_node r.bytes) [
        | some gpu_idx ↦ store_at c r (CacheLocation.gpu target_node gpu_idx) evicted
        | none ↦ fall_back c evicted
      ])
      else fall_back c evicted

  unfoldable pub place : CacheState → Placed
  unfolding after_eviction
  place c = elim (find_gpu_with_space cluster c target_node r.bytes) [
    | some gpu_idx ↦ store_at c r (CacheLocation.gpu target_node gpu_idx) []
    | none ↦ after_eviction (evict_lru order target_node TierKind.gpu r.bytes c [])
  ]
