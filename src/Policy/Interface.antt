-- ===== src/Policy/Interface.antt =====
-- The trait `PlacementPolicy` of src/policy/placement.rs, and the policies of src/policy as what it asks.
use kvflow_sim.Cluster.Topology.{ClusterTopology}
use kvflow_sim.Cache.State.{CacheState, HashOrder}
use kvflow_sim.Model.Compute.{ComputeModel}
use kvflow_sim.Transfer.Model.{TransferModel}
use kvflow_sim.Policy.Placement.{PlaceRequest, Placed}
use kvflow_sim.Policy.LocalGpuLru
use kvflow_sim.Policy.LocalGpuLru.{LocalGpuLru}
use kvflow_sim.Policy.CpuOffloadLru
use kvflow_sim.Policy.CpuOffloadLru.{CpuOffloadLru}
use kvflow_sim.Policy.Baselines.{RemoteLru, SizeAware, remote_lru, size_aware}
use kvflow_sim.Policy.NetworkAware
use kvflow_sim.Policy.NetworkAware.{NetworkAwarePlacement}

-- `place` takes itself, the cache and the transfer model by `&mut`: it returns them as it leaves them.
pub record PlacementPolicy (P M : Type 0) : Type 0 where
  pub place :
      P
      → M
      → TransferModel M
      → PlaceRequest
      → ClusterTopology
      → CacheState
      → ComputeModel
      → (P × M) × Placed

module _ {M : Type 0} (order : HashOrder) where
  abbrev pub local_gpu_lru : PlacementPolicy LocalGpuLru M
  local_gpu_lru = record {
    place =
        λ p m model r cluster cache compute. ((p, m), LocalGpuLru.place p order cluster r cache);
  }

  abbrev pub cpu_offload_lru : PlacementPolicy CpuOffloadLru M
  cpu_offload_lru = record {
    place =
        λ p m model r cluster cache compute. ((p, m), CpuOffloadLru.place p order cluster r cache);
  }

  abbrev pub remote : PlacementPolicy RemoteLru M
  remote = record {
    place = λ p m model r cluster cache compute. ((p, m), remote_lru p order r cache);
  }

  abbrev pub sized : PlacementPolicy SizeAware M
  sized = record {
    place = λ p m model r cluster cache compute. ((p, m), size_aware p order r cache);
  }

  abbrev pub network_aware : PlacementPolicy NetworkAwarePlacement M
  network_aware = record {
    place = λ p m model r cluster cache compute.
        ((p, m), NetworkAware.place p order cluster r compute (model.estimate_duration m) cache);
  }
