-- ===== src/Serving/CacheRunner/Initial.antt =====
-- The cache that `new` of src/serving/cache_runner.rs sets up.
use kvflow_sim.Base.{In, nat_eq, ◌∷◌, List, [], ◌≤◌, refl, inl, inr, u64_max}
use kvflow_sim.Cache.Tier.{TierKind}
use kvflow_sim.Cache.State.{CacheState, new}
use kvflow_sim.Cache.State.Sane.{
  IsUnused, new-IsUnused, set_capacity-IsUnused, IsUnused-IsSane, IsSane,
}
use kvflow_sim.Serving.CacheRunner.{
  CacheAwareRunner, CacheHitStats, hit_gpu, missed, fetch_failed, fetch_started, credited,
}
use kvflow_sim.Serving.CacheRunner
use kvflow_sim.Serving.CacheRunner.{clear_state, set_capacities}
use kvflow_sim.Cluster.Node.{ServingNode, total_hbm_bytes-word}
use kvflow_sim.Cluster.Topology.{ClusterTopology}
use kvflow_sim.Model.Compute.{ComputeModel}
use kvflow_sim.Model.Profile.{ModelProfile}
use kvflow_sim.Serving.Runner.{ServingConfig}

-- The sizes of a node are words.
abbrev pub IsSized : ServingNode → Type 0
IsSized node = (node.cpu_mem_bytes ≤ u64_max) × (node.local_ssd_bytes ≤ u64_max)

set_capacities-IsUnused :
    (nodes : List ServingNode) (c : CacheState)
    → ((node : ServingNode) → In node nodes → IsSized node)
    → IsUnused c
    → IsUnused (set_capacities c nodes)
set_capacities-IsUnused [] c sized h = h
set_capacities-IsUnused (node ∷ rest) c sized h =
    let (memory, disk) = sized node (inl refl) in
    set_capacities-IsUnused rest _ (λ x i. sized x (inr i))
      (set_capacity-IsUnused _ node.node_id TierKind.remote_ssd _ disk (
        set_capacity-IsUnused _ node.node_id TierKind.remote_memory _ memory (
          set_capacity-IsUnused _ node.node_id TierKind.local_ssd _ disk (
            set_capacity-IsUnused _ node.node_id TierKind.cpu _ memory (
              set_capacity-IsUnused _ node.node_id TierKind.gpu _ (total_hbm_bytes-word node) h)))))

-- The cache of a new runner is sound.
pub new-IsSane :
    {P T : Type 0} (config : ServingConfig) (cluster : ClusterTopology) (compute : ComputeModel)
    (transfer : T) (profile : ModelProfile) (placement : P)
    → ((node : ServingNode) → In node cluster.nodes → IsSized node)
    → IsSane 0 (CacheRunner.new config cluster compute transfer profile placement).cache
unfolding CacheRunner.new
new-IsSane config cluster compute transfer profile placement sized =
    IsUnused-IsSane _ (set_capacities-IsUnused cluster.nodes new sized new-IsUnused)
