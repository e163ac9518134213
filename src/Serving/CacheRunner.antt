-- ===== src/Serving/CacheRunner.antt =====
-- src/serving/cache_runner.rs: the state of `CacheAwareRunner`, and its counters. The plain additions
-- wrap, as in a release build.
pub mod Parts
pub mod Handlers
pub mod Tally
pub mod Counters
pub mod Steps
pub mod Arrival
pub mod Storing
pub mod Events
pub mod Cached
pub mod Initial
pub mod Consistent
pub mod Kept
pub mod Belongs
pub mod Complete
use kvflow_sim.Base.{ℕ, ◌-◌, List, [], ◌∷◌, Option, none, some, wrap_add, sat_add}
use kvflow_sim.Core.Simulator
use kvflow_sim.Cluster.Node.{ServingNode, total_hbm_bytes}
use kvflow_sim.Cluster.Topology.{ClusterTopology}
use kvflow_sim.Cache.Tier.{TierKind}
use kvflow_sim.Cache.State
use kvflow_sim.Cache.State.{CacheState, set_capacity}
use kvflow_sim.Model.Compute.{ComputeModel}
use kvflow_sim.Model.Profile.{ModelProfile}
use kvflow_sim.Policy.Placement.{EvictedKv}
use kvflow_sim.Serving.Runner.{ServingConfig}
use kvflow_sim.Serving.Engine
use kvflow_sim.Serving.Engine.{Engine, at_least_one}

pub record CacheHitStats : Type 0 where
  pub hits_gpu : ℕ
  pub hits_cpu : ℕ
  pub hits_remote : ℕ
  pub misses : ℕ
  pub fetch_errors : ℕ
  pub placement_errors : ℕ
  pub pending_fetches : ℕ

-- `CacheHitStats::default()`.
abbrev pub no_hits : CacheHitStats
no_hits = record {
  hits_gpu = 0;
  hits_cpu = 0;
  hits_remote = 0;
  misses = 0;
  fetch_errors = 0;
  placement_errors = 0;
  pending_fetches = 0;
}

-- The fields that `EventDrivenRunner` has as well are the engine.
pub record CacheAwareRunner (P T : Type 0) : Type 0 where
  pub engine : Engine
  pub transfer : T
  pub profile : ModelProfile
  pub cache : CacheState
  pub placement : P
  pub hits : CacheHitStats
  pub evicted_bytes : ℕ
  pub recomputed_tokens : ℕ
  pub fetched_bytes : ℕ

-- The loop of `new` over the nodes.
abbrev pub set_capacities : CacheState → List ServingNode → CacheState
set_capacities c [] = c
set_capacities c (node ∷ rest) =
    let c1 = set_capacity c node.node_id TierKind.gpu (total_hbm_bytes node) in
    let c2 = set_capacity c1 node.node_id TierKind.cpu node.cpu_mem_bytes in
    let c3 = set_capacity c2 node.node_id TierKind.local_ssd node.local_ssd_bytes in
    let c4 = set_capacity c3 node.node_id TierKind.remote_memory node.cpu_mem_bytes in
    set_capacities (set_capacity c4 node.node_id TierKind.remote_ssd node.local_ssd_bytes) rest

unfoldable pub new :
    {P T : Type 0}
    → ServingConfig
    → ClusterTopology
    → ComputeModel
    → T
    → ModelProfile
    → P
    → CacheAwareRunner P T
unfolding set_capacity
new config cluster compute transfer profile placement = record {
  engine = record {
    sim = Simulator.new;
    cluster = cluster;
    compute = compute;
    config = at_least_one config;
    in_flight = [];
    prefill_queue = [];
    decode_queue = [];
    results = [];
  };
  transfer = transfer;
  profile = profile;
  cache = set_capacities State.new cluster.nodes;
  placement = placement;
  hits = no_hits;
  evicted_bytes = 0;
  recomputed_tokens = 0;
  fetched_bytes = 0;
}

-- The cache stays as the last run left it, and so do the policy and the transfer model.
unfoldable pub clear_state : {P T : Type 0} → CacheAwareRunner P T → CacheAwareRunner P T
clear_state s = record s {
  engine = Engine.clear_state s.engine;
  hits = no_hits;
  evicted_bytes = 0;
  recomputed_tokens = 0;
  fetched_bytes = 0;
}

abbrev pub hit_gpu : CacheHitStats → CacheHitStats
hit_gpu h = record h { hits_gpu = wrap_add h.hits_gpu 1 }

abbrev pub missed : CacheHitStats → CacheHitStats
missed h = record h { misses = wrap_add h.misses 1 }

abbrev pub fetch_failed : CacheHitStats → CacheHitStats
fetch_failed h = record h { fetch_errors = wrap_add h.fetch_errors 1 }

abbrev pub placement_failed : CacheHitStats → CacheHitStats
placement_failed h = record h { placement_errors = wrap_add h.placement_errors 1 }

abbrev pub fetch_started : CacheHitStats → CacheHitStats
fetch_started h = record h { pending_fetches = wrap_add h.pending_fetches 1 }

abbrev pub fetch_over : CacheHitStats → CacheHitStats
fetch_over h = record h { pending_fetches = h.pending_fetches - 1 }

-- The tier is the one that `on_arrival` has stashed.
abbrev pub credited : Option TierKind → CacheHitStats → CacheHitStats
credited none h = h
credited (some TierKind.cpu) h = record (fetch_over h) { hits_cpu = wrap_add h.hits_cpu 1 }
credited (some TierKind.remote_memory) h = record (fetch_over h) {
  hits_remote = wrap_add h.hits_remote 1;
}
credited (some TierKind.remote_ssd) h = record (fetch_over h) {
  hits_remote = wrap_add h.hits_remote 1;
}
credited (some _) h = fetch_over h

abbrev pub add_evicted : ℕ → List EvictedKv → ℕ
add_evicted evicted_bytes [] = evicted_bytes
add_evicted evicted_bytes (evicted ∷ rest) = add_evicted (sat_add evicted_bytes evicted.bytes) rest
