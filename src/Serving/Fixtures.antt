-- ===== src/Serving/Fixtures.antt =====
-- A small cluster, a session of three turns and runners of src/serving, for the tests.
use kvflow_sim.Base.{
  ℕ, nat_eq, ◌≡◌, ◌≤◌, refl, zero, suc, List, [], ◌∷◌, none, some, arith, get_elem?,
}
use kvflow_sim.Base.Map
use kvflow_sim.Base.Select
use kvflow_sim.Base.Sort
use kvflow_sim.Base.Sort.{sort, Sorted}
use kvflow_sim.Core.Event
use kvflow_sim.Core.Simulator
use kvflow_sim.Cluster.Topology
use kvflow_sim.Cluster.Node
use kvflow_sim.Serving.Drive
use kvflow_sim.Serving.Engine
use kvflow_sim.Cluster.Gpu.{GpuResource, WorkerRole}
use kvflow_sim.Cluster.Node.{ServingNode}
use kvflow_sim.Cluster.Topology.{ClusterTopology, gpu_at, find_idle_gpu_for}
use kvflow_sim.Cluster.Busy.{gpu_at-In}
use kvflow_sim.Model.Compute.{prefill_time_ns, decode_step_time_ns, linear, conservative_8b}
use kvflow_sim.Trace.Request.{LlmRequest, reused_prefix_tokens}
use kvflow_sim.Policy.LocalGpuLru
use kvflow_sim.Policy.Baselines
use kvflow_sim.Policy.Placement
use kvflow_sim.Policy.Evict
use kvflow_sim.Cache.State
use kvflow_sim.Transfer.Analytical
use kvflow_sim.Transfer.Path
use kvflow_sim.Serving.Runner.{ServingConfig}
use kvflow_sim.Serving.Engine.{sooner, load, clear_state, Engine}
use kvflow_sim.Core.Simulator.{Simulator}
use kvflow_sim.Serving.Engine.Load.{Fresh, asked}
use kvflow_sim.Serving.Scheduler.{new, run}
use kvflow_sim.Cache.State.{HashOrder}
use kvflow_sim.Model.Profile.{ModelProfile, kv_bytes}
use kvflow_sim.Transfer.Analytical.{AnalyticalTransferModel, rdma_400g}
use kvflow_sim.Policy.Baselines.{RemoteLru}
use kvflow_sim.Serving.CacheRunner
use kvflow_sim.Serving.CacheRunner.Handlers
use kvflow_sim.Serving.CacheRunner.{CacheAwareRunner, CacheHitStats, no_hits}

unfoldable pub program : Unit {0}
unfolding new run linear conservative_8b CacheRunner.new CacheRunner.Handlers.run
    CacheRunner.clear_state rdma_400g Drive.drive Simulator.step Simulator.schedule Simulator.new
    Event.pop Event.schedule Event.new Event.split_max Event.is_less sort Sort.insert Engine.load
    Engine.clear_state Engine.prefill_or_queue Engine.decode_or_queue Engine.prefill_if_there
    Engine.decode_if_there Engine.start_prefill Engine.start_decode Engine.try_assign_prefill
    Engine.try_assign_decode Engine.assign_prefill Engine.assign_decode Engine.release
    Engine.finalize Engine.on_decode_done Topology.find_idle_gpu_for Topology.set_busy
    Topology.set_busy_in Topology.offers Topology.with_keys Node.find_idle_gpu_for
    Node.total_hbm_bytes Map.get Map.insert Map.erase Select.enumerate_from prefill_time_ns
    decode_step_time_ns CacheRunner.Handlers.handle_event CacheRunner.Handlers.store_kv
    reused_prefix_tokens kv_bytes LocalGpuLru.place LocalGpuLru.find_gpu_with_space
    Baselines.remote_lru Placement.store_at Evict.evict_lru State.available_space State.alloc_kv_id
    State.new State.insert State.update_access Analytical.estimate Path.serialization_ns
program = tt

abbrev pub gpu : WorkerRole → GpuResource
gpu role = record { gpu_id = 0; hbm_bytes = 80_000_000_000; busy_until_ns = 0; role = role }

abbrev pub one_gpu : ClusterTopology
one_gpu = record {
  nodes =
      record {
        node_id = 0;
        rack_id = 0;
        gpus = gpu WorkerRole.unified ∷ [];
        nics = 1;
        cpu_mem_bytes = 512_000_000_000;
        local_ssd_bytes = 2_000_000_000_000;
        nic_busy_until_ns = 0;
      }
      ∷ [];
}

abbrev pub config : ServingConfig
config = record { prefill_workers = 1; decode_workers = 1; decode_batch_size = 1 }

abbrev pub request : ℕ → ℕ → LlmRequest
request id at = record {
  request_id = id;
  session_id = 1;
  turn_id = 0;
  arrival_ns = at;
  prompt_tokens = 1024;
  new_prompt_tokens = 1024;
  output_tokens = 4;
  model_id = "llama-8b";
  slo_ttft_ns = none;
  slo_tbt_ns = none;
}

unfoldable pub runner : Engine
unfolding program
runner = new config one_gpu (linear conservative_8b)

-- Three turns of a session, the second and the third on what the one before has left in the cache.
abbrev pub turn : ℕ → ℕ → ℕ → ℕ → LlmRequest
turn id at prompt new_prompt = record (request id at) {
  turn_id = id;
  prompt_tokens = prompt;
  new_prompt_tokens = new_prompt;
}

abbrev pub session : List LlmRequest
session = turn 0 0 1024 1024 ∷ turn 1 20_000_000 1280 256 ∷ turn 2 40_000_000 1536 256 ∷ []

unfoldable pub in_order : HashOrder
in_order = record { visit = λ l. l; visit-In = λ o l. (λ h. h, λ h. h) }

unfoldable pub profile : ModelProfile
profile = record {
  model_id = "m";
  num_layers = 32;
  num_kv_heads = 8;
  head_dim = 128;
  bytes_per_elem = 2;
  max_context_tokens = 131_072;
}

unfoldable pub cached : {P : Type 0} → P → CacheAwareRunner P AnalyticalTransferModel
unfolding program
cached placement =
    CacheRunner.new config one_gpu (linear conservative_8b) rdma_400g profile placement

pub fresh : Fresh one_gpu
fresh = record {
  distinct = (λ m i. absurd i, tt);
  prefills = (0, 0, gpu WorkerRole.unified, refl, refl);
  decodes = (0, 0, gpu WorkerRole.unified, refl, refl);
  idle = λ n i g at.
      let (k, _, there, got) = gpu_at-In one_gpu.nodes n i g at in
      ground (arith, there, got, only i g);
}
  where
    only :
        (i : ℕ) (g : GpuResource)
        → get_elem? (gpu WorkerRole.unified ∷ []) i ≡ some g
        → g.busy_until_ns ≡ 0
    only zero g h = ground (arith, h)
    only (suc i) g h = cc

pub once : (k : ℕ) → asked k session ≤ 1
once k = ground arith
