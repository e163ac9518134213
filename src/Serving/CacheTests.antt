-- ===== src/Serving/CacheTests.antt =====
-- The cache of src/serving/cache_runner.rs through a run on a small cluster.
use kvflow_sim.Base.{◌*◌, ◌+◌, ◌≡◌, In, inl, inr, sym, subst, List, some, arith, length}
use kvflow_sim.Panic.{done}
use kvflow_sim.Cluster.Node.{ServingNode}
use kvflow_sim.Model.Compute.{linear, conservative_8b}
use kvflow_sim.Transfer.Analytical.{AnalyticalTransferModel, rdma_400g}
use kvflow_sim.Transfer.Model.{analytical}
use kvflow_sim.Cache.State.Sane.{IsSane}
use kvflow_sim.Policy.LocalGpuLru.{LocalGpuLru}
use kvflow_sim.Policy.Interface.{local_gpu_lru}
use kvflow_sim.Policy.Interface
use kvflow_sim.Policy.Contract.{IsLawful, policies-IsLawful, local_gpu_lru-IsLawful}
use kvflow_sim.Serving.Runner.{RequestResult}
use kvflow_sim.Serving.CacheRunner.{CacheAwareRunner}
use kvflow_sim.Serving.CacheRunner.Handlers.{run}
use kvflow_sim.Serving.CacheRunner.Initial.{IsSized, new-IsSane}
use kvflow_sim.Serving.Engine.Carried.{Answers}
use kvflow_sim.Serving.CacheRunner.Belongs.{cache_run-Answers}
use kvflow_sim.Serving.CacheRunner.Consistent.{IsSaneTo, cache_stays_sound}
use kvflow_sim.Serving.CacheRunner
use kvflow_sim.Serving.Fixtures.{one_gpu, config, session, in_order, profile, cached, fresh, once}

sized : (node : ServingNode) → In node one_gpu.nodes → IsSized node
sized node (inl e) = subst IsSized (sym e) (omega arith, omega arith)
sized node (inr x) = absurd x

local : CacheAwareRunner LocalGpuLru AnalyticalTransferModel
unfolding cached CacheRunner.new
local = cached (record { target_node = 0 })

local-IsSane : IsSane 0 local.cache
unfolding local cached
local-IsSane =
    new-IsSane {P = LocalGpuLru} config one_gpu (linear conservative_8b) rdma_400g profile
      (record { target_node = 0 }) sized

cache_stays_sound_example :
    (s : CacheAwareRunner LocalGpuLru AnalyticalTransferModel) × (results : List RequestResult)
    × (run analytical (local_gpu_lru in_order) local session ≡ done (some (s, results)))
    × IsSaneTo (0 + 6 * length session) s.cache
unfolding local cached CacheRunner.new
cache_stays_sound_example =
    cache_stays_sound analytical (local_gpu_lru in_order) (local_gpu_lru-IsLawful in_order) local
      session 0 fresh once local-IsSane (omega arith)

cache_run-Answers_example :
    (s : CacheAwareRunner LocalGpuLru AnalyticalTransferModel) × (results : List RequestResult)
    × (run analytical (local_gpu_lru in_order) local session ≡ done (some (s, results)))
    × ((r : RequestResult) → In r results → Answers session r)
unfolding local cached CacheRunner.new
cache_run-Answers_example =
    cache_run-Answers analytical (local_gpu_lru in_order) local session fresh once (omega arith)

policies-IsLawful_example :
    IsLawful {M = AnalyticalTransferModel} (local_gpu_lru in_order)
    × IsLawful {M = AnalyticalTransferModel} (Interface.cpu_offload_lru in_order)
    × IsLawful {M = AnalyticalTransferModel} (Interface.remote in_order)
    × IsLawful {M = AnalyticalTransferModel} (Interface.sized in_order)
    × IsLawful {M = AnalyticalTransferModel} (Interface.network_aware in_order)
policies-IsLawful_example = policies-IsLawful in_order
