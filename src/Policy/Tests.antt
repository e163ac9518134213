-- ===== src/Policy/Tests.antt =====
-- Runs of the policies of src/policy on small caches, and states that meet the theorems' conditions.
use kvflow_sim.Base.{ℕ, ◌≤◌, ◌≡◌, refl, true, map, inl, List, [], ◌∷◌, arith}
use kvflow_sim.Base.Map
use kvflow_sim.Error.{Result, ok}
use kvflow_sim.Cache.Tier.{TierKind, pool_key}
use kvflow_sim.Cache.Object.{CacheLocation, KvObject}
use kvflow_sim.Cache.State.{
  CacheState, HashOrder, new, set_capacity, usage, capacity, available_space, insert, remove,
  objects_in_tier,
}
use kvflow_sim.Cache.State.Accounting.{IsAccounted, IsWithin}
use kvflow_sim.Cache.State.Invariant.{insert-IsAccounted, insert-IsWithin}
use kvflow_sim.Cluster.Gpu
use kvflow_sim.Cluster.Gpu.{WorkerRole}
use kvflow_sim.Cluster.Node
use kvflow_sim.Cluster.Topology.{ClusterTopology}
use kvflow_sim.Model.Compute.{ComputeModel, linear, conservative_8b}
use kvflow_sim.Transfer.Path.{TransferPath, serialization_ns}
use kvflow_sim.Base.Int.{ltb_ℤ}
use kvflow_sim.Transfer.Analytical
use kvflow_sim.Policy.Placement.{EvictedKv, PlaceRequest, store_at}
use kvflow_sim.Policy.Evict.{evict_lru}
use kvflow_sim.Policy.LocalGpuLru
use kvflow_sim.Policy.CpuOffloadLru
use kvflow_sim.Policy.Baselines.{remote_lru, size_aware, SizeAware}
use kvflow_sim.Policy.NetworkAware
use kvflow_sim.Policy.Lru.{Ran, evict_lru-Ran}
use kvflow_sim.Policy.Room.{IsReady, evict_lru-room}
use kvflow_sim.Policy.NetworkAware.{NetworkAwarePlacement, scored, utility_for_tier}
use kvflow_sim.Policy.LocalGpuLru.{LocalGpuLru}
use kvflow_sim.Policy.CpuOffloadLru.{CpuOffloadLru}
use kvflow_sim.Policy.Best.{Best, place-Best}
use kvflow_sim.Policy.Offload.{Lands, cpu_offload-Lands, local_gpu-Lands}
use kvflow_sim.Policy.Utility.{nearest_first, unusable_outscores}

program : Unit {0}
unfolding new set_capacity usage capacity available_space insert remove objects_in_tier Map.get
    Map.insert Map.erase Gpu.new Node.new linear conservative_8b serialization_ns
    Analytical.rdma_400g Analytical.estimate_duration store_at evict_lru LocalGpuLru.place
    CpuOffloadLru.place NetworkAware.place remote_lru size_aware
program = tt

-- The hash map is visited in the order of its list.
in_order : HashOrder
in_order = record { visit = λ l. l; visit-In = λ o l. (λ h. h, λ h. h) }

abbrev object : ℕ → ℕ → ℕ → KvObject
object id bytes used = record {
  kv_id = id;
  session_id = id;
  model_id = "";
  prefix_tokens = 1024;
  bytes = bytes;
  location = CacheLocation.gpu 0 0;
  last_access_ns = used;
  ref_count = 0;
}

empty : CacheState
unfolding program
empty =
    set_capacity (set_capacity (set_capacity new 0 TierKind.gpu 1000) 0 TierKind.cpu 2000) 0
      TierKind.remote_memory 300

one : CacheState
unfolding program
one = (insert empty (object 0 500 200)).0

-- The second object was used before the first.
two : CacheState
unfolding program
two = (insert one (object 1 400 100)).0

abbrev request : ℕ → PlaceRequest
request bytes = record {
  kv_id = 9;
  session_id = 9;
  prefix_tokens = 1024;
  bytes = bytes;
  now_ns = 300;
}

cluster : ClusterTopology
unfolding program
cluster = record { nodes = Node.new 0 0 (Gpu.new 0 1000 WorkerRole.unified ∷ []) 1 2000 1000 ∷ [] }

evicted_one : List EvictedKv
evicted_one = record { kv_id = 1; bytes = 400 } ∷ []

gpu_evicts_the_least_recently_used :
    (LocalGpuLru.place (record { target_node = 0 }) in_order cluster (request 300) two).1
    ≡ ok (CacheLocation.gpu 0 0, evicted_one)
unfolding program two one empty cluster in_order evicted_one LocalGpuLru.find_gpu_with_space
gpu_evicts_the_least_recently_used = refl

oversized_object_goes_to_the_host :
    (CpuOffloadLru.place (record { target_node = 0 }) in_order cluster (request 1500) one).1
    ≡ ok (CacheLocation.cpu 0, record { kv_id = 0; bytes = 500 } ∷ [])
unfolding program one empty cluster in_order CpuOffloadLru.try_place_in_tier
oversized_object_goes_to_the_host = refl

prefers_gpu_when_gpu_has_space :
    (NetworkAware.place
      (record { target_node = 0 })
      in_order
      cluster
      (request 100)
      (linear conservative_8b)
      (Analytical.estimate_duration Analytical.rdma_400g)
      two).1
    ≡ ok (CacheLocation.gpu 0 0, [])
unfolding program two one empty cluster in_order
prefers_gpu_when_gpu_has_space = refl

-- No tier is emptied for an object that it could never hold.
offloads_when_gpu_is_too_small :
    (NetworkAware.place
      (record { target_node = 0 })
      in_order
      cluster
      (request 1500)
      (linear conservative_8b)
      (Analytical.estimate_duration Analytical.rdma_400g)
      two).1
    ≡ ok (CacheLocation.cpu 0, [])
unfolding program two one empty cluster in_order
offloads_when_gpu_is_too_small = refl

empty-IsAccounted : IsAccounted empty
unfolding program empty
empty-IsAccounted = record {
  distinct = tt;
  keyed = λ k o h. cc;
  exact = λ n t. ground arith;
  capacity_words = λ n t. ground arith;
  usage_words = λ n t. ground arith;
}

empty-IsWithin : IsWithin empty
unfolding program empty
empty-IsWithin n t = ground arith

one-IsAccounted : IsAccounted one
unfolding one
one-IsAccounted =
    insert-IsAccounted empty (object 0 500 200) empty-IsAccounted empty-IsWithin
      (unfold program empty in refl)

one-IsWithin : IsWithin one
unfolding one
one-IsWithin = insert-IsWithin empty (object 0 500 200) empty-IsAccounted empty-IsWithin

two-IsReady : IsReady 9 two
unfolding two
two-IsReady = record {
  accounted =
      insert-IsAccounted one (object 1 400 100) one-IsAccounted one-IsWithin
        (unfold program one empty in refl);
  within = insert-IsWithin one (object 1 400 100) one-IsAccounted one-IsWithin;
  fresh = unfold program one empty in refl;
}

evict_lru-Ran_example : Ran 0 TierKind.gpu 300 two [] (evict_lru in_order 0 TierKind.gpu 300 two [])
evict_lru-Ran_example = evict_lru-Ran in_order 0 TierKind.gpu 300 two [] two-IsReady.accounted

evict_lru-room_example :
    300 ≤ available_space (evict_lru in_order 0 TierKind.gpu 300 two []).0 0 TierKind.gpu
evict_lru-room_example =
    evict_lru-room in_order 0 TierKind.gpu 300 9 two [] two-IsReady
      (unfold program two one empty in omega arith)

ran : Ran 0 TierKind.gpu 300 two [] (evict_lru in_order 0 TierKind.gpu 300 two [])
ran = evict_lru-Ran in_order 0 TierKind.gpu 300 two [] two-IsReady.accounted

abbrev small_on_gpu : SizeAware
small_on_gpu = record { target_node = 0; gpu_threshold_bytes = 1000 }

abbrev adaptive : NetworkAwarePlacement
adaptive = record { target_node = 0 }

model : ComputeModel
unfolding program
model = linear conservative_8b

durations : TransferPath → ℕ → Result ℕ
durations = Analytical.estimate_duration Analytical.rdma_400g

place-Best_example :
    Best adaptive in_order cluster
      (request 300)
      model
      durations
      two
      (NetworkAware.place adaptive in_order cluster (request 300) model durations two)
place-Best_example =
    place-Best adaptive in_order cluster (request 300) model durations two two-IsReady

abbrev offload : CpuOffloadLru
offload = record { target_node = 0 }

cpu_offload-Lands_example :
    Lands 0 (request 1500) (CpuOffloadLru.place offload in_order cluster (request 1500) two)
cpu_offload-Lands_example =
    cpu_offload-Lands offload in_order cluster (request 1500) two two-IsReady
      (unfold program two one empty in omega arith)

abbrev local : LocalGpuLru
local = record { target_node = 0 }

local_gpu-Lands_example :
    Lands 0 (request 300) (LocalGpuLru.place local in_order cluster (request 300) two)
local_gpu-Lands_example =
    local_gpu-Lands local in_order cluster (request 300) two two-IsReady
      (unfold program cluster two one empty in inl ((0, refl), omega arith))

-- A remote memory without bandwidth: its transfers have no estimate.
unplugged : TransferPath → ℕ → Result ℕ
unplugged = Analytical.estimate_duration (record Analytical.rdma_400g { remote_memory_bps = 0 })

nearest_first_example :
    (ltb_ℤ
        (utility_for_tier TierKind.cpu 134_217_728 1024 model durations)
        (utility_for_tier TierKind.gpu 134_217_728 1024 model durations)
      ≡ true)
    × (ltb_ℤ
          (utility_for_tier TierKind.remote_memory 134_217_728 1024 model durations)
          (utility_for_tier TierKind.cpu 134_217_728 1024 model durations)
        ≡ true)
    × (ltb_ℤ
          (utility_for_tier TierKind.remote_ssd 134_217_728 1024 model durations)
          (utility_for_tier TierKind.remote_memory 134_217_728 1024 model durations)
        ≡ true)
    × (map (λ e. e.0) (scored 134_217_728 1024 model durations)
        ≡ TierKind.gpu ∷ TierKind.cpu ∷ TierKind.remote_memory ∷ TierKind.remote_ssd ∷ [])
nearest_first_example =
    nearest_first model durations 134_217_728 1024 5_370_709 2_692_354 16_857_216
      (unfold program model in omega arith) (omega arith) (omega arith)
      (unfold program durations in refl) (unfold program durations in refl)
      (unfold program durations in refl) (omega arith) (omega arith) (omega arith) (omega arith)
      (omega arith)

-- The keys and values of 1024 tokens of Llama 8B.
unusable_outscores_example :
    ltb_ℤ
      (utility_for_tier TierKind.gpu 134_217_728 1024 model unplugged)
      (utility_for_tier TierKind.remote_memory 134_217_728 1024 model unplugged)
    ≡ true
unusable_outscores_example =
    unusable_outscores model unplugged 134_217_728 1024 TierKind.remote_memory TierKind.gpu
      (unfold program model in omega arith) (omega arith) (unfold program unplugged in refl)
      (unfold program model in omega arith) (omega arith)
