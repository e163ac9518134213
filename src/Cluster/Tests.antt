-- ===== src/Cluster/Tests.antt =====
-- Runs of src/cluster on small inputs, among them the source's own test, and the theorems there.
use kvflow_sim.Base.{ℕ, ◌≡◌, refl, ap, ◌≢◌, ◌⊎◌, [], ◌∷◌, Option, some, arith, inl, inr}
use kvflow_sim.Panic.{done, panic}
use kvflow_sim.Cluster.Gpu
use kvflow_sim.Cluster.Gpu.{GpuResource, WorkerRole}
use kvflow_sim.Cluster.Node
use kvflow_sim.Cluster.Node.{ServingNode}
use kvflow_sim.Cluster.Topology.{ClusterTopology, earliest_gpu_for, find_idle_gpu_for, set_busy}
use kvflow_sim.Cluster.Earliest.{IsEarliest, earliest_gpu_for-IsEarliest}
use kvflow_sim.Cluster.Idle.{DistinctIds, Finds, find_idle_gpu_for-Finds}

program : Unit {0}
unfolding Gpu.new Node.new Node.earliest_gpu_for Node.find_idle_gpu_for earliest_gpu_for
    find_idle_gpu_for set_busy
program = tt

node_of : ℕ → ServingNode
unfolding program
node_of id =
    Node.new id 0 (Gpu.new 0 80 WorkerRole.prefill ∷ Gpu.new 1 80 WorkerRole.decode ∷ []) 1 1000
      1000

cluster : ClusterTopology
cluster = record { nodes = node_of 0 ∷ node_of 5 ∷ [] }

earliest_gpu_selects_idle_one :
    (earliest_gpu_for cluster 0 WorkerRole.prefill ≡ some (0, 0, 0))
    × (earliest_gpu_for cluster 0 WorkerRole.decode ≡ some (0, 1, 0))
unfolding program cluster node_of
earliest_gpu_selects_idle_one = (refl, refl)

earliest_gpu_for-IsEarliest_example :
    IsEarliest cluster.nodes 7 WorkerRole.decode (earliest_gpu_for cluster 7 WorkerRole.decode)
earliest_gpu_for-IsEarliest_example = earliest_gpu_for-IsEarliest cluster 7 WorkerRole.decode

-- Two nodes of one id, of which the second has more GPUs: the search indexes the first.
twins : ClusterTopology
twins = record { nodes = record (node_of 0) { gpus = [] } ∷ node_of 0 ∷ [] }

twins_panic : find_idle_gpu_for twins 0 WorkerRole.decode ≡ panic
unfolding program twins node_of
twins_panic = refl

other : (m : ServingNode) → (m ≡ node_of 5) ⊎ ⊥ → 0 ≢ m.node_id
unfolding program node_of
other m (inl e) = ground (arith, ap (λ (x : ServingNode). x.node_id) e)
other m (inr n) = absurd n

cluster-DistinctIds : DistinctIds cluster.nodes
unfolding program cluster node_of
cluster-DistinctIds = ((λ m i. other m i), ((λ m i. absurd i), tt))

find_idle_gpu_for-Finds_example :
    (r : Option (ℕ × ℕ)) × (find_idle_gpu_for cluster 3 WorkerRole.decode ≡ done r)
    × Finds cluster 3 WorkerRole.decode r
find_idle_gpu_for-Finds_example =
    find_idle_gpu_for-Finds cluster 3 WorkerRole.decode cluster-DistinctIds
