-- ===== src/Cluster/Topology.antt =====
-- src/cluster/topology.rs.
use kvflow_sim.Base.{
  ℕ, Bool, List, [], ◌∷◌, Option, none, some, if◌then◌else◌, ltb, ◌==◌, nat_eq, length, sum_by,
  get_elem?, set,
}
use kvflow_sim.Base.Select.{min_by_key}
use kvflow_sim.Panic.{Outcome, done, ◌>>=◌, unwrap}
use kvflow_sim.Cluster.Gpu.{GpuResource, WorkerRole}
use kvflow_sim.Cluster.Node
use kvflow_sim.Cluster.Node.{ServingNode, first}

pub record ClusterTopology : Type 0 where
  pub nodes : List ServingNode

unfoldable pub node_count : ClusterTopology → ℕ
node_count c = length c.nodes

unfoldable pub gpu_count : ClusterTopology → ℕ
gpu_count c = sum_by (λ (n : ServingNode). length n.gpus) c.nodes

-- Whether a start time beats the best found so far.
abbrev pub beats : ℕ → Option (ℕ × ℕ × ℕ) → Bool
beats start none = Bool.true
beats start (some (_, _, best_start)) = ltb start best_start

-- The loop of `earliest_gpu_for`.
abbrev pub improve : ServingNode → Option (ℕ × ℕ) → Option (ℕ × ℕ × ℕ) → Option (ℕ × ℕ × ℕ)
improve node none best = best
improve node (some (gpu_idx, start)) best =
    if beats start best then some (node.node_id, gpu_idx, start) else best

unfoldable pub scan : ℕ → WorkerRole → Option (ℕ × ℕ × ℕ) → List ServingNode → Option (ℕ × ℕ × ℕ)
scan now_ns role best [] = best
scan now_ns role best (node ∷ l) =
    scan now_ns role (improve node (Node.earliest_gpu_for node now_ns role) best) l

unfoldable pub earliest_gpu_for : ClusterTopology → ℕ → WorkerRole → Option (ℕ × ℕ × ℕ)
unfolding scan
earliest_gpu_for c now_ns role = scan now_ns role none c.nodes

-- The first node with an id.
abbrev pub find_node : ℕ → List ServingNode → Option ServingNode
find_node node_id [] = none
find_node node_id (n ∷ l) = if n.node_id == node_id then some n else find_node node_id l

abbrev pub node : ClusterTopology → ℕ → Option ServingNode
node c node_id = find_node node_id c.nodes

-- A node's id with the index of one of its GPUs, where it has one to offer.
abbrev pub offer : ServingNode → Option ℕ → List (ℕ × ℕ) → List (ℕ × ℕ)
offer node none rest = rest
offer node (some gpu_idx) rest = (node.node_id, gpu_idx) ∷ rest

unfoldable pub offers : ℕ → WorkerRole → List ServingNode → List (ℕ × ℕ)
offers now_ns role [] = []
offers now_ns role (n ∷ l) = offer n (Node.find_idle_gpu_for n now_ns role) (offers now_ns role l)

-- `self.node(node_id).unwrap().gpus[gpu_idx]`.
abbrev pub gpu_at : ClusterTopology → ℕ → ℕ → Outcome GpuResource
gpu_at c node_id gpu_idx = do n ← unwrap (node c node_id); unwrap (get_elem? n.gpus gpu_idx)

-- The key of `min_by_key`, taken of every candidate before any two are compared.
unfoldable pub with_keys : ClusterTopology → List (ℕ × ℕ) → Outcome (List (ℕ × (ℕ × ℕ)))
with_keys c [] = done []
with_keys c (o ∷ l) = do
  g ← gpu_at c o.0 o.1
  rest ← with_keys c l
  done ((g.busy_until_ns, o) ∷ rest)

abbrev pub second {ℓ κ} : {A : Type ℓ} {B : Type κ} → Option (A × B) → Option B
second none = none
second (some e) = some e.1

unfoldable pub find_idle_gpu_for : ClusterTopology → ℕ → WorkerRole → Outcome (Option (ℕ × ℕ))
unfolding offers with_keys
find_idle_gpu_for c now_ns role = do
  keyed ← with_keys c (offers now_ns role c.nodes)
  done (second (min_by_key (λ e. e.0) keyed))

-- `if let Some(node) = cluster.node_mut(node_id) { node.gpus[gpu_idx].busy_until_ns = until_ns; }`,
-- the one way in which the runners write to the cluster.
abbrev pub with_busy : ServingNode → ℕ → GpuResource → ℕ → ServingNode
with_busy n gpu_idx g until_ns = record n {
  gpus = set n.gpus gpu_idx (record g { busy_until_ns = until_ns });
}

unfoldable pub set_busy_in : List ServingNode → ℕ → ℕ → ℕ → Outcome (List ServingNode)
set_busy_in [] node_id gpu_idx until_ns = done []
set_busy_in (n ∷ l) node_id gpu_idx until_ns =
    if n.node_id == node_id
    then (do g ← unwrap (get_elem? n.gpus gpu_idx); done (with_busy n gpu_idx g until_ns ∷ l))
    else (do rest ← set_busy_in l node_id gpu_idx until_ns; done (n ∷ rest))

unfoldable pub set_busy : ClusterTopology → ℕ → ℕ → ℕ → Outcome ClusterTopology
unfolding set_busy_in
set_busy c node_id gpu_idx until_ns = do
  nodes ← set_busy_in c.nodes node_id gpu_idx until_ns
  done (record { nodes = nodes })
