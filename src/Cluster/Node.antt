-- ===== src/Cluster/Node.antt =====
-- src/cluster/node.rs.
use kvflow_sim.Base.{
  ◌≤◌, arith, u64_max, ℕ, Bool, ◌&&◌, ◌||◌, List, [], ◌∷◌, map, Option, none, some, max, wrap_add,
  keep,
}
use kvflow_sim.Base.Select.{enumerate_from, min_by_key}
use kvflow_sim.Cluster.Gpu.{GpuResource, WorkerRole, role_beq, is_idle_at}

pub record ServingNode : Type 0 where
  pub node_id : ℕ
  pub rack_id : ℕ
  pub gpus : List GpuResource
  pub nics : ℕ
  pub cpu_mem_bytes : ℕ
  pub local_ssd_bytes : ℕ
  pub nic_busy_until_ns : ℕ

unfoldable pub new : ℕ → ℕ → List GpuResource → ℕ → ℕ → ℕ → ServingNode
new node_id rack_id gpus nics cpu_mem_bytes local_ssd_bytes = record {
  node_id = node_id;
  rack_id = rack_id;
  gpus = gpus;
  nics = max nics 1;
  cpu_mem_bytes = cpu_mem_bytes;
  local_ssd_bytes = local_ssd_bytes;
  nic_busy_until_ns = 0;
}

-- `g.role == role || g.role == WorkerRole::Unified`.
abbrev pub serves : WorkerRole → GpuResource → Bool
serves role g = role_beq g.role role || role_beq g.role WorkerRole.unified

unfoldable pub earliest_gpu_for : ServingNode → ℕ → WorkerRole → Option (ℕ × ℕ)
unfolding enumerate_from
earliest_gpu_for node now_ns role =
    min_by_key (λ e. e.1)
      (map (λ e. (e.0, max (e.1).busy_until_ns now_ns))
        (keep (λ e. serves role e.1) (enumerate_from 0 node.gpus)))

abbrev pub first {ℓ κ} : {A : Type ℓ} {B : Type κ} → Option (A × B) → Option A
first none = none
first (some e) = some e.0

-- Idle at `now_ns` and of the right role.
abbrev pub available : ℕ → WorkerRole → GpuResource → Bool
available now_ns role g = is_idle_at g now_ns && serves role g

unfoldable pub find_idle_gpu_for : ServingNode → ℕ → WorkerRole → Option ℕ
unfolding enumerate_from
find_idle_gpu_for node now_ns role = first (
    min_by_key (λ e. (e.1).busy_until_ns)
      (keep (λ e. available now_ns role e.1) (enumerate_from 0 node.gpus)))

sum_hbm : ℕ → List GpuResource → ℕ
sum_hbm acc [] = acc
sum_hbm acc (g ∷ l) = sum_hbm (wrap_add acc g.hbm_bytes) l

unfoldable pub total_hbm_bytes : ServingNode → ℕ
unfolding sum_hbm
total_hbm_bytes node = sum_hbm 0 node.gpus

sum_hbm-word : (acc : ℕ) (l : List GpuResource) → acc ≤ u64_max → sum_hbm acc l ≤ u64_max
unfolding sum_hbm
sum_hbm-word acc [] h = h
sum_hbm-word acc (g ∷ l) h = sum_hbm-word (wrap_add acc g.hbm_bytes) l (omega arith)

pub total_hbm_bytes-word : (node : ServingNode) → total_hbm_bytes node ≤ u64_max
unfolding total_hbm_bytes
total_hbm_bytes-word node = sum_hbm-word 0 node.gpus (omega arith)
