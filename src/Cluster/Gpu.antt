-- ===== src/Cluster/Gpu.antt =====
-- src/cluster/gpu.rs.
use kvflow_sim.Base.{ℕ, Bool, true, false, leb}

pub data WorkerRole : Type 0 where
  unified prefill decode cache : WorkerRole

-- `#[derive(PartialEq)]`.
abbrev pub role_beq : WorkerRole → WorkerRole → Bool
role_beq unified unified = true
role_beq prefill prefill = true
role_beq decode decode = true
role_beq cache cache = true
role_beq _ _ = false

pub record GpuResource : Type 0 where
  pub gpu_id : ℕ
  pub hbm_bytes : ℕ
  pub busy_until_ns : ℕ
  pub role : WorkerRole

unfoldable pub new : ℕ → ℕ → WorkerRole → GpuResource
new gpu_id hbm_bytes role = record {
  gpu_id = gpu_id;
  hbm_bytes = hbm_bytes;
  busy_until_ns = 0;
  role = role;
}

abbrev pub is_idle_at : GpuResource → ℕ → Bool
is_idle_at g now_ns = leb g.busy_until_ns now_ns
