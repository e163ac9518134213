-- ===== src/Transfer/Path.antt =====
-- The paths, the estimate and the serialisation time of src/transfer/analytical.rs, which
-- src/transfer/queued.rs repeats.
use kvflow_sim.Base.{
  ℕ, ◌-◌, ◌*◌, ◌/◌, ◌≡◌, ◌↔◌, Bool, true, false, arith, min, u64_max, u128_max, EqKey, nat_eq,
  pair_eq,
}

pub data TransferPath : Type 0 where
  local_gpu_to_gpu local_cpu_to_gpu remote_memory_to_gpu remote_ssd_to_gpu : TransferPath

-- `#[derive(PartialEq)]`.
abbrev pub path_beq : TransferPath → TransferPath → Bool
path_beq local_gpu_to_gpu local_gpu_to_gpu = true
path_beq local_cpu_to_gpu local_cpu_to_gpu = true
path_beq remote_memory_to_gpu remote_memory_to_gpu = true
path_beq remote_ssd_to_gpu remote_ssd_to_gpu = true
path_beq _ _ = false

pub path_beq_iff : (p q : TransferPath) → (path_beq p q ≡ true) ↔ (p ≡ q)
path_beq_iff p q = ground arith

instance abbrev pub path_eq : EqKey TransferPath
path_eq = record { beq = path_beq; beq_iff = path_beq_iff }

pub record TransferEstimate : Type 0 where
  pub path : TransferPath
  pub bytes : ℕ
  pub start_ns : ℕ
  pub finish_ns : ℕ
  pub base_latency_ns : ℕ
  pub serialization_ns : ℕ
  pub bandwidth_bps : ℕ

abbrev pub duration_ns : TransferEstimate → ℕ
duration_ns e = e.finish_ns - e.start_ns

abbrev sat_mul_128 : ℕ → ℕ → ℕ
sat_mul_128 a b = min (a * b) u128_max

-- The product of 64-bit bytes and 8 * 10 ^ 9 stays below 2 ^ 128, where it would saturate.
unfoldable pub serialization_ns : ℕ → ℕ → ℕ
serialization_ns bytes bandwidth_bps =
    min (sat_mul_128 (sat_mul_128 bytes 8) 1_000_000_000 / bandwidth_bps) u64_max
