-- ===== src/Transfer/Analytical.antt =====
-- src/transfer/analytical.rs.
use kvflow_sim.Base.{ℕ, ◌==◌, nat_eq, if◌then◌else◌, sat_add}
use kvflow_sim.Error.{Result, ok, err, ◌>>=◌, invalid_transfer_model, text}
use kvflow_sim.Transfer.Path.{
  TransferPath, local_gpu_to_gpu, local_cpu_to_gpu, remote_memory_to_gpu, remote_ssd_to_gpu,
  TransferEstimate, serialization_ns,
}

pub record AnalyticalTransferModel : Type 0 where
  pub local_gpu_bps : ℕ
  pub local_cpu_bps : ℕ
  pub remote_memory_bps : ℕ
  pub remote_ssd_bps : ℕ
  pub local_gpu_base_ns : ℕ
  pub local_cpu_base_ns : ℕ
  pub remote_memory_base_ns : ℕ
  pub remote_ssd_base_ns : ℕ

unfoldable pub rdma_400g : AnalyticalTransferModel
rdma_400g = record {
  local_gpu_bps = 900_000_000_000;
  local_cpu_bps = 200_000_000_000;
  remote_memory_bps = 400_000_000_000;
  remote_ssd_bps = 64_000_000_000;
  local_gpu_base_ns = 500;
  local_cpu_base_ns = 2_000;
  remote_memory_base_ns = 8_000;
  remote_ssd_base_ns = 80_000;
}

abbrev link : AnalyticalTransferModel → TransferPath → ℕ × ℕ
link m local_gpu_to_gpu = (m.local_gpu_bps, m.local_gpu_base_ns)
link m local_cpu_to_gpu = (m.local_cpu_bps, m.local_cpu_base_ns)
link m remote_memory_to_gpu = (m.remote_memory_bps, m.remote_memory_base_ns)
link m remote_ssd_to_gpu = (m.remote_ssd_bps, m.remote_ssd_base_ns)

unfoldable pub bandwidth_and_latency : AnalyticalTransferModel → TransferPath → Result (ℕ × ℕ)
bandwidth_and_latency m path =
    if (link m path).0 == 0
    then err (invalid_transfer_model (text "bandwidth must be positive"))
    else ok (link m path)

unfoldable pub estimate : AnalyticalTransferModel → ℕ → TransferPath → ℕ → Result TransferEstimate
unfolding bandwidth_and_latency
estimate m now_ns path bytes = do
  (bandwidth_bps, base_latency_ns) ← bandwidth_and_latency m path
  let ser = serialization_ns bytes bandwidth_bps
  ok (record {
    path = path;
    bytes = bytes;
    start_ns = now_ns;
    finish_ns = sat_add (sat_add now_ns base_latency_ns) ser;
    base_latency_ns = base_latency_ns;
    serialization_ns = ser;
    bandwidth_bps = bandwidth_bps;
  })

unfoldable pub estimate_duration : AnalyticalTransferModel → TransferPath → ℕ → Result ℕ
unfolding bandwidth_and_latency
estimate_duration m path bytes = do
  (bandwidth_bps, base_latency_ns) ← bandwidth_and_latency m path
  ok (sat_add base_latency_ns (serialization_ns bytes bandwidth_bps))
