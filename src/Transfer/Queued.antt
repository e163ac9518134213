-- ===== src/Transfer/Queued.antt =====
-- src/transfer/queued.rs: remote transfers queue behind one NIC.
use kvflow_sim.Base.{ℕ, Bool, true, false, ◌==◌, nat_eq, if◌then◌else◌, sat_add, max}
use kvflow_sim.Error.{Result, ok, err, invalid_transfer_model, text}
use kvflow_sim.Transfer.Path.{
  TransferPath, local_gpu_to_gpu, local_cpu_to_gpu, remote_memory_to_gpu, remote_ssd_to_gpu,
  TransferEstimate, serialization_ns,
}

pub record QueuedTransferModel : Type 0 where
  pub local_gpu_bps : ℕ
  pub local_cpu_bps : ℕ
  pub remote_memory_bps : ℕ
  pub remote_ssd_bps : ℕ
  pub local_gpu_base_ns : ℕ
  pub local_cpu_base_ns : ℕ
  pub remote_memory_base_ns : ℕ
  pub remote_ssd_base_ns : ℕ
  pub nic_busy_until_ns : ℕ

unfoldable pub rdma_400g : QueuedTransferModel
rdma_400g = record {
  local_gpu_bps = 900_000_000_000;
  local_cpu_bps = 200_000_000_000;
  remote_memory_bps = 400_000_000_000;
  remote_ssd_bps = 64_000_000_000;
  local_gpu_base_ns = 500;
  local_cpu_base_ns = 2_000;
  remote_memory_base_ns = 8_000;
  remote_ssd_base_ns = 80_000;
  nic_busy_until_ns = 0;
}

abbrev pub link : QueuedTransferModel → TransferPath → ℕ × ℕ
link m local_gpu_to_gpu = (m.local_gpu_bps, m.local_gpu_base_ns)
link m local_cpu_to_gpu = (m.local_cpu_bps, m.local_cpu_base_ns)
link m remote_memory_to_gpu = (m.remote_memory_bps, m.remote_memory_base_ns)
link m remote_ssd_to_gpu = (m.remote_ssd_bps, m.remote_ssd_base_ns)

abbrev pub is_remote : TransferPath → Bool
is_remote remote_memory_to_gpu = true
is_remote remote_ssd_to_gpu = true
is_remote _ = false

abbrev finish : TransferPath → ℕ → ℕ → ℕ → ℕ → ℕ → TransferEstimate
finish path bytes start_ns bandwidth_bps base_latency_ns ser = record {
  path = path;
  bytes = bytes;
  start_ns = start_ns;
  finish_ns = sat_add (sat_add start_ns base_latency_ns) ser;
  base_latency_ns = base_latency_ns;
  serialization_ns = ser;
  bandwidth_bps = bandwidth_bps;
}

unfoldable pub estimate :
    QueuedTransferModel → ℕ → TransferPath → ℕ → QueuedTransferModel × Result TransferEstimate
estimate m now_ns path bytes =
    let (bandwidth_bps, base_latency_ns) = link m path in
    let ser = serialization_ns bytes bandwidth_bps in
    let start = max now_ns m.nic_busy_until_ns in
    if bandwidth_bps == 0
    then (m, err (invalid_transfer_model (text "bandwidth must be positive")))
    else if is_remote path
    then (
      record m { nic_busy_until_ns = sat_add start ser },
      ok (finish path bytes start bandwidth_bps base_latency_ns ser),
    )
    else (m, ok (finish path bytes now_ns bandwidth_bps base_latency_ns ser))

unfoldable pub estimate_duration : QueuedTransferModel → TransferPath → ℕ → Result ℕ
estimate_duration m path bytes =
    let (bandwidth_bps, base_latency_ns) = link m path in
    if bandwidth_bps == 0
    then err (invalid_transfer_model (text "bandwidth must be positive"))
    else ok (sat_add base_latency_ns (serialization_ns bytes bandwidth_bps))
