-- ===== src/Transfer/Tests.antt =====
-- The source's tests of src/transfer, and runs that meet the theorems' conditions.
use kvflow_sim.Base.{ℕ, ◌≡◌, refl, arith, List, [], ◌∷◌}
use kvflow_sim.Base.Map
use kvflow_sim.Error.{ok, err, invalid_transfer_model, text}
use kvflow_sim.Transfer.Path.{
  TransferPath, local_cpu_to_gpu, remote_memory_to_gpu, remote_ssd_to_gpu, TransferEstimate,
  serialization_ns,
}
use kvflow_sim.Transfer.Analytical
use kvflow_sim.Transfer.Queued
use kvflow_sim.Transfer.Queued.{QueuedTransferModel}
use kvflow_sim.Transfer.Table
use kvflow_sim.Transfer.Table.{TableCalibratedTransferModel, entry_key}
use kvflow_sim.Float.Hundredths.{hundredths}
use kvflow_sim.Transfer.Units.{format_bytes, format_ns, b, kib, gib, ns, ms, s}
use kvflow_sim.Transfer.Durations.{Agrees, queued-Agrees}
use kvflow_sim.Transfer.Nic.{Request, Serial, serve, serve-Serial}

program : Unit {0}
unfolding serialization_ns Analytical.rdma_400g Analytical.estimate Analytical.estimate_duration
    Queued.rdma_400g Queued.estimate Queued.estimate_duration Table.new Table.add_entry
    Table.estimate Table.estimate_duration Map.get Map.insert serve hundredths format_bytes
    format_ns
program = tt

-- A number of hundredths and its unit.
format_bytes_in_units :
    (format_bytes hundredths 1023 ≡ b 1023)
    × (format_bytes hundredths 1536 ≡ kib 150)
    × (format_bytes hundredths 3_221_225_472 ≡ gib 300)
unfolding program
format_bytes_in_units = (refl, refl, refl)

format_ns_in_units :
    (format_ns hundredths 999 ≡ ns 999)
    × (format_ns hundredths 8_008_000 ≡ ms 800)
    × (format_ns hundredths 1_000_000_000 ≡ s 100)
unfolding program
format_ns_in_units = (refl, refl, refl)

estimate_remote_memory_transfer :
    Analytical.estimate Analytical.rdma_400g 0 remote_memory_to_gpu 400_000_000
    ≡ ok (record {
      path = remote_memory_to_gpu;
      bytes = 400_000_000;
      start_ns = 0;
      finish_ns = 8_008_000;
      base_latency_ns = 8_000;
      serialization_ns = 8_000_000;
      bandwidth_bps = 400_000_000_000;
    })
unfolding program
estimate_remote_memory_transfer = refl

large_kv_transfer_does_not_overflow :
    Analytical.estimate_duration Analytical.rdma_400g remote_memory_to_gpu 4_294_967_296
    ≡ ok 85_907_345
unfolding program
large_kv_transfer_does_not_overflow = refl

estimate_duration_rejects_zero_bandwidth :
    Analytical.estimate_duration
      (record Analytical.rdma_400g { remote_ssd_bps = 0 })
      remote_ssd_to_gpu
      1024
    ≡ err (invalid_transfer_model (text "bandwidth must be positive"))
unfolding program
estimate_duration_rejects_zero_bandwidth = refl

abbrev asked : TransferPath → ℕ → Request
asked path now_ns = record { now_ns = now_ns; path = path; bytes = 400_000_000 }

abbrev requests : List Request
requests =
    asked remote_memory_to_gpu 0 ∷ asked local_cpu_to_gpu 5 ∷ asked remote_memory_to_gpu 7 ∷ []

starts : List (ℕ × TransferEstimate) → List ℕ
starts [] = []
starts ((now_ns, e) ∷ l) = e.start_ns ∷ starts l

remote_transfers_queue_when_nic_busy :
    starts (serve Queued.rdma_400g requests) ≡ 0 ∷ 5 ∷ 8_000_000 ∷ []
unfolding program starts
remote_transfers_queue_when_nic_busy = refl

serve-Serial_example : Serial 0 (serve Queued.rdma_400g requests)
unfolding Queued.rdma_400g
serve-Serial_example = serve-Serial Queued.rdma_400g requests

calibrated : TableCalibratedTransferModel
unfolding program
calibrated = Table.add_entry (Table.new Analytical.rdma_400g) remote_memory_to_gpu 1_000_000 123_456

table_hit_uses_custom_latency :
    (Table.estimate_duration calibrated remote_memory_to_gpu 1_000_000 ≡ ok 123_456)
    × (Table.estimate_duration calibrated remote_memory_to_gpu 400_000_000 ≡ ok 8_008_000)
unfolding program calibrated
table_hit_uses_custom_latency = (refl, refl)

busy : QueuedTransferModel
unfolding program
busy = record Queued.rdma_400g { nic_busy_until_ns = 900 }

queued-Agrees_example :
    Agrees
      (Queued.estimate busy 5 remote_ssd_to_gpu 4_096).1
      (Queued.estimate_duration busy remote_ssd_to_gpu 4_096)
queued-Agrees_example =
    queued-Agrees busy 5 remote_ssd_to_gpu 4_096 (omega arith) (unfold busy in omega arith)
