-- ===== src/Transfer/Table.antt =====
-- src/transfer/table.rs: measured latencies, with an analytical model behind them.
use kvflow_sim.Base.{ℕ, none, some, [], pair_eq, nat_eq, sat_add, EqKey}
use kvflow_sim.Base.Map
use kvflow_sim.Base.Map.{Map}
use kvflow_sim.Error.{Result, ok}
use kvflow_sim.Transfer.Path.{TransferPath, path_eq, TransferEstimate}
use kvflow_sim.Transfer.Analytical
use kvflow_sim.Transfer.Analytical.{AnalyticalTransferModel}

abbrev pub Entry : Type 0
Entry = TransferPath × ℕ

instance abbrev pub entry_key : EqKey Entry
entry_key = pair_eq

pub record TableCalibratedTransferModel : Type 0 where
  pub table : Map Entry ℕ
  pub fallback : AnalyticalTransferModel

unfoldable pub new : AnalyticalTransferModel → TableCalibratedTransferModel
new fallback = record { table = []; fallback = fallback }

unfoldable pub add_entry :
    TableCalibratedTransferModel → TransferPath → ℕ → ℕ → TableCalibratedTransferModel
add_entry m path bytes latency_ns = record m {
  table = Map.insert ⦃e = entry_key⦄ (path, bytes) latency_ns m.table;
}

unfoldable pub estimate :
    TableCalibratedTransferModel → ℕ → TransferPath → ℕ → Result TransferEstimate
estimate m now_ns path bytes = elim (Map.get ⦃e = entry_key⦄ (path, bytes) m.table) [
  | some latency_ns ↦ ok (record {
    path = path;
    bytes = bytes;
    start_ns = now_ns;
    finish_ns = sat_add now_ns latency_ns;
    base_latency_ns = latency_ns;
    serialization_ns = 0;
    bandwidth_bps = 0;
  })
  | none ↦ Analytical.estimate m.fallback now_ns path bytes
]

unfoldable pub estimate_duration : TableCalibratedTransferModel → TransferPath → ℕ → Result ℕ
estimate_duration m path bytes = elim (Map.get ⦃e = entry_key⦄ (path, bytes) m.table) [
  | some latency_ns ↦ ok latency_ns
  | none ↦ Analytical.estimate_duration m.fallback path bytes
]
