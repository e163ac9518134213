-- ===== src/Transfer/Model.antt =====
-- The trait of src/transfer/mod.rs, and its three implementations.
use kvflow_sim.Base.{ℕ}
use kvflow_sim.Error.{Result}
use kvflow_sim.Transfer.Path.{TransferPath, TransferEstimate}
use kvflow_sim.Transfer.Analytical
use kvflow_sim.Transfer.Analytical.{AnalyticalTransferModel}
use kvflow_sim.Transfer.Queued
use kvflow_sim.Transfer.Queued.{QueuedTransferModel}
use kvflow_sim.Transfer.Table
use kvflow_sim.Transfer.Table.{TableCalibratedTransferModel}

-- `estimate` takes `&mut self`: it returns the model as it leaves it.
pub record TransferModel (M : Type 0) : Type 0 where
  pub estimate : M → ℕ → TransferPath → ℕ → M × Result TransferEstimate
  pub estimate_duration : M → TransferPath → ℕ → Result ℕ

abbrev pub analytical : TransferModel AnalyticalTransferModel
analytical = record {
  estimate = λ m now path bytes. (m, Analytical.estimate m now path bytes);
  estimate_duration = Analytical.estimate_duration;
}

abbrev pub queued : TransferModel QueuedTransferModel
queued = record { estimate = Queued.estimate; estimate_duration = Queued.estimate_duration }

abbrev pub table : TransferModel TableCalibratedTransferModel
table = record {
  estimate = λ m now path bytes. (m, Table.estimate m now path bytes);
  estimate_duration = Table.estimate_duration;
}
