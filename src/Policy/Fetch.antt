-- ===== src/Policy/Fetch.antt =====
-- src/policy/fetch.rs: the trait `FetchPolicy`, which nothing in the program implements.
use kvflow_sim.Base.{ℕ}
use kvflow_sim.Error.{Result}
use kvflow_sim.Cache.Object.{CacheLocation}
use kvflow_sim.Model.Compute.{ComputeModel}
use kvflow_sim.Transfer.Analytical.{AnalyticalTransferModel}

pub data FetchDecision : Type 0 where
  fetch : (duration_ns : ℕ) → FetchDecision
  recompute : FetchDecision

pub record FetchPolicy (P : Type 0) : Type 0 where
  pub decide :
      P
      → (session_id prefix_tokens bytes : ℕ) → CacheLocation
      → (target_node : ℕ) → ComputeModel
      → AnalyticalTransferModel
      → Result FetchDecision
