-- ===== src/Decision.antt =====
-- src/decision.rs: whether to fetch a prefix or to compute it again.
pub mod Saved
mod Tests
use kvflow_sim.Base.{ℕ, ◌-◌, ◌<◌, if◌then◌else◌, ltb, min}
use kvflow_sim.Base.Int.{ℤ, pos, sub_i128}
use kvflow_sim.Error.{Result, ok, err, ◌>>=◌}
use kvflow_sim.Model.Profile.{ModelProfile, kv_bytes}
use kvflow_sim.Model.Compute.{ComputeModel}
use kvflow_sim.Transfer.Path.{TransferPath, TransferEstimate, duration_ns}
use kvflow_sim.Transfer.Analytical.{AnalyticalTransferModel, estimate}

pub data KvDecision : Type 0 where
  recompute_prefill : KvDecision
  fetch : TransferEstimate → KvDecision

pub record FetchVsRecompute : Type 0 where
  pub prompt_tokens : ℕ
  pub reused_prefix_tokens : ℕ
  pub kv_bytes : ℕ
  pub recompute_ns : ℕ
  pub fetch : TransferEstimate
  pub decision : KvDecision

unfoldable pub evaluate :
    ModelProfile
    → ComputeModel
    → AnalyticalTransferModel
    → TransferPath
    → ℕ
    → ℕ
    → Result FetchVsRecompute
evaluate profile compute transfer path prompt_tokens reused_prefix_tokens = do
  let reused = min reused_prefix_tokens prompt_tokens
  let bytes = kv_bytes profile reused
  let recompute_ns = compute.prefill_time_ns reused
  est ← estimate transfer 0 path bytes
  ok (record {
    prompt_tokens = prompt_tokens;
    reused_prefix_tokens = reused;
    kv_bytes = bytes;
    recompute_ns = recompute_ns;
    fetch = est;
    decision =
        if ltb (duration_ns est) recompute_ns then KvDecision.fetch est else recompute_prefill;
  })

unfoldable pub saved_ns : FetchVsRecompute → ℤ
saved_ns r = sub_i128 (pos r.recompute_ns) (pos (duration_ns r.fetch))
