-- ===== src/Trace/Request.antt =====
-- src/trace/request.rs.
use Prim.Native.String.{String}
use kvflow_sim.Base.{ℕ, ◌-◌, Option}

pub record LlmRequest : Type 0 where
  pub request_id : ℕ
  pub session_id : ℕ
  pub turn_id : ℕ
  pub arrival_ns : ℕ
  pub prompt_tokens : ℕ
  pub new_prompt_tokens : ℕ
  pub output_tokens : ℕ
  pub model_id : String
  pub slo_ttft_ns : Option ℕ
  pub slo_tbt_ns : Option ℕ

unfoldable pub reused_prefix_tokens : LlmRequest → ℕ
reused_prefix_tokens r = r.prompt_tokens - r.new_prompt_tokens
