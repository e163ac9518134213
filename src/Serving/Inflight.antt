-- ===== src/Serving/Inflight.antt =====
-- src/serving/inflight.rs.
use kvflow_sim.Base.{ℕ, Option, none, some}
use kvflow_sim.Cache.Tier.{TierKind}
use kvflow_sim.Trace.Request.{LlmRequest}
use kvflow_sim.Serving.Runner.{RequestResult}

pub record InFlightRequest : Type 0 where
  pub request : LlmRequest
  pub prefill_start_ns : Option ℕ
  pub prefill_done_ns : Option ℕ
  pub decode_start_ns : Option ℕ
  pub first_token_ns : Option ℕ
  pub finish_ns : Option ℕ
  pub prefill_node : Option ℕ
  pub prefill_gpu : Option ℕ
  pub decode_node : Option ℕ
  pub decode_gpu : Option ℕ
  pub prefill_tokens : ℕ
  pub pending_fetch_tier : Option TierKind

abbrev pub new : LlmRequest → InFlightRequest
new request = record {
  request = request;
  prefill_start_ns = none;
  prefill_done_ns = none;
  decode_start_ns = none;
  first_token_ns = none;
  finish_ns = none;
  prefill_node = none;
  prefill_gpu = none;
  decode_node = none;
  decode_gpu = none;
  prefill_tokens = 0;
  pending_fetch_tier = none;
}

abbrev pub unwrap_or : Option ℕ → ℕ → ℕ
unwrap_or none d = d
unwrap_or (some n) d = n

abbrev pub into_result : InFlightRequest → RequestResult
into_result f = record {
  request_id = (f.request).request_id;
  session_id = (f.request).session_id;
  turn_id = (f.request).turn_id;
  arrival_ns = (f.request).arrival_ns;
  prefill_start_ns = unwrap_or f.prefill_start_ns (f.request).arrival_ns;
  prefill_done_ns = unwrap_or f.prefill_done_ns (f.request).arrival_ns;
  decode_start_ns = unwrap_or f.decode_start_ns (f.request).arrival_ns;
  first_token_ns = unwrap_or f.first_token_ns (f.request).arrival_ns;
  finish_ns = unwrap_or f.finish_ns (f.request).arrival_ns;
  prompt_tokens = (f.request).prompt_tokens;
  output_tokens = (f.request).output_tokens;
}

-- `.and_then(|i| i.pending_fetch_tier)`.
abbrev pub tier_of : Option InFlightRequest → Option TierKind
tier_of none = none
tier_of (some f) = f.pending_fetch_tier
