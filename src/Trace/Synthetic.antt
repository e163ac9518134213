-- ===== src/Trace/Synthetic.antt =====
-- src/trace/synthetic.rs. The ids count up with a plain addition, which wraps in a release build.
use Prim.Native.String.{String}
use kvflow_sim.Base.{
  ℕ, zero, suc, nat_eq, ◌+◌, ◌*◌, ◌==◌, List, [], ◌∷◌, ◌++◌, none, if◌then◌else◌, min, wrap_add,
  sat_add,
}
use kvflow_sim.Trace.Request.{LlmRequest}

pub record SyntheticTraceConfig : Type 0 where
  pub sessions : ℕ
  pub turns_per_session : ℕ
  pub start_ns : ℕ
  pub inter_arrival_ns : ℕ
  pub initial_prompt_tokens : ℕ
  pub tokens_added_per_turn : ℕ
  pub output_tokens : ℕ
  pub model_id : String

-- `SyntheticTraceConfig::default()`.
abbrev pub default : SyntheticTraceConfig
default = record {
  sessions = 16;
  turns_per_session = 4;
  start_ns = 0;
  inter_arrival_ns = 1_000_000;
  initial_prompt_tokens = 1024;
  tokens_added_per_turn = 256;
  output_tokens = 128;
  model_id = "llama-8b";
}

abbrev pub u32_max : ℕ
u32_max = 4_294_967_295

-- The saturating sum and product of 32 bits.
abbrev pub prompt_at : SyntheticTraceConfig → ℕ → ℕ
prompt_at c turn_id =
    min (c.initial_prompt_tokens + min (turn_id * c.tokens_added_per_turn) u32_max) u32_max

abbrev pub request_at :
    SyntheticTraceConfig → (turn_id session_id request_id arrival_ns : ℕ) → LlmRequest
request_at c turn_id session_id request_id arrival_ns = record {
  request_id = request_id;
  session_id = session_id;
  turn_id = turn_id;
  arrival_ns = arrival_ns;
  prompt_tokens = prompt_at c turn_id;
  new_prompt_tokens = if turn_id == 0 then prompt_at c turn_id else c.tokens_added_per_turn;
  output_tokens = c.output_tokens;
  model_id = c.model_id;
  slo_ttft_ns = none;
  slo_tbt_ns = none;
}

-- The inner loop over so many sessions more, with the id and the time behind it.
unfoldable pub turn_requests :
    SyntheticTraceConfig
    → (turn_id left session_id request_id arrival_ns : ℕ) → List LlmRequest × ℕ × ℕ
turn_requests c turn_id zero session_id request_id arrival_ns = ([], request_id, arrival_ns)
turn_requests c turn_id (suc left) session_id request_id arrival_ns =
    let (rest, next_id, next_ns) =
      turn_requests c turn_id left (session_id + 1) (wrap_add request_id 1)
        (sat_add arrival_ns c.inter_arrival_ns) in
    (request_at c turn_id session_id request_id arrival_ns ∷ rest, next_id, next_ns)

-- The outer loop over so many turns more.
unfoldable pub turns_from :
    SyntheticTraceConfig → (left turn_id request_id arrival_ns : ℕ) → List LlmRequest
unfolding turn_requests
turns_from c zero turn_id request_id arrival_ns = []
turns_from c (suc left) turn_id request_id arrival_ns =
    let (turn, next_id, next_ns) = turn_requests c turn_id c.sessions 0 request_id arrival_ns in
    turn ++ turns_from c left (turn_id + 1) next_id next_ns

-- The list grows as it must; a `Vec` larger than an address space is not modelled.
unfoldable pub generate_synthetic_trace : SyntheticTraceConfig → List LlmRequest
unfolding turns_from
generate_synthetic_trace c = turns_from c c.turns_per_session 0 0 c.start_ns
