-- ===== src/Trace/Tests.antt =====
-- src/trace/stats.rs on two sessions, one with two turns.
use kvflow_sim.Base.{ℕ, ◌≡◌, refl, List, [], ◌∷◌, none, some, arith}
use kvflow_sim.Float.Hundredths.{hundredths, hundredths-IsIeee}
use kvflow_sim.Panic.{done}
use kvflow_sim.Trace.Request.{LlmRequest, reused_prefix_tokens}
use kvflow_sim.Trace.Stats.{TraceStats, from_requests, from_values, percentile}
use kvflow_sim.Trace.Stats.Counts.{Tells, from_requests-Tells}

abbrev turn : (session nth prompt new_prompt : ℕ) → LlmRequest
turn session nth prompt new_prompt = record {
  request_id = 0;
  session_id = session;
  turn_id = nth;
  arrival_ns = 0;
  prompt_tokens = prompt;
  new_prompt_tokens = new_prompt;
  output_tokens = 10;
  model_id = "m";
  slo_ttft_ns = none;
  slo_tbt_ns = none;
}

abbrev turns : List LlmRequest
turns = turn 1 0 100 100 ∷ turn 2 0 100 100 ∷ turn 1 1 200 50 ∷ []

sessions_are_counted_once :
    from_requests hundredths turns
    ≡ done (
        some (record {
          requests = 3;
          sessions = 2;
          turns = 3;
          prompt_tokens = record {
            min = 100;
            max = 200;
            mean = 13333;
            p50 = 100;
            p95 = 200;
            p99 = 200;
          };
          new_prompt_tokens = record {
            min = 50;
            max = 100;
            mean = 8333;
            p50 = 100;
            p95 = 100;
            p99 = 100;
          };
          reused_prefix_tokens = record {
            min = 0;
            max = 150;
            mean = 5000;
            p50 = 0;
            p95 = 150;
            p99 = 150;
          };
          output_tokens = record { min = 10; max = 10; mean = 1000; p50 = 10; p95 = 10; p99 = 10 };
          reuse_ratio_mean = 25;
        }))
unfolding from_requests from_values percentile hundredths reused_prefix_tokens
sessions_are_counted_once = refl

from_requests-Tells_example :
    (s : TraceStats ℕ) × (from_requests hundredths turns ≡ done (some s)) × Tells hundredths turns s
from_requests-Tells_example =
    from_requests-Tells hundredths turns hundredths-IsIeee (omega arith) (omega arith)
