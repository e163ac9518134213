-- ===== src/Serving/Tests.antt =====
-- A run of src/serving/runner.rs on three requests, and the theorem there.
use kvflow_sim.Base.{ℕ, ◌≡◌, refl, List, [], ◌∷◌, none}
use kvflow_sim.Base.Sort.{sort}
use kvflow_sim.Panic.{Outcome, done, panic}
use kvflow_sim.Model.Compute.{linear, conservative_8b}
use kvflow_sim.Trace.Request.{LlmRequest}
use kvflow_sim.Serving.Runner.{NoReuseRunner, RequestResult, new, run, earlier, ttft_ns}
use kvflow_sim.Serving.Workers.{HasWorkers, Completes, run-Completes, new-HasWorkers}

program : Unit {0}
unfolding new run sort linear conservative_8b ttft_ns
program = tt

abbrev request : ℕ → ℕ → LlmRequest
request id at = record {
  request_id = id;
  session_id = 1;
  turn_id = 0;
  arrival_ns = at;
  prompt_tokens = 1024;
  new_prompt_tokens = 1024;
  output_tokens = 4;
  model_id = "llama-8b";
  slo_ttft_ns = none;
  slo_tbt_ns = none;
}

-- Out of order, and the last two at one time.
abbrev requests : List LlmRequest
requests = request 3 50 ∷ request 2 50 ∷ request 1 0 ∷ []

runner : NoReuseRunner
unfolding program
runner =
    new (record { prefill_workers = 1; decode_workers = 0; decode_batch_size = 1 })
      (linear conservative_8b)

ids : Outcome (NoReuseRunner × List RequestResult) → List (ℕ × ℕ)
ids panic = []
ids (done (s, l)) = ids_of l
  where
    ids_of : List RequestResult → List (ℕ × ℕ)
    ids_of [] = []
    ids_of (r ∷ l) = (r.request_id, ttft_ns r) ∷ ids_of l

requests_are_served_in_order :
    ids (run runner requests) ≡ (1, 4_331_000) ∷ (2, 8_014_950) ∷ (3, 11_698_950) ∷ []
unfolding program runner ids
requests_are_served_in_order = refl

runner-HasWorkers : HasWorkers runner
unfolding runner
runner-HasWorkers =
    new-HasWorkers (record { prefill_workers = 1; decode_workers = 0; decode_batch_size = 1 })
      (linear conservative_8b)

run-Completes_example : Completes runner (sort earlier requests) (run runner requests)
run-Completes_example = run-Completes runner requests runner-HasWorkers
