-- ===== src/Decision/Tests.antt =====
-- The source's test of src/decision.rs, and the theorem there.
use kvflow_sim.Base.{◌≡◌, refl, arith}
use kvflow_sim.Error.{ok, err}
use kvflow_sim.Model.Profile.{ModelProfile, llama_8b_bf16_gqa, kv_bytes}
use kvflow_sim.Panic.{done}
use kvflow_sim.Model.Compute.{linear, conservative_8b}
use kvflow_sim.Transfer.Path.{TransferPath, TransferEstimate, serialization_ns}
use kvflow_sim.Transfer.Analytical
use kvflow_sim.Decision.{KvDecision, FetchVsRecompute, evaluate, saved_ns}
use kvflow_sim.Decision.Saved.{Judges, evaluate-Judges}

program : Unit {0}
unfolding kv_bytes linear conservative_8b serialization_ns Analytical.estimate Analytical.rdma_400g
    evaluate saved_ns
program = tt

abbrev llama : ModelProfile
llama = record {
  model_id = "llama-8b-bf16-gqa";
  num_layers = 32;
  num_kv_heads = 8;
  head_dim = 128;
  bytes_per_elem = 2;
  max_context_tokens = 131_072;
}

llama_is_accepted : llama_8b_bf16_gqa ≡ done llama
unfolding llama_8b_bf16_gqa
llama_is_accepted = refl

est : TransferEstimate
unfolding program
est =
    elim (Analytical.estimate Analytical.rdma_400g 0 TransferPath.remote_memory_to_gpu
      (kv_bytes llama 4096)) [
        | ok e ↦ e
        | err x ↦ record {
          path = TransferPath.remote_memory_to_gpu;
          bytes = 0;
          start_ns = 0;
          finish_ns = 0;
          base_latency_ns = 0;
          serialization_ns = 0;
          bandwidth_bps = 0;
        }
      ]

result : FetchVsRecompute
result = record {
  prompt_tokens = 4096;
  reused_prefix_tokens = 4096;
  kv_bytes = 536_870_912;
  recompute_ns = 14_436_000;
  fetch = est;
  decision = KvDecision.fetch est;
}

fetch_wins :
    evaluate llama
      (linear conservative_8b)
      Analytical.rdma_400g
      TransferPath.remote_memory_to_gpu
      4096
      4096
    ≡ ok result
unfolding program result est
fetch_wins = refl

evaluate-Judges_example :
    Judges llama
      (linear conservative_8b)
      Analytical.rdma_400g
      TransferPath.remote_memory_to_gpu
      4096
      5000
      (evaluate llama
        (linear conservative_8b)
        Analytical.rdma_400g
        TransferPath.remote_memory_to_gpu
        4096
        5000)
evaluate-Judges_example =
    evaluate-Judges llama (linear conservative_8b) Analytical.rdma_400g
      TransferPath.remote_memory_to_gpu 4096 5000 (unfold program in omega arith)
