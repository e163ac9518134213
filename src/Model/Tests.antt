-- ===== src/Model/Tests.antt =====
-- The source's tests of src/model, and runs that meet the theorems' conditions.
use kvflow_sim.Base.{ℕ, ◌≡◌, refl}
use kvflow_sim.Error.{ok, err, invalid_model_profile, text}
use kvflow_sim.Model.Profile.{ModelProfile, new, kv_bytes, kv_bytes_per_token, llama_8b_bf16_gqa}
use kvflow_sim.Model.Compute.{conservative_8b, prefill_time_ns, decode_step_time_ns}
use kvflow_sim.Model.Sizing.{kv_bytes_overflow}

program : Unit {0}
unfolding new kv_bytes kv_bytes_per_token llama_8b_bf16_gqa conservative_8b prefill_time_ns
    decode_step_time_ns
program = tt

abbrev shape : ℕ → ℕ → ModelProfile
shape num_layers head_dim = record {
  model_id = "m";
  num_layers = num_layers;
  num_kv_heads = 8;
  head_dim = head_dim;
  bytes_per_elem = 2;
  max_context_tokens = 131_072;
}

llama_8b_gqa_kv_size :
    (kv_bytes_per_token (shape 32 128) ≡ 131_072) × (kv_bytes (shape 32 128) 4096 ≡ 536_870_912)
unfolding program
llama_8b_gqa_kv_size = (refl, refl)

empty_id_is_refused :
    new "" 32 8 128 2 131_072 ≡ err (invalid_model_profile (text "model_id is empty"))
unfolding program
empty_id_is_refused = refl

zero_shape_is_refused :
    new "m" 32 0 128 2 131_072
    ≡ err (invalid_model_profile (text "KV shape fields must be positive"))
unfolding program
zero_shape_is_refused = refl

shape_is_accepted : new "m" 32 8 128 2 131_072 ≡ ok (shape 32 128)
unfolding program
shape_is_accepted = refl

-- 2 ^ 31 layers of 8 heads of 2 ^ 29 elements of two bytes, twice: 2 ^ 65 bytes a token.
huge_shape_is_accepted :
    new "m" 2_147_483_648 8 536_870_912 2 131_072 ≡ ok (shape 2_147_483_648 536_870_912)
unfolding program
huge_shape_is_accepted = refl

kv_bytes_overflow_example : kv_bytes (shape 2_147_483_648 536_870_912) 4096 ≡ 0
kv_bytes_overflow_example = kv_bytes_overflow (shape 2_147_483_648 536_870_912) 4096 refl
