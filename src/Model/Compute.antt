-- ===== src/Model/Compute.antt =====
-- src/model/compute.rs.
use kvflow_sim.Base.{ℕ, ◌+◌, ◌-◌, ◌/◌, sat_add, sat_mul}

-- The trait: two methods, and the one that it defines from them.
pub record ComputeModel : Type 0 where
  pub prefill_time_ns : ℕ → ℕ
  pub decode_step_time_ns : ℕ → ℕ → ℕ

unfoldable pub decode_total_time_ns : ComputeModel → ℕ → ℕ → ℕ → ℕ
decode_total_time_ns c active_sequences context_tokens output_tokens =
    sat_mul (c.decode_step_time_ns active_sequences context_tokens) output_tokens

pub record LinearComputeModel : Type 0 where
  pub prefill_base_ns : ℕ
  pub prefill_per_token_ns : ℕ
  pub decode_base_ns : ℕ
  pub decode_per_sequence_ns : ℕ
  pub decode_per_1k_context_ns : ℕ

unfoldable pub conservative_8b : LinearComputeModel
conservative_8b = record {
  prefill_base_ns = 100_000;
  prefill_per_token_ns = 3_500;
  decode_base_ns = 600_000;
  decode_per_sequence_ns = 35_000;
  decode_per_1k_context_ns = 12_000;
}

unfoldable pub prefill_time_ns : LinearComputeModel → ℕ → ℕ
prefill_time_ns m prompt_tokens =
    sat_add m.prefill_base_ns (sat_mul m.prefill_per_token_ns prompt_tokens)

abbrev pub div_ceil : ℕ → ℕ → ℕ
div_ceil n d = (n + (d - 1)) / d

unfoldable pub decode_step_time_ns : LinearComputeModel → ℕ → ℕ → ℕ
decode_step_time_ns m active_sequences context_tokens =
    sat_add (sat_add m.decode_base_ns (sat_mul m.decode_per_sequence_ns active_sequences))
      (sat_mul m.decode_per_1k_context_ns (div_ceil context_tokens 1024))

-- `impl ComputeModel for LinearComputeModel`.
unfoldable pub linear : LinearComputeModel → ComputeModel
unfolding prefill_time_ns decode_step_time_ns
linear m = record {
  prefill_time_ns = prefill_time_ns m;
  decode_step_time_ns = decode_step_time_ns m;
}
