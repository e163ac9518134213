-- ===== src/Model/Profile.antt =====
-- src/model/profile.rs. The plain products wrap, as in a release build.
use Prim.Native.String.{String}
use package.text.Mathlib.Text.{◌==◌ as str_eq}
use kvflow_sim.Base.{ℕ, ◌||◌, ◌==◌, nat_eq, if◌then◌else◌, wrap_mul, sat_mul}
use kvflow_sim.Error.{Result, ok, err, ◌>>◌, invalid_model_profile, text}
use kvflow_sim.Panic.{Outcome, done, panic}

pub record ModelProfile : Type 0 where
  pub model_id : String
  pub num_layers : ℕ
  pub num_kv_heads : ℕ
  pub head_dim : ℕ
  pub bytes_per_elem : ℕ
  pub max_context_tokens : ℕ

unfoldable pub validate : ModelProfile → Result (Unit {0})
validate p =
    if str_eq p.model_id ""
    then err (invalid_model_profile (text "model_id is empty"))
    else if p.num_layers == 0 || p.num_kv_heads == 0 || p.head_dim == 0 || p.bytes_per_elem == 0
    then err (invalid_model_profile (text "KV shape fields must be positive"))
    else ok tt

unfoldable pub new : String → ℕ → ℕ → ℕ → ℕ → ℕ → Result ModelProfile
unfolding validate
new model_id num_layers num_kv_heads head_dim bytes_per_elem max_context_tokens = do
  let profile : ModelProfile = record {
    model_id = model_id;
    num_layers = num_layers;
    num_kv_heads = num_kv_heads;
    head_dim = head_dim;
    bytes_per_elem = bytes_per_elem;
    max_context_tokens = max_context_tokens;
  }
  validate profile
  ok profile

unfoldable pub kv_bytes_per_token : ModelProfile → ℕ
kv_bytes_per_token p =
    wrap_mul (wrap_mul (wrap_mul (wrap_mul 2 p.num_layers) p.num_kv_heads) p.head_dim)
      p.bytes_per_elem

unfoldable pub kv_bytes : ModelProfile → ℕ → ℕ
unfolding kv_bytes_per_token
kv_bytes p tokens = sat_mul (kv_bytes_per_token p) tokens

-- `unwrap()` of a result.
abbrev pub unwrap_ok {ℓ} : {A : Type ℓ} → Result A → Outcome A
unwrap_ok (ok a) = done a
unwrap_ok (err _) = panic

unfoldable pub llama_8b_bf16_gqa : Outcome ModelProfile
unfolding new
llama_8b_bf16_gqa = unwrap_ok (new "llama-8b-bf16-gqa" 32 8 128 2 131_072)

unfoldable pub llama_70b_bf16_gqa : Outcome ModelProfile
unfolding new
llama_70b_bf16_gqa = unwrap_ok (new "llama-70b-bf16-gqa" 80 8 128 2 131_072)
