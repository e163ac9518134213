-- ===== src/Model/Sizing.antt =====
-- What the profiles of src/model/profile.rs and the latencies of src/model/compute.rs come to.
use Prim.Native.String.{String}
use native.Mathlib.Nat.{mul-add-mod_self_left, div-add-mod, mod-eq_of_lt}
use kvflow_sim.Base.{
  ℕ, ◌+◌, ◌*◌, ◌/◌, ◌≤◌, ◌<◌, ◌≡◌, refl, arith, sym, ◌%◌, u64_mod, wrap_mul, u64_max, min, ◌∙◌, ap,
}
use kvflow_sim.Error.{ok}
use kvflow_sim.Model.Profile.{ModelProfile, new, kv_bytes_per_token, kv_bytes}
use kvflow_sim.Model.Compute.{LinearComputeModel, prefill_time_ns, decode_step_time_ns}

-- The size of a token's keys and values, without overflow.
abbrev pub exact_bytes_per_token : ModelProfile → ℕ
exact_bytes_per_token p = 2 * p.num_layers * p.num_kv_heads * p.head_dim * p.bytes_per_elem

-- The shape fields of a profile that `new` returns are positive.
pub new_positive :
    (id : String) (l h d b m : ℕ) (p : ModelProfile)
    → new id l h d b m ≡ ok p
    → (0 < p.num_layers) × (0 < p.num_kv_heads) × (0 < p.head_dim) × (0 < p.bytes_per_elem)
unfolding new
new_positive id l h d b m p e = ground arith

-- Longer prompts never take less time to prefill, saturation included.
pub prefill_time_ns_mono :
    (m : LinearComputeModel) (a b : ℕ) → a ≤ b → prefill_time_ns m a ≤ prefill_time_ns m b
unfolding prefill_time_ns
prefill_time_ns_mono m a b h = grind arith

-- More sequences or a longer context never make a decode step shorter, saturation included.
pub decode_step_time_ns_mono :
    (m : LinearComputeModel) (s t a b : ℕ)
    → s ≤ t
    → a ≤ b
    → decode_step_time_ns m s a ≤ decode_step_time_ns m t b
unfolding decode_step_time_ns
decode_step_time_ns_mono m s t a b h k = grind arith

mul-mod : (m a b : ℕ) → (a % m) * b % m ≡ a * b % m
mul-mod m a b =
    sym (mul-add-mod_self_left m (a / m * b) (a % m * b)) ∙ ap (λ (x : ℕ). x % m) regroup
  where
    regroup : m * (a / m * b) + a % m * b ≡ a * b
    regroup = omega (arith, ap (λ (t : ℕ). t * b) (div-add-mod a m))

-- What the program computes of a profile is the exact size of a token's keys and values modulo
-- 2 ^ 64, for every shape.
pub kv_bytes_per_token_mod :
    (p : ModelProfile) → kv_bytes_per_token p ≡ exact_bytes_per_token p % u64_mod
unfolding kv_bytes_per_token
kv_bytes_per_token_mod p = step (2 * p.num_layers * p.num_kv_heads * p.head_dim) p.bytes_per_elem (
    step (2 * p.num_layers * p.num_kv_heads) p.head_dim
      (step (2 * p.num_layers) p.num_kv_heads refl))
  where
    step : (a b : ℕ) {x : ℕ} → x ≡ a % u64_mod → wrap_mul x b ≡ a * b % u64_mod
    step a b e = rw e (mul-mod u64_mod a b)

-- Where the exact size of a token's keys and values fits in 64 bits, the size of a prompt is exact
-- up to saturation.
pub kv_bytes_exact :
    (p : ModelProfile) (tokens : ℕ)
    → exact_bytes_per_token p ≤ u64_max
    → kv_bytes p tokens ≡ min (exact_bytes_per_token p * tokens) u64_max
unfolding kv_bytes
kv_bytes_exact p tokens fits =
    ap (λ (x : ℕ). min (x * tokens) u64_max) (kv_bytes_per_token_mod p ∙ mod-eq_of_lt (omega arith))

-- A profile whose exact token size is a multiple of 2 ^ 64 is sized 0 bytes, for prompts of every
-- length.
pub kv_bytes_overflow :
    (p : ModelProfile) (tokens : ℕ) → exact_bytes_per_token p % u64_mod ≡ 0 → kv_bytes p tokens ≡ 0
unfolding kv_bytes
kv_bytes_overflow p tokens e = rw (kv_bytes_per_token_mod p, e) (omega arith)
