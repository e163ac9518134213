-- ===== src/Error.antt =====
-- src/error.rs, and the messages that the program formats into it. A formatted message is kept as
-- what it is formatted from, and a foreign error as its message; `Display` is not modelled.
use Prim.Native.String.{String}
use kvflow_sim.Base.{ℕ}
use kvflow_sim.Cache.Tier.{TierKind}

pub data Message : Type 0 where
  text : String → Message
  cache_overflow : (node_id : ℕ) (tier : TierKind) (need available : ℕ) → Message
  relocation_overflow : (node_id : ℕ) (tier : TierKind) (need available : ℕ) → Message
  kv_not_found : (kv_id : ℕ) → Message
  no_space_in_any_tier : (node_id bytes : ℕ) → Message

pub data KvFlowError : Type 0 where
  io : (message : String) → KvFlowError
  json : (message : String) → KvFlowError
  invalid_trace_line : (line : ℕ) (message : String) → KvFlowError
  invalid_model_profile : Message → KvFlowError
  invalid_transfer_model : Message → KvFlowError

pub data Result {ℓ} (T : Type ℓ) : Type ℓ where
  err : KvFlowError → Result T
  ok : T → Result T

-- `?` on a result without a value, and on one with.
abbrev pub ◌>>◌ {ℓ} : {T : Type ℓ} → Result (Unit {0}) → Result T → Result T
err x >> next = err x
ok _ >> next = next

abbrev pub ◌>>=◌ {ℓ κ} : {S : Type ℓ} {T : Type κ} → Result S → (S → Result T) → Result T
err x >>= next = err x
ok value >>= next = next value

infixl 5 ◌>>◌ ◌>>=◌
