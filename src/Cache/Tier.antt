-- ===== src/Cache/Tier.antt =====
-- src/cache/tier.rs.
use Prim.Native.String.{String}
use kvflow_sim.Base.{ℕ, ◌≡◌, ◌↔◌, Bool, true, false, arith, EqKey, nat_eq, pair_eq}

pub data TierKind : Type 0 where
  gpu cpu local_ssd remote_memory remote_ssd : TierKind

unfoldable pub as_str : TierKind → String
as_str gpu = "gpu"
as_str cpu = "cpu"
as_str local_ssd = "local_ssd"
as_str remote_memory = "remote_memory"
as_str remote_ssd = "remote_ssd"

-- `#[derive(PartialEq)]`.
abbrev pub tier_beq : TierKind → TierKind → Bool
tier_beq gpu gpu = true
tier_beq cpu cpu = true
tier_beq local_ssd local_ssd = true
tier_beq remote_memory remote_memory = true
tier_beq remote_ssd remote_ssd = true
tier_beq _ _ = false

pub tier_beq_iff : (s t : TierKind) → (tier_beq s t ≡ true) ↔ (s ≡ t)
tier_beq_iff s t = ground arith

instance abbrev pub tier_eq : EqKey TierKind
tier_eq = record { beq = tier_beq; beq_iff = tier_beq_iff }

-- The keys of the capacity and usage maps, `(NodeId, TierKind)`.
abbrev pub Pool : Type 0
Pool = ℕ × TierKind

instance abbrev pub pool_key : EqKey Pool
pool_key = pair_eq
