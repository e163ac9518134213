-- ===== src/Policy/NetworkAware.antt =====
-- src/policy/network_aware.rs. The differences of `i128` wrap, as in a release build.
use kvflow_sim.Base.{ℕ, ◌/◌, Bool, List, [], ◌∷◌, map, Option, none, some, if◌then◌else◌, ltb, leb}
use kvflow_sim.Base.Int.{ℤ, pos, ltb_ℤ, sub_i128, i128_max}
use kvflow_sim.Base.Sort.{sort}
use kvflow_sim.Error.{Result, ok, err, invalid_model_profile, no_space_in_any_tier}
use kvflow_sim.Cache.Tier.{TierKind}
use kvflow_sim.Cache.Object.{CacheLocation}
use kvflow_sim.Cache.State.{CacheState, HashOrder, available_space, capacity}
use kvflow_sim.Cluster.Topology.{ClusterTopology, node}
use kvflow_sim.Model.Compute.{ComputeModel}
use kvflow_sim.Transfer.Path.{
  TransferPath, local_cpu_to_gpu, remote_memory_to_gpu, remote_ssd_to_gpu,
}
use kvflow_sim.Policy.Placement.{PlaceRequest, Placed, EvictedKv, store_at}
use kvflow_sim.Policy.Evict.{evict_lru}
use kvflow_sim.Policy.LocalGpuLru.{first_gpu_of}
use kvflow_sim.Policy.CpuOffloadLru.{on_gpu}

pub record NetworkAwarePlacement : Type 0 where
  pub target_node : ℕ

-- `.map(|d| d as i128).unwrap_or(i128::MAX)`.
abbrev pub cost_of : Result ℕ → ℕ
cost_of (ok d) = d
cost_of (err _) = i128_max

-- The scoring uses nothing of a transfer model but `estimate_duration`.
abbrev pub fetch_cost : TierKind → ℕ → (TransferPath → ℕ → Result ℕ) → ℕ
fetch_cost TierKind.gpu bytes estimate_duration = 0
fetch_cost TierKind.cpu bytes estimate_duration = cost_of (estimate_duration local_cpu_to_gpu bytes)
fetch_cost TierKind.remote_memory bytes estimate_duration =
    cost_of (estimate_duration remote_memory_to_gpu bytes)
fetch_cost TierKind.remote_ssd bytes estimate_duration =
    cost_of (estimate_duration remote_ssd_to_gpu bytes)
fetch_cost TierKind.local_ssd bytes estimate_duration = i128_max

abbrev pub pressure_penalty : TierKind → ℕ → ℕ
pressure_penalty TierKind.gpu bytes = 0
pressure_penalty TierKind.cpu bytes = bytes / 100
pressure_penalty TierKind.remote_memory bytes = bytes / 10
pressure_penalty _ bytes = bytes

unfoldable pub utility_for_tier :
    TierKind → ℕ → ℕ → ComputeModel → (TransferPath → ℕ → Result ℕ) → ℤ
utility_for_tier tier bytes prefix_tokens compute estimate_duration =
    sub_i128
      (sub_i128 (pos (compute.prefill_time_ns prefix_tokens))
        (pos (fetch_cost tier bytes estimate_duration)))
      (pos (pressure_penalty tier bytes))

abbrev pub location_for : ℕ → TierKind → ClusterTopology → Option CacheLocation
location_for target_node TierKind.gpu cluster =
    on_gpu target_node (first_gpu_of (node cluster target_node))
location_for target_node TierKind.cpu cluster = some (CacheLocation.cpu target_node)
location_for target_node TierKind.remote_memory cluster =
    some (CacheLocation.remote_memory target_node)
location_for target_node TierKind.remote_ssd cluster = some (CacheLocation.remote_ssd target_node)
location_for target_node TierKind.local_ssd cluster = none

abbrev pub candidates : List TierKind
candidates = TierKind.gpu ∷ TierKind.cpu ∷ TierKind.remote_memory ∷ TierKind.remote_ssd ∷ []

-- Highest utility first; ties keep the order.
abbrev pub better : TierKind × ℤ → TierKind × ℤ → Bool
better a b = ltb_ℤ b.1 a.1

unfoldable pub scored : ℕ → ℕ → ComputeModel → (TransferPath → ℕ → Result ℕ) → List (TierKind × ℤ)
unfolding utility_for_tier sort
scored bytes prefix_tokens compute estimate_duration = sort better (
    map (λ tier. (tier, utility_for_tier tier bytes prefix_tokens compute estimate_duration))
      candidates)

module _ (self : NetworkAwarePlacement) (order : HashOrder) (cluster : ClusterTopology)
    (r : PlaceRequest) where
  open self use {target_node}

  -- One tier behind its eviction, with what is tried next.
  unfoldable pub settle :
      TierKind
      → CacheLocation
      → CacheState × List EvictedKv
      → (CacheState → List EvictedKv → Placed)
      → Placed
  settle tier loc (c, evicted) next =
      if leb r.bytes (available_space c target_node tier)
      then store_at c r loc evicted
      else next c evicted

  unfoldable pub try_tier :
      TierKind
      → Option CacheLocation
      → (CacheState → List EvictedKv → Placed)
      → CacheState
      → List EvictedKv
      → Placed
  unfolding settle
  try_tier tier none next c evicted = next c evicted
  try_tier tier (some loc) next c evicted =
      if ltb (capacity c target_node tier) r.bytes
      then next c evicted
      else settle tier loc (evict_lru order target_node tier r.bytes c evicted) next

  -- The loop over the scored tiers.
  unfoldable pub try_tiers : List (TierKind × ℤ) → CacheState → List EvictedKv → Placed
  unfolding try_tier
  try_tiers [] c evicted =
      (c, err (invalid_model_profile (no_space_in_any_tier target_node r.bytes)))
  try_tiers ((tier, _) ∷ l) c evicted =
      try_tier tier (location_for target_node tier cluster) (try_tiers l) c evicted

  unfoldable pub place : ComputeModel → (TransferPath → ℕ → Result ℕ) → CacheState → Placed
  unfolding try_tiers scored
  place compute estimate_duration c =
      try_tiers (scored r.bytes r.prefix_tokens compute estimate_duration) c []
