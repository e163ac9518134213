-- ===== src/Policy/Utility.antt =====
-- The scores of `NetworkAwarePlacement::utility_for_tier` in src/policy/network_aware.rs against each
-- other.
use kvflow_sim.Base.{
  ℕ, ◌+◌, ◌-◌, ◌/◌, ◌≤◌, ◌<◌, ◌≡◌, refl, ap, true, false, arith, u64_max, [], ◌∷◌, map,
}
use kvflow_sim.Base.Sort.{sort, insert}
use kvflow_sim.Base.Int.{ℤ, pos, ltb_ℤ, sub_ℕ, sub_i128, i128_max}
use kvflow_sim.Error.{Result, ok}
use kvflow_sim.Cache.Tier.{TierKind}
use kvflow_sim.Model.Compute.{ComputeModel}
use kvflow_sim.Transfer.Path.{
  TransferPath, local_cpu_to_gpu, remote_memory_to_gpu, remote_ssd_to_gpu,
}
use kvflow_sim.Policy.NetworkAware.{
  cost_of, fetch_cost, pressure_penalty, utility_for_tier, better, scored,
}

-- The two differences for a finite cost are exact.
sub_small :
    (a b c : ℕ)
    → a ≤ u64_max
    → b ≤ u64_max
    → c ≤ u64_max
    → sub_i128 (sub_i128 (pos a) (pos b)) (pos c) ≡ sub_ℕ a (b + c)
sub_small a b c h k l = ground arith

-- For the cost of an unusable tier, the second one falls out of range and comes round.
sub_large :
    (a c : ℕ)
    → a ≤ u64_max
    → c ≤ u64_max
    → a + 1 < c
    → sub_i128 (sub_i128 (pos a) (pos i128_max)) (pos c) ≡ pos (i128_max + 2 + a - c)
sub_large a c h l wide = ground arith

-- Tiers of falling utility stay as they are.
in_turn :
    (a b c d : ℤ)
    → ltb_ℤ b a ≡ true
    → ltb_ℤ c b ≡ true
    → ltb_ℤ d c ≡ true
    → map
        (λ e. e.0)
        (sort better (
          (TierKind.gpu, a)
          ∷ (TierKind.cpu, b)
          ∷ (TierKind.remote_memory, c)
          ∷ (TierKind.remote_ssd, d)
          ∷ []))
      ≡ TierKind.gpu ∷ TierKind.cpu ∷ TierKind.remote_memory ∷ TierKind.remote_ssd ∷ []
unfolding sort insert
in_turn a b c d h k l =
    let back : (x y : ℤ) → ltb_ℤ x y ≡ true → ltb_ℤ y x ≡ false = λ x y e. ground arith in
    rw (back d c l, back c b k, back b a h) refl

penalty_small : (t : TierKind) (bytes : ℕ) → bytes ≤ u64_max → pressure_penalty t bytes ≤ u64_max
penalty_small t bytes h = ground arith

module _ (compute : ComputeModel) (estimate_duration : TransferPath → ℕ → Result ℕ)
    (bytes prefix_tokens : ℕ) where
  -- Where the recompute time, the size and the transfer time fit in 64 bits, the utility of a tier
  -- is the recompute time less the transfer time and the pressure penalty, without overflow.
  utility_exact :
      (t : TierKind)
      → compute.prefill_time_ns prefix_tokens ≤ u64_max
      → bytes ≤ u64_max
      → fetch_cost t bytes estimate_duration ≤ u64_max
      → utility_for_tier t bytes prefix_tokens compute estimate_duration
        ≡ sub_ℕ
            (compute.prefill_time_ns prefix_tokens)
            (fetch_cost t bytes estimate_duration + pressure_penalty t bytes)
  unfolding utility_for_tier
  utility_exact t h k l = sub_small _ _ _ h l (penalty_small t bytes k)

  abbrev utility : TierKind → ℤ
  utility t = utility_for_tier t bytes prefix_tokens compute estimate_duration

  outscored :
      (near far : TierKind)
      → compute.prefill_time_ns prefix_tokens ≤ u64_max
      → bytes ≤ u64_max
      → fetch_cost far bytes estimate_duration ≤ u64_max
      → fetch_cost near bytes estimate_duration ≤ u64_max
      → fetch_cost near bytes estimate_duration + pressure_penalty near bytes
        < fetch_cost far bytes estimate_duration + pressure_penalty far bytes
      → ltb_ℤ (utility far) (utility near) ≡ true
  outscored near far h k l m worse =
      rw (utility_exact far h k l, utility_exact near h k m) (ground arith)

  -- For an object of 100 bytes or more, where the recompute time, the size and the three transfer
  -- times fit in 64 bits, the transfer from the host takes no more than a twentieth of a nanosecond
  -- a byte longer than from remote memory, and that no more than half a nanosecond a byte longer
  -- than from the remote SSD, the utility falls strictly from the GPU tier to the host, to remote
  -- memory, to the remote SSD, and the tiers are tried in this order.
  pub nearest_first :
      (host memory ssd : ℕ)
      → compute.prefill_time_ns prefix_tokens ≤ u64_max
      → 100 ≤ bytes
      → bytes ≤ u64_max
      → estimate_duration local_cpu_to_gpu bytes ≡ ok host
      → estimate_duration remote_memory_to_gpu bytes ≡ ok memory
      → estimate_duration remote_ssd_to_gpu bytes ≡ ok ssd
      → host ≤ u64_max
      → memory ≤ u64_max
      → ssd ≤ u64_max
      → host ≤ memory + bytes / 20
      → memory ≤ ssd + bytes / 2
      → (ltb_ℤ (utility TierKind.cpu) (utility TierKind.gpu) ≡ true)
        × (ltb_ℤ (utility TierKind.remote_memory) (utility TierKind.cpu) ≡ true)
        × (ltb_ℤ (utility TierKind.remote_ssd) (utility TierKind.remote_memory) ≡ true)
        × (map (λ e. e.0) (scored bytes prefix_tokens compute estimate_duration)
            ≡ TierKind.gpu ∷ TierKind.cpu ∷ TierKind.remote_memory ∷ TierKind.remote_ssd ∷ [])
  unfolding scored
  nearest_first host memory ssd h big k at_host at_memory at_ssd u v w a b =
      let cost : (d : ℕ) (r : Result ℕ) → r ≡ ok d → cost_of r ≡ d = λ d r e. ap cost_of e in
      let one = cost host _ at_host in
      let two = cost memory _ at_memory in
      let three = cost ssd _ at_ssd in
      let first =
        outscored TierKind.gpu TierKind.cpu h k (omega (arith, one)) (omega arith)
          (omega (arith, one)) in
      let second =
        outscored TierKind.cpu TierKind.remote_memory h k (omega (arith, two)) (omega (arith, one))
          (omega (arith, one, two)) in
      let third =
        outscored TierKind.remote_memory TierKind.remote_ssd h k (omega (arith, three))
          (omega (arith, two)) (omega (arith, two, three)) in
      (
        first,
        second,
        third,
        in_turn (utility TierKind.gpu) (utility TierKind.cpu) (utility TierKind.remote_memory)
            (utility TierKind.remote_ssd) first second third,
      )

  utility_wraps :
      (t : TierKind)
      → compute.prefill_time_ns prefix_tokens ≤ u64_max
      → bytes ≤ u64_max
      → fetch_cost t bytes estimate_duration ≡ i128_max
      → compute.prefill_time_ns prefix_tokens + 1 < pressure_penalty t bytes
      → utility_for_tier t bytes prefix_tokens compute estimate_duration
        ≡ pos (i128_max + 2 + compute.prefill_time_ns prefix_tokens - pressure_penalty t bytes)
  unfolding utility_for_tier
  utility_wraps t h k l wide = rw l (sub_large _ _ h (penalty_small t bytes k) wide)

  -- Where the recompute time and the size fit in 64 bits, a tier whose transfer has no estimate
  -- outscores every tier whose transfer takes a 64-bit time, as soon as its pressure penalty
  -- exceeds the recompute time by two or more: the difference of i128 comes round.
  pub unusable_outscores :
      (t s : TierKind)
      → compute.prefill_time_ns prefix_tokens ≤ u64_max
      → bytes ≤ u64_max
      → fetch_cost t bytes estimate_duration ≡ i128_max
      → compute.prefill_time_ns prefix_tokens + 1 < pressure_penalty t bytes
      → fetch_cost s bytes estimate_duration ≤ u64_max
      → ltb_ℤ
          (utility_for_tier s bytes prefix_tokens compute estimate_duration)
          (utility_for_tier t bytes prefix_tokens compute estimate_duration)
        ≡ true
  unusable_outscores t s h k l wide m =
      rw (utility_exact s h k m, utility_wraps t h k l wide)
        (ground (arith, penalty_small t bytes k))
