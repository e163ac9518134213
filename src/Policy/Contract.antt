-- ===== src/Policy/Contract.antt =====
-- What every policy of src/policy does to the cache: it takes objects out, and then at most puts the
-- one of the request in.
use kvflow_sim.Base.{
  ℕ, zero, suc, inl, inr, true, false, List, [], ◌∷◌, Option, none, some, ltb, leb, length, Bool,
  if◌then◌else◌, Bool-cases, Option-cases,
}
use kvflow_sim.Base.Select.{min_by_key}
use kvflow_sim.Base.Int.{ℤ}
use kvflow_sim.Cache.Tier.{TierKind}
use kvflow_sim.Cache.Object.{CacheLocation, KvObject}
use kvflow_sim.Cache.State.{
  CacheState, HashOrder, available_space, capacity, objects_in_tier, remove, insert,
}
use kvflow_sim.Cluster.Topology.{ClusterTopology}
use kvflow_sim.Model.Compute.{ComputeModel}
use kvflow_sim.Transfer.Path.{TransferPath}
use kvflow_sim.Transfer.Model.{TransferModel}
use kvflow_sim.Error.{Result}
use kvflow_sim.Policy.Placement.{EvictedKv, PlaceRequest, Placed, object_at, store_at}
use kvflow_sim.Policy.Evict.{evict_rounds, evict_lru}
use kvflow_sim.Policy.LocalGpuLru
use kvflow_sim.Policy.LocalGpuLru.{LocalGpuLru, find_gpu_with_space, fall_back}
use kvflow_sim.Policy.CpuOffloadLru
use kvflow_sim.Policy.CpuOffloadLru.{CpuOffloadLru, try_place_in_tier}
use kvflow_sim.Policy.Baselines.{RemoteLru, SizeAware, tier_for, remote_lru, size_aware}
use kvflow_sim.Policy.NetworkAware
use kvflow_sim.Policy.NetworkAware.{NetworkAwarePlacement, scored}
use kvflow_sim.Policy.Interface.{
  PlacementPolicy, local_gpu_lru, cpu_offload_lru, remote, sized, network_aware,
}

-- From a state through removals to another.
pub data Cleared : CacheState → CacheState → Type 0 where
  stop : {c : CacheState} → Cleared c c
  take : {c d : CacheState} (k : ℕ) → Cleared (remove c k).0 d → Cleared c d

pub follows : {c d e : CacheState} → Cleared c d → Cleared d e → Cleared c e
follows stop h = h
follows (take k g) h = take k (follows g h)

-- Removals, and at most the insertion of the object of the request.
pub data Behaves (r : PlaceRequest) (c : CacheState) : CacheState → Type 0 where
  leaves : {d : CacheState} → Cleared c d → Behaves r c d
  puts :
      {d : CacheState} (loc : CacheLocation)
      → Cleared c d
      → Behaves r c (insert d (object_at r loc)).0

-- The contract of a policy: whatever it is asked, in whatever state, and however it ends.
pub record IsLawful {P M : Type 0} (policy : PlacementPolicy P M) : Type 0 where
  pub behaves :
      (p : P) (m : M) (model : TransferModel M) (r : PlaceRequest) (cluster : ClusterTopology)
      (c : CacheState) (compute : ComputeModel)
      → Behaves r c (policy.place p m model r cluster c compute).1.0

module _ (order : HashOrder) where
  rounds-Cleared :
      (n : ℕ) (t : TierKind) (bytes fuel : ℕ) (c : CacheState) (evicted : List EvictedKv)
      → Cleared c (evict_rounds order n t bytes fuel c evicted).0
  unfolding evict_rounds
  rounds-Cleared n t bytes zero c evicted = stop
  rounds-Cleared n t bytes (suc fuel) c evicted =
      elim (Bool-cases (ltb (available_space c n t) bytes)) [
        | inr room ↦ rw (room, evict_rounds) stop
        | inl tight ↦
            elim (Option-cases
              (min_by_key (λ (o : KvObject). o.last_access_ns) (objects_in_tier order c n t))) [
                | inl empty ↦ rw (tight, evict_rounds) (rw (empty, evict_rounds) stop)
                | inr (v, oldest) ↦
                    rw (tight, evict_rounds)
                      (rw (oldest, evict_rounds) (take v.kv_id (rounds-Cleared n t bytes fuel _ _)))
              ]
      ]

  evict_lru-Cleared :
      (n : ℕ) (t : TierKind) (bytes : ℕ) (c : CacheState) (evicted : List EvictedKv)
      → Cleared c (evict_lru order n t bytes c evicted).0
  unfolding evict_lru
  evict_lru-Cleared n t bytes c evicted =
      rounds-Cleared n t bytes (suc (length c.objects)) c evicted

  module _ (r : PlaceRequest) where
    store_at-Behaves :
        {c : CacheState} (d : CacheState) (loc : CacheLocation) (evicted : List EvictedKv)
        → Cleared c d
        → Behaves r c (store_at d r loc evicted).0
    unfolding store_at
    store_at-Behaves d loc evicted h = puts loc h

    abbrev Goes : CacheState → Placed → Type 0
    Goes c p = Behaves r c p.0

    branch :
        {c : CacheState} (b : Bool) (x y : Placed)
        → Goes c x
        → Goes c y
        → Goes c (if b then x else y)
    branch true x y g h = g
    branch false x y g h = h

    found :
        {c : CacheState} {A : Type 0} (o : Option A) (f : A → Placed) (y : Placed)
        → ((a : A) → Goes c (f a))
        → Goes c y
        → Goes c (elim o [ none ↦ y | some a ↦ f a ])
    found none f y g h = h
    found (some a) f y g h = g a

    module _ (self : LocalGpuLru) (cluster : ClusterTopology) where
      open self use {target_node}

      fall_back-Goes :
          {c : CacheState} (d : CacheState) (evicted : List EvictedKv)
          → Cleared c d
          → Goes c (fall_back self order cluster r d evicted)
      unfolding fall_back
      fall_back-Goes d evicted h =
          branch (leb r.bytes (available_space d target_node TierKind.cpu)) _ _
            (store_at-Behaves d (CacheLocation.cpu target_node) evicted h) (leaves h)

      local_gpu-Goes : (c : CacheState) → Goes c (LocalGpuLru.place self order cluster r c)
      unfolding LocalGpuLru.place LocalGpuLru.after_eviction
      local_gpu-Goes c =
          let e = evict_lru order target_node TierKind.gpu r.bytes c [] in
          let h = evict_lru-Cleared target_node TierKind.gpu r.bytes c [] in
          found (find_gpu_with_space cluster c target_node r.bytes) _ _
            (λ g. store_at-Behaves c (CacheLocation.gpu target_node g) [] stop)
            (branch (leb r.bytes (available_space e.0 target_node TierKind.gpu)) _ _
              (found (find_gpu_with_space cluster e.0 target_node r.bytes) _ _
                (λ g. store_at-Behaves e.0 (CacheLocation.gpu target_node g) e.1 h)
                (fall_back-Goes e.0 e.1 h))
              (fall_back-Goes e.0 e.1 h))

    module _ (self : CpuOffloadLru) (cluster : ClusterTopology) where
      open self use {target_node}

      in_tier-Goes :
          {c : CacheState} (tier : TierKind) (d : CacheState) (evicted : List EvictedKv)
          (otherwise : Placed)
          → Cleared c d
          → Goes c otherwise
          → Goes c (CpuOffloadLru.try_tier self order cluster r tier d evicted otherwise)
      unfolding CpuOffloadLru.try_tier
      in_tier-Goes tier d evicted otherwise h g =
          found (try_place_in_tier cluster d target_node tier r.bytes) _ _
            (λ loc. store_at-Behaves d loc evicted h) g

      cpu_offload-Goes : (c : CacheState) → Goes c (CpuOffloadLru.place self order cluster r c)
      unfolding CpuOffloadLru.place CpuOffloadLru.after_gpu CpuOffloadLru.after_cpu
      cpu_offload-Goes c =
          let e = evict_lru order target_node TierKind.gpu r.bytes c [] in
          let h = evict_lru-Cleared target_node TierKind.gpu r.bytes c [] in
          let f = evict_lru order target_node TierKind.cpu r.bytes e.0 e.1 in
          let k = follows h (evict_lru-Cleared target_node TierKind.cpu r.bytes e.0 e.1) in
          in_tier-Goes TierKind.gpu c [] _ stop (
            in_tier-Goes TierKind.gpu e.0 e.1 _ h (
              in_tier-Goes TierKind.cpu e.0 e.1 _ h
                (in_tier-Goes TierKind.cpu f.0 f.1 _ k (leaves k))))

    remote-Goes : (self : RemoteLru) (c : CacheState) → Goes c (remote_lru self order r c)
    unfolding remote_lru
    remote-Goes self c =
        store_at-Behaves _ _ _
          (evict_lru-Cleared self.target_node TierKind.remote_memory r.bytes c [])

    sized-Goes : (self : SizeAware) (c : CacheState) → Goes c (size_aware self order r c)
    unfolding size_aware
    sized-Goes self c =
        store_at-Behaves _ _ _
          (evict_lru-Cleared self.target_node (tier_for self r.bytes) r.bytes c [])

    module _ (self : NetworkAwarePlacement) (cluster : ClusterTopology) where
      open self use {target_node}

      tier-Goes :
          {c : CacheState} (tier : TierKind) (o : Option CacheLocation)
          (next : CacheState → List EvictedKv → Placed) (d : CacheState) (evicted : List EvictedKv)
          → ((b : CacheState) (l : List EvictedKv) → Cleared c b → Goes c (next b l))
          → Cleared c d
          → Goes c (NetworkAware.try_tier self order cluster r tier o next d evicted)
      unfolding NetworkAware.try_tier NetworkAware.settle
      tier-Goes tier none next d evicted g h = g d evicted h
      tier-Goes tier (some loc) next d evicted g h =
          let e = evict_lru order target_node tier r.bytes d evicted in
          let k = follows h (evict_lru-Cleared target_node tier r.bytes d evicted) in
          branch (ltb (capacity d target_node tier) r.bytes) _ _ (g d evicted h) (
            branch (leb r.bytes (available_space e.0 target_node tier)) _ _
              (store_at-Behaves e.0 loc e.1 k) (g e.0 e.1 k))

      scored-Goes :
          {c : CacheState} (l : List (TierKind × ℤ)) (d : CacheState) (evicted : List EvictedKv)
          → Cleared c d
          → Goes c (NetworkAware.try_tiers self order cluster r l d evicted)
      unfolding NetworkAware.try_tiers
      scored-Goes [] d evicted h = leaves h
      scored-Goes ((tier, score) ∷ l) d evicted h =
          tier-Goes tier (NetworkAware.location_for target_node tier cluster)
            (NetworkAware.try_tiers self order cluster r l) d evicted (scored-Goes l) h

      network_aware-Goes :
          (compute : ComputeModel) (estimate_duration : TransferPath → ℕ → Result ℕ)
          (c : CacheState)
          → Goes c (NetworkAware.place self order cluster r compute estimate_duration c)
      unfolding NetworkAware.place
      network_aware-Goes compute estimate_duration c =
          scored-Goes (scored r.bytes r.prefix_tokens compute estimate_duration) c [] stop

module _ {M : Type 0} (order : HashOrder) where
  pub local_gpu_lru-IsLawful : IsLawful {M = M} (local_gpu_lru order)
  local_gpu_lru-IsLawful = record {
    behaves = λ p m model r cluster c compute. local_gpu-Goes order r p cluster c;
  }

  pub cpu_offload_lru-IsLawful : IsLawful {M = M} (cpu_offload_lru order)
  cpu_offload_lru-IsLawful = record {
    behaves = λ p m model r cluster c compute. cpu_offload-Goes order r p cluster c;
  }

  pub remote-IsLawful : IsLawful {M = M} (remote order)
  remote-IsLawful = record { behaves = λ p m model r cluster c compute. remote-Goes order r p c }

  pub sized-IsLawful : IsLawful {M = M} (sized order)
  sized-IsLawful = record { behaves = λ p m model r cluster c compute. sized-Goes order r p c }

  pub network_aware-IsLawful : IsLawful {M = M} (network_aware order)
  network_aware-IsLawful = record {
    behaves = λ p m model r cluster c compute.
        network_aware-Goes order r p cluster compute (model.estimate_duration m) c;
  }

  -- Each of the five policies, whatever it is asked and in whatever state, takes objects out of the
  -- cache and then at most inserts the one object of the request, also where it fails.
  pub policies-IsLawful :
      IsLawful {M = M} (local_gpu_lru order)
      × IsLawful {M = M} (cpu_offload_lru order)
      × IsLawful {M = M} (remote order)
      × IsLawful {M = M} (sized order)
      × IsLawful {M = M} (network_aware order)
  policies-IsLawful = (
    local_gpu_lru-IsLawful, cpu_offload_lru-IsLawful, remote-IsLawful, sized-IsLawful,
    network_aware-IsLawful,
  )
