-- ===== src/Policy/Offload.antt =====
-- What `CpuOffloadLru::place` of src/policy/cpu_offload_lru.rs and `LocalGpuLru::place` of
-- src/policy/local_gpu_lru.rs promise.
use kvflow_sim.Base.{
  ℕ, ◌≤◌, ◌≡◌, refl, ap, ◌∙◌, ◌⊎◌, inl, inr, List, [], none, some, arith, leb, Bool-cases,
  Option-cases, le→leb, leb→le, nat_eq, pair_eq,
}
use kvflow_sim.Base.Map
use kvflow_sim.Base.Map.{get-insert}
use kvflow_sim.Cache.State.Accounting.{IsWithin}
use kvflow_sim.Cache.State.Invariant.{insert-Inserted, overflowed, stored}
use kvflow_sim.Cache.Tier.{TierKind}
use kvflow_sim.Cache.Object.{CacheLocation}
use kvflow_sim.Cache.State.{CacheState, HashOrder, available_space, capacity, pool_of, lookup}
use kvflow_sim.Cluster.Topology.{ClusterTopology, node}
use kvflow_sim.Policy.Placement.{EvictedKv, PlaceRequest, Placed, store_at, object_at}
use kvflow_sim.Policy.Evict.{evict_lru}
use kvflow_sim.Policy.LocalGpuLru
use kvflow_sim.Policy.LocalGpuLru.{
  LocalGpuLru, first_gpu_of, find_gpu_with_space, fall_back, after_eviction,
}
use kvflow_sim.Policy.CpuOffloadLru
use kvflow_sim.Policy.CpuOffloadLru.{
  CpuOffloadLru, try_place_in_tier, location_in, on_gpu, try_tier, after_cpu, after_gpu,
}
use kvflow_sim.Policy.Room.{
  IsReady, IsConsistent, evict_lru-room, evict_lru-IsReady, evict_lru-capacity, evict_lru-available,
  store_at-IsConsistent, store_at_fits,
}
use kvflow_sim.Policy.Outcome.{PlacedAt}

-- The placement succeeds on a GPU or in the host memory of a node: the object is in the cache there,
-- and `lookup` finds it.
pub record Lands (n : ℕ) (r : PlaceRequest) (p : Placed) : Type 0 where
  pub loc : CacheLocation
  pub near : (pool_of loc ≡ some (n, TierKind.gpu)) ⊎ (pool_of loc ≡ some (n, TierKind.cpu))
  pub placed : PlacedAt loc p
  pub stored : Map.get r.kv_id (p.0).objects ≡ some (object_at r loc)
  pub found : lookup p.0 r.session_id r.prefix_tokens ≡ some (object_at r loc)

location_in-pool :
    (cluster : ClusterTopology) (n : ℕ) (t : TierKind) (loc : CacheLocation)
    → location_in cluster n t ≡ some loc
    → pool_of loc ≡ some (n, t)
location_in-pool cluster n t loc e = ground arith

store_at_stored :
    (c : CacheState) (r : PlaceRequest) (loc : CacheLocation) (evicted : List EvictedKv) (n : ℕ)
    (t : TierKind)
    → IsWithin c
    → pool_of loc ≡ some (n, t)
    → r.bytes ≤ available_space c n t
    → (Map.get r.kv_id ((store_at c r loc evicted).0).objects ≡ some (object_at r loc))
      × (lookup (store_at c r loc evicted).0 r.session_id r.prefix_tokens ≡ some (object_at r loc))
unfolding store_at lookup
store_at_stored c r loc evicted n t w pool room = elim (insert-Inserted c (object_at r loc) w) [
  | overflowed m s p h e ↦
      absurd (let fine = rw e at (store_at_fits c r loc evicted n t w pool room) in ground arith)
  | stored fits e ↦
      let key : ℕ × ℕ = (r.session_id, r.prefix_tokens) in
      let object = get-insert r.kv_id r.kv_id (object_at r loc) c.objects in
      let entry = get-insert key key r.kv_id c.by_session_prefix in
      rw e (ground (arith, object), ground (arith, object, entry))
]

-- What is stored at a location with room is stored, and the cache stays consistent.
stored_near :
    (c : CacheState) (r : PlaceRequest) (loc : CacheLocation) (evicted : List EvictedKv) (n : ℕ)
    (t : TierKind)
    → (t ≡ TierKind.gpu) ⊎ (t ≡ TierKind.cpu)
    → IsReady r.kv_id c
    → pool_of loc ≡ some (n, t)
    → r.bytes ≤ available_space c n t
    → IsConsistent (store_at c r loc evicted).0 × Lands n r (store_at c r loc evicted)
stored_near c r loc evicted n t local i pool room = (
  store_at-IsConsistent c r loc evicted i,
  record {
    loc = loc;
    near = elim local [
      | inl q ↦ inl (pool ∙ ap (λ x. some (n, x)) q)
      | inr q ↦ inr (pool ∙ ap (λ x. some (n, x)) q)
    ];
    placed = (evicted, store_at_fits c r loc evicted n t i.within pool room);
    stored = (store_at_stored c r loc evicted n t i.within pool room).0;
    found = (store_at_stored c r loc evicted n t i.within pool room).1;
  },
)

-- The cache is consistent, and the object stored if there was enough of something.
abbrev pub Kept : ℕ → PlaceRequest → Type 0 → Placed → Type 0
Kept n r Enough p = IsConsistent p.0 × (Enough → Lands n r p)

module _ (self : CpuOffloadLru) (order : HashOrder) (cluster : ClusterTopology)
    (r : PlaceRequest) where
  open self use {target_node}

  found :
      (t : TierKind) (c : CacheState) (loc : CacheLocation)
      → try_place_in_tier cluster c target_node t r.bytes ≡ some loc
      → (r.bytes ≤ available_space c target_node t) × (location_in cluster target_node t ≡ some loc)
  unfolding try_place_in_tier
  found t c loc e = ground arith

  try_tier-Kept :
      {Enough : Type 0} (t : TierKind) (c : CacheState) (evicted : List EvictedKv)
      (otherwise : Placed)
      → (t ≡ TierKind.gpu) ⊎ (t ≡ TierKind.cpu)
      → IsReady r.kv_id c
      → (try_place_in_tier cluster c target_node t r.bytes ≡ none
          → Kept target_node r Enough otherwise)
      → Kept target_node r Enough (try_tier self order cluster r t c evicted otherwise)
  unfolding try_tier
  try_tier-Kept t c evicted otherwise local i next =
      elim (Option-cases (try_place_in_tier cluster c target_node t r.bytes)) [
        | inl e ↦ rw (e, try_tier) (next e)
        | inr (loc, e) ↦
            let (roomy, located) = found t c loc e in
            let kept =
              stored_near c r loc evicted target_node t local i
                (location_in-pool cluster target_node t loc located) roomy in
            rw (e, try_tier) (kept.0, λ enough. kept.1)
      ]

  host_refuses :
      (c : CacheState)
      → r.bytes ≤ available_space c target_node TierKind.cpu
      → try_place_in_tier cluster c target_node TierKind.cpu r.bytes ≡ none
      → ⊥
  unfolding try_place_in_tier
  host_refuses c room e = ground arith

  cpu_offload-Kept :
      (c : CacheState)
      → IsReady r.kv_id c
      → IsConsistent (CpuOffloadLru.place self order cluster r c).0
        × (r.bytes ≤ capacity c target_node TierKind.cpu
            → Lands target_node r (CpuOffloadLru.place self order cluster r c))
  unfolding CpuOffloadLru.place after_gpu after_cpu
  cpu_offload-Kept c i =
      let n = target_node in
      let e = evict_lru order n TierKind.gpu r.bytes c [] in
      let j = evict_lru-IsReady order n TierKind.gpu r.bytes r.kv_id c [] i in
      let same = evict_lru-capacity order n TierKind.gpu r.bytes c [] n TierKind.cpu i.accounted in
      let f = evict_lru order n TierKind.cpu r.bytes e.0 e.1 in
      let k = evict_lru-IsReady order n TierKind.cpu r.bytes r.kv_id e.0 e.1 j in
      try_tier-Kept TierKind.gpu c [] _ (inl refl) i (λ _.
        try_tier-Kept TierKind.gpu e.0 e.1 _ (inl refl) j (λ _.
          try_tier-Kept TierKind.cpu e.0 e.1 _ (inr refl) j (λ _.
            try_tier-Kept TierKind.cpu f.0 f.1 _ (inr refl) k (λ none_left. (
              record { accounted = k.accounted; within = k.within },
              λ enough. absurd (
                  host_refuses f.0
                    (evict_lru-room order n TierKind.cpu r.bytes r.kv_id e.0 e.1 j (rw same enough))
                    none_left),
            )))))

  -- In a cache with exact bookkeeping and no overfull tier, and for an id not in use,
  -- `CpuOffloadLru::place` leaves the bookkeeping exact and no tier overfull, on the failing paths
  -- too.
  pub cpu_offload-IsConsistent :
      (c : CacheState)
      → IsReady r.kv_id c
      → IsConsistent (CpuOffloadLru.place self order cluster r c).0
  cpu_offload-IsConsistent c i = (cpu_offload-Kept c i).0

  -- In a cache with exact bookkeeping and no overfull tier, and for an id not in use, wherever the
  -- host tier as a whole is as big as the object, `CpuOffloadLru::place` succeeds, the object is in
  -- the cache on the GPU tier or on the host of its node, as the answer says, and `lookup` finds
  -- it.
  pub cpu_offload-Lands :
      (c : CacheState)
      → IsReady r.kv_id c
      → r.bytes ≤ capacity c target_node TierKind.cpu
      → Lands target_node r (CpuOffloadLru.place self order cluster r c)
  cpu_offload-Lands c i fits = (cpu_offload-Kept c i).1 fits

module _ (self : LocalGpuLru) (order : HashOrder) (cluster : ClusterTopology)
    (r : PlaceRequest) where
  open self use {target_node}

  -- The node has a GPU and its GPU tier is as big as the object, or the host has room as it is.
  abbrev pub Roomy : CacheState → Type 0
  Roomy c =
      (((g : ℕ) × (first_gpu_of (node cluster target_node) ≡ some g))
        × (r.bytes ≤ capacity c target_node TierKind.gpu))
      ⊎ (r.bytes ≤ available_space c target_node TierKind.cpu)

  gpu_found :
      (c : CacheState) (g : ℕ)
      → find_gpu_with_space cluster c target_node r.bytes ≡ some g
      → r.bytes ≤ available_space c target_node TierKind.gpu
  unfolding find_gpu_with_space
  gpu_found c g e = ground arith

  gpu_refuses :
      (c : CacheState) (g : ℕ)
      → find_gpu_with_space cluster c target_node r.bytes ≡ none
      → first_gpu_of (node cluster target_node) ≡ some g
      → r.bytes ≤ available_space c target_node TierKind.gpu
      → ⊥
  unfolding find_gpu_with_space
  gpu_refuses c g e h room = ground arith

  fall_back-Kept :
      {Enough : Type 0} (c : CacheState) (evicted : List EvictedKv)
      → IsReady r.kv_id c
      → (Enough → r.bytes ≤ available_space c target_node TierKind.cpu)
      → Kept target_node r Enough (fall_back self order cluster r c evicted)
  unfolding fall_back
  fall_back-Kept c evicted i enough =
      elim (Bool-cases (leb r.bytes (available_space c target_node TierKind.cpu))) [
        | inl e ↦
            let kept =
              stored_near c r (CacheLocation.cpu target_node) evicted target_node TierKind.cpu
                (inr refl) i refl (leb→le _ _ e) in
            rw (e, fall_back) (kept.0, λ h. kept.1)
        | inr e ↦
            rw (e, fall_back)
              (
                record { accounted = i.accounted; within = i.within },
                λ h. absurd (ground (arith, enough h)),
              )
      ]

  after_eviction-Kept :
      {Enough : Type 0} (c : CacheState) (evicted : List EvictedKv)
      → IsReady r.kv_id c
      → (find_gpu_with_space cluster c target_node r.bytes ≡ none
          → Enough
          → r.bytes ≤ available_space c target_node TierKind.cpu)
      → Kept target_node r Enough (after_eviction self order cluster r (c, evicted))
  unfolding after_eviction
  after_eviction-Kept c evicted i enough =
      elim (Option-cases (find_gpu_with_space cluster c target_node r.bytes)) [
        | inl e ↦ elim (Bool-cases (leb r.bytes (available_space c target_node TierKind.gpu))) [
          | inl roomy ↦
              rw (roomy, after_eviction)
                (rw (e, after_eviction) (fall_back-Kept c evicted i (enough e)))
          | inr tight ↦ rw (tight, after_eviction) (fall_back-Kept c evicted i (enough e))
        ]
        | inr (g, e) ↦
            let kept =
              stored_near c r (CacheLocation.gpu target_node g) evicted target_node TierKind.gpu
                (inl refl) i refl (gpu_found c g e) in
            rw (le→leb _ _ (gpu_found c g e), after_eviction)
              (rw (e, after_eviction) (kept.0, λ h. kept.1))
      ]

  local_gpu-Kept :
      (c : CacheState)
      → IsReady r.kv_id c
      → IsConsistent (LocalGpuLru.place self order cluster r c).0
        × (Roomy c → Lands target_node r (LocalGpuLru.place self order cluster r c))
  unfolding LocalGpuLru.place
  local_gpu-Kept c i =
      let n = target_node in
      let e = evict_lru order n TierKind.gpu r.bytes c [] in
      elim (Option-cases (find_gpu_with_space cluster c n r.bytes)) [
        | inr (g, e) ↦
            let kept =
              stored_near c r (CacheLocation.gpu n g) [] n TierKind.gpu (inl refl) i refl
                (gpu_found c g e) in
            rw (e, LocalGpuLru.place) (kept.0, λ h. kept.1)
        | inl none_yet ↦
            rw (none_yet, LocalGpuLru.place)
              (after_eviction-Kept e.0 e.1
                (evict_lru-IsReady order n TierKind.gpu r.bytes r.kv_id c [] i)
                (λ none_left roomy. elim roomy [
                  | inl (gpu, fits) ↦ absurd (
                      gpu_refuses e.0 gpu.0 none_left gpu.1
                        (evict_lru-room order n TierKind.gpu r.bytes r.kv_id c [] i fits))
                  | inr room ↦
                      rw
                        (evict_lru-available order n TierKind.gpu r.bytes c [] TierKind.cpu
                          (λ q. cc) i.accounted)
                        room
                ]))
      ]

  -- In a cache with exact bookkeeping and no overfull tier, and for an id not in use,
  -- `LocalGpuLru::place` leaves the bookkeeping exact and no tier overfull, on the failing paths
  -- too.
  pub local_gpu-IsConsistent :
      (c : CacheState)
      → IsReady r.kv_id c
      → IsConsistent (LocalGpuLru.place self order cluster r c).0
  local_gpu-IsConsistent c i = (local_gpu-Kept c i).0

  -- In a cache with exact bookkeeping and no overfull tier, and for an id not in use, and wherever
  -- the node has a GPU and its GPU tier as a whole is as big as the object, or the host tier has
  -- room for it without eviction, `LocalGpuLru::place` succeeds, the object is in the cache on the
  -- GPU tier or on the host of its node, as the answer says, and `lookup` finds it.
  pub local_gpu-Lands :
      (c : CacheState)
      → IsReady r.kv_id c
      → Roomy c
      → Lands target_node r (LocalGpuLru.place self order cluster r c)
  local_gpu-Lands c i roomy = (local_gpu-Kept c i).1 roomy
