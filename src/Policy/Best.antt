-- ===== src/Policy/Best.antt =====
-- What `NetworkAwarePlacement::place` of src/policy/network_aware.rs promises: which tier it takes,
-- and when it fails.
use kvflow_sim.Base.{
  ℕ, ◌≤◌, ◌<◌, ◌≡◌, refl, sym, ap, subst, ◌∙◌, false, ◌⊎◌, inl, inr, List, [], ◌∷◌, ◌++◌, map, In,
  none, some, arith, ltb, Bool-cases, Option-cases, le→leb, ltb→lt, ltb→le,
}
use kvflow_sim.Base.Int.{ℤ, ltb_ℤ}
use kvflow_sim.Base.Sort.{sort, Sorted, sort-In, sort-Sorted}
use kvflow_sim.Error.{Result, ok, err, invalid_model_profile, no_space_in_any_tier}
use kvflow_sim.Cache.Tier.{TierKind}
use kvflow_sim.Cache.Object.{CacheLocation}
use kvflow_sim.Cache.State
use kvflow_sim.Cache.State.{CacheState, HashOrder, available_space, capacity, pool_of}
use kvflow_sim.Cache.State.Invariant.{insert-IsAccounted, insert-IsWithin}
use kvflow_sim.Cluster.Topology.{ClusterTopology}
use kvflow_sim.Model.Compute.{ComputeModel}
use kvflow_sim.Transfer.Path.{TransferPath}
use kvflow_sim.Policy.Placement.{EvictedKv, PlaceRequest, Placed, object_at, store_at}
use kvflow_sim.Policy.Evict.{evict_lru}
use kvflow_sim.Policy.NetworkAware.{
  NetworkAwarePlacement, location_for, candidates, better, scored, utility_for_tier, settle,
  try_tier, try_tiers, place,
}
use kvflow_sim.Policy.Lru.{Evicts, evict_lru-Ran}
use kvflow_sim.Policy.Room.{
  IsReady, IsConsistent, Evicts-IsReady, evict_lru-room, evict_lru-IsReady, store_at_fits,
}

location_for-pool :
    (n : ℕ) (t : TierKind) (cluster : ClusterTopology) (loc : CacheLocation)
    → location_for n t cluster ≡ some loc
    → pool_of loc ≡ some (n, t)
location_for-pool n t cluster loc e = ground arith

store_at-stores :
    (c : CacheState) (r : PlaceRequest) (loc : CacheLocation) (evicted : List EvictedKv)
    → (store_at c r loc evicted).0 ≡ (State.insert c (object_at r loc)).0
unfolding store_at
store_at-stores c r loc evicted = refl

module _ (self : NetworkAwarePlacement) (order : HashOrder) (cluster : ClusterTopology)
    (r : PlaceRequest) where
  open self use {target_node}

  -- The policy places nothing into the tier, or the whole tier is smaller than the object.
  abbrev pub Unusable : CacheState → TierKind → Type 0
  Unusable c t = (location_for target_node t cluster ≡ none) ⊎ (capacity c target_node t < r.bytes)

  -- The object goes to a location of the tier, behind evictions from that tier alone.
  pub record Takes (c : CacheState) (evicted : List EvictedKv) (t : TierKind) (p : Placed)
      : Type 0 where
    pub loc : CacheLocation
    pub located : location_for target_node t cluster ≡ some loc
    pub big_enough : r.bytes ≤ capacity c target_node t
    pub after : CacheState
    pub victims : List EvictedKv
    pub evicts : Evicts target_node t r.bytes c victims after
    pub stores : p.0 ≡ (State.insert after (object_at r loc)).0
    pub answers : p.1 ≡ ok (loc, evicted ++ victims)

  abbrev refused : Result (CacheLocation × List EvictedKv)
  refused = err (invalid_model_profile (no_space_in_any_tier target_node r.bytes))

  data Tried (c : CacheState) (evicted : List EvictedKv)
      : List (TierKind × ℤ) → Placed → Type 0 where
    nowhere : Tried c evicted [] (c, refused)
    skip :
        {t : TierKind} {u : ℤ} {l : List (TierKind × ℤ)} {p : Placed}
        → Unusable c t
        → Tried c evicted l p
        → Tried c evicted ((t, u) ∷ l) p
    taken :
        {t : TierKind} {u : ℤ} {l : List (TierKind × ℤ)} {p : Placed}
        → Takes c evicted t p
        → Tried c evicted ((t, u) ∷ l) p

  try_tiers-Tried :
      (l : List (TierKind × ℤ)) (c : CacheState) (evicted : List EvictedKv)
      → IsReady r.kv_id c
      → Tried c evicted l (try_tiers self order cluster r l c evicted)
  unfolding try_tiers try_tier settle
  try_tiers-Tried [] c evicted i = nowhere
  try_tiers-Tried ((t, u) ∷ l) c evicted i =
      elim (Option-cases (location_for target_node t cluster)) [
        | inl e ↦ rw e (skip (inl e) (try_tiers-Tried l c evicted i))
        | inr (loc, e) ↦ elim (Bool-cases (ltb (capacity c target_node t) r.bytes)) [
          | inl small ↦
              rw (e, small) (skip (inr (ltb→lt _ _ small)) (try_tiers-Tried l c evicted i))
          | inr big ↦
              let fits = ltb→le _ _ big in
              let (victims, listed, evicts, _) =
                evict_lru-Ran order target_node t r.bytes c evicted i.accounted in
              let room = evict_lru-room order target_node t r.bytes r.kv_id c evicted i fits in
              let ready = evict_lru-IsReady order target_node t r.bytes r.kv_id c evicted i in
              rw (e, big, le→leb _ _ room)
                (taken (record {
                  loc = loc;
                  located = e;
                  big_enough = fits;
                  after = (evict_lru order target_node t r.bytes c evicted).0;
                  victims = victims;
                  evicts = evicts;
                  stores = store_at-stores _ r loc _;
                  answers =
                      store_at_fits _ r loc _ target_node t ready.within
                        (location_for-pool target_node t cluster loc e) room
                      ∙ ap (λ x. ok (loc, x)) listed;
                }))
        ]
      ]

  module _ (compute : ComputeModel) (estimate_duration : TransferPath → ℕ → Result ℕ) where
    -- What the policy scores a tier with.
    abbrev pub utility : TierKind → ℤ
    utility t = utility_for_tier t r.bytes r.prefix_tokens compute estimate_duration

    abbrev pub Usable : CacheState → TierKind → Type 0
    Usable c t = Unusable c t → ⊥

    -- The object goes into a usable tier that no usable tier outscores, or there is none to go into
    -- and the cache is as it was.
    pub data Best (c : CacheState) : Placed → Type 0 where
      found :
          {p : Placed} (t : TierKind)
          → Takes c [] t p
          → ((s : TierKind) → Usable c s → ltb_ℤ (utility t) (utility s) ≡ false)
          → Best c p
      none_usable : ((t : TierKind) → Unusable c t) → Best c (c, refused)

    tiers : List (TierKind × ℤ)
    tiers = map (λ t. (t, utility t)) candidates

    scored-sort : scored r.bytes r.prefix_tokens compute estimate_duration ≡ sort better tiers
    unfolding scored tiers
    scored-sort = refl

    listed_or_Unusable :
        (c : CacheState) (t : TierKind) → Unusable c t ⊎ In (t, utility t) (sort better tiers)
    unfolding tiers
    listed_or_Unusable c TierKind.local_ssd = inl (inl refl)
    listed_or_Unusable c TierKind.gpu = inr ((sort-In better _ tiers).1 (inl refl))
    listed_or_Unusable c TierKind.cpu = inr ((sort-In better _ tiers).1 (inr (inl refl)))
    listed_or_Unusable c TierKind.remote_memory =
        inr ((sort-In better _ tiers).1 (inr (inr (inl refl))))
    listed_or_Unusable c TierKind.remote_ssd =
        inr ((sort-In better _ tiers).1 (inr (inr (inr (inl refl)))))

    score_of : (t : TierKind) (x : TierKind × ℤ) → x ≡ (t, utility t) → x.1 ≡ utility x.0
    score_of t x q =
        ap (λ (y : TierKind × ℤ). y.1) q ∙ sym (ap (λ (y : TierKind × ℤ). utility y.0) q)

    listed_score : (x : TierKind × ℤ) → In x (sort better tiers) → x.1 ≡ utility x.0
    unfolding tiers
    listed_score x i = elim ((sort-In better x tiers).0 i) [
      | inl q ↦ score_of _ x q
      | inr (inl q) ↦ score_of _ x q
      | inr (inr (inl q)) ↦ score_of _ x q
      | inr (inr (inr (inl q))) ↦ score_of _ x q
      | inr (inr (inr (inr j))) ↦ absurd j
    ]

    tiers-Sorted : Sorted better (sort better tiers)
    tiers-Sorted = sort-Sorted better (λ x y h. ground arith) (λ x y z h k. ground arith) tiers

    Tried-Best :
        {c : CacheState} {l : List (TierKind × ℤ)} {p : Placed}
        → Sorted better l
        → ((x : TierKind × ℤ) → In x l → x.1 ≡ utility x.0)
        → ((t : TierKind) → Unusable c t ⊎ In (t, utility t) l)
        → Tried c [] l p
        → Best c p
    Tried-Best s scores all nowhere =
        none_usable (λ t. elim (all t) [ inl u ↦ u | inr i ↦ absurd i ])
    Tried-Best s scores all (skip {t = t} {u = v} u h) =
        Tried-Best s.1 (λ x i. scores x (inr i))
          (λ w. elim (all w) [
            | inl a ↦ inl a
            | inr (inl q) ↦ inl (subst (Unusable _) (sym (ap (λ (x : TierKind × ℤ). x.0) q)) u)
            | inr (inr i) ↦ inr i
          ])
          h
    Tried-Best s scores all (taken {t = t} {u = v} h) = found t h (λ w usable. elim (all w) [
      | inl a ↦ absurd (usable a)
      | inr (inl q) ↦ rw (ap (λ (x : TierKind × ℤ). x.0) q) (ground arith)
      | inr (inr i) ↦
          subst (λ x. ltb_ℤ x (utility w) ≡ false) (scores (t, v) (inl refl)) (s.0 (w, utility w) i)
    ])

    -- In a cache with exact bookkeeping and no overfull tier, and for an id not in use, and in
    -- whatever order the hash map lists the objects, `NetworkAwarePlacement::place` puts the object
    -- into a tier that it has a location for and that is as big as the object, outscored by no
    -- other such tier, behind least-recently-used evictions from that tier alone; where there is no
    -- such tier it fails and leaves the cache as it was.
    pub place-Best :
        (c : CacheState)
        → IsReady r.kv_id c
        → Best c (place self order cluster r compute estimate_duration c)
    unfolding place
    place-Best c i = rw scored-sort (
        Tried-Best tiers-Sorted listed_score (listed_or_Unusable c)
          (try_tiers-Tried (sort better tiers) c [] i))

    -- In a cache with exact bookkeeping and no overfull tier, and for an id not in use,
    -- `NetworkAwarePlacement::place` leaves the bookkeeping exact and no tier overfull, on the
    -- failing paths too.
    pub place-IsConsistent :
        (c : CacheState)
        → IsReady r.kv_id c
        → IsConsistent (place self order cluster r compute estimate_duration c).0
    place-IsConsistent c i = Best-IsConsistent (place-Best c i)
      where
        Best-IsConsistent : {p : Placed} → Best c p → IsConsistent p.0
        Best-IsConsistent (none_usable u) = record { accounted = i.accounted; within = i.within }
        Best-IsConsistent (found t h least) =
            let ready = Evicts-IsReady target_node t r.bytes r.kv_id h.evicts i in
            subst IsConsistent (sym h.stores) (record {
              accounted =
                  insert-IsAccounted h.after (object_at r h.loc) ready.accounted ready.within
                    ready.fresh;
              within = insert-IsWithin h.after (object_at r h.loc) ready.accounted ready.within;
            })
