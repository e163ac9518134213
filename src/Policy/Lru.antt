-- ===== src/Policy/Lru.antt =====
-- What the eviction loop of src/policy does, as a relation, and that the loop follows it and ends.
use kvflow_sim.Base.{
  ℕ, zero, suc, ◌+◌, ◌≤◌, ◌<◌, ◌≡◌, refl, sym, subst, ◌∙◌, true, ◌⊎◌, inl, inr, List, [], ◌∷◌, ◌++◌,
  none, some, arith, ltb, length, In, Bool-cases, Option-cases, ltb→lt, ltb→le, nat_eq, ◌==◌,
}
use mathlib.Core.Option.{some-injective}
use mathlib.Core.List.{append-nil, append_assoc}
use kvflow_sim.Base.Map
use kvflow_sim.Base.Map.{Map, values, total, Distinct, total-erase}
use kvflow_sim.Base.Select.{
  min_by_key, min_by_key-In, min_by_key-le, min_by_key-none, In-keep, keep-In,
}
use kvflow_sim.Cache.Tier.{TierKind}
use kvflow_sim.Cache.Object.{KvObject}
use kvflow_sim.Cache.State.{
  CacheState, HashOrder, available_space, objects_in_tier, location_matches_tier, remove,
}
use kvflow_sim.Cache.State.Accounting.{IsAccounted}
use kvflow_sim.Cache.State.Invariant.{remove_known, remove-IsAccounted}
use kvflow_sim.Policy.Placement.{EvictedKv}
use kvflow_sim.Policy.Evict.{evicted_of, evict_rounds, evict_lru}

-- An object of the state that stands in a tier of a node.
abbrev pub Stands : CacheState → ℕ → TierKind → KvObject → Type 0
Stands c n t o =
    (Map.get o.kv_id c.objects ≡ some o) × (location_matches_tier o.location n t ≡ true)

-- From a state through evictions to another: each happens for want of room, and takes an object of
-- the tier that was used no later than any other there.
pub data Evicts (n : ℕ) (t : TierKind) (bytes : ℕ)
    : CacheState → List EvictedKv → CacheState → Type 0 where
  stop : {c : CacheState} → Evicts n t bytes c [] c
  evict :
      {c d : CacheState} {l : List EvictedKv} (v : KvObject)
      → available_space c n t < bytes
      → Stands c n t v
      → ((o : KvObject) → Stands c n t o → v.last_access_ns ≤ o.last_access_ns)
      → Evicts n t bytes (remove c v.kv_id).0 l d
      → Evicts n t bytes c (evicted_of v ∷ l) d

-- There is room, or nothing is left to evict.
abbrev pub Settled : ℕ → TierKind → ℕ → CacheState → Type 0
Settled n t bytes c = (bytes ≤ available_space c n t) ⊎ ((o : KvObject) → Stands c n t o → ⊥)

In-values : (k : ℕ) (o : KvObject) (m : Map ℕ KvObject) → Map.get k m ≡ some o → In o (values m)
unfolding Map.get
In-values k o [] h = cc
In-values k o ((j, v) ∷ m) h = elim (Bool-cases (j == k)) [
  | inl e ↦ inl (sym (some-injective _ _ (rw e at h)))
  | inr e ↦ inr (In-values k o m (rw e at h))
]

values-In :
    (o : KvObject) (m : Map ℕ KvObject)
    → Distinct m
    → In o (values m)
    → (k : ℕ) × (Map.get k m ≡ some o)
unfolding Map.get
values-In o [] d i = absurd i
values-In o ((j, v) ∷ m) d (inl e) = (j, ground arith)
values-In o ((j, v) ∷ m) d (inr i) = let (k, g) = values-In o m d.1 i in (k, ground (arith, g, d.0))

module _ (order : HashOrder) (c : CacheState) (n : ℕ) (t : TierKind) where
  listed_Stands :
      (o : KvObject) → IsAccounted c → In o (objects_in_tier order c n t) → Stands c n t o
  unfolding objects_in_tier
  listed_Stands o a i =
      let (seen, matches) =
        In-keep (λ (x : KvObject). location_matches_tier x.location n t) o
          (order.visit (values c.objects)) i in
      let (k, g) =
        values-In o c.objects a.distinct ((order.visit-In o (values c.objects)).0 seen) in
      (subst (λ j. Map.get j c.objects ≡ some o) (sym (a.keyed k o g)) g, matches)

  Stands-listed : (o : KvObject) → Stands c n t o → In o (objects_in_tier order c n t)
  unfolding objects_in_tier
  Stands-listed o s =
      keep-In _ o _ ((order.visit-In o (values c.objects)).1 (In-values o.kv_id o c.objects s.0))
        s.1

  victim_Stands :
      (v : KvObject)
      → IsAccounted c
      → min_by_key (λ (o : KvObject). o.last_access_ns) (objects_in_tier order c n t) ≡ some v
      → Stands c n t v × ((o : KvObject) → Stands c n t o → v.last_access_ns ≤ o.last_access_ns)
  victim_Stands v a e = (
    listed_Stands v a (min_by_key-In _ (objects_in_tier order c n t) e),
    λ o s. min_by_key-le _ (objects_in_tier order c n t) o e (Stands-listed o s),
  )

  none-Stands :
      min_by_key (λ (o : KvObject). o.last_access_ns) (objects_in_tier order c n t) ≡ none
      → (o : KvObject) → Stands c n t o
      → ⊥
  none-Stands e o s =
      subst (In o) (min_by_key-none _ (objects_in_tier order c n t) e) (Stands-listed o s)

length-erase :
    (m : Map ℕ KvObject) (k : ℕ) (o : KvObject)
    → Distinct m
    → Map.get k m ≡ some o
    → length (Map.erase k m) + 1 ≡ length m
length-erase m k o d e =
    omega (arith, total-erase (λ x. 1) k m {v = o} d e, total-one m, total-one (Map.erase k m))
  where
    total-one : (l : Map ℕ KvObject) → total (λ x. 1) l ≡ length l
    total-one [] = refl
    total-one (x ∷ l) = omega (arith, total-one l)

length-remove :
    (c : CacheState) (v : KvObject)
    → IsAccounted c
    → Map.get v.kv_id c.objects ≡ some v
    → length (remove c v.kv_id).0.objects + 1 ≡ length c.objects
length-remove c v a e =
    rw (remove_known c v.kv_id v e) (length-erase c.objects v.kv_id v a.distinct e)

-- What the loop hands back: the state, and the evictions behind those before it.
abbrev pub Ran :
    ℕ → TierKind → ℕ → CacheState → List EvictedKv → CacheState × List EvictedKv → Type 0
Ran n t bytes c before r =
    (l : List EvictedKv) × (r.1 ≡ before ++ l) × Evicts n t bytes c l r.0 × Settled n t bytes r.0

module _ (order : HashOrder) (n : ℕ) (t : TierKind) (bytes : ℕ) where
  evict_rounds-Ran :
      (fuel : ℕ) (c : CacheState) (before : List EvictedKv)
      → IsAccounted c
      → length c.objects < fuel
      → Ran n t bytes c before (evict_rounds order n t bytes fuel c before)
  unfolding evict_rounds
  evict_rounds-Ran zero c before a f = absurd (omega arith)
  evict_rounds-Ran (suc fuel) c before a f = elim (Bool-cases (ltb (available_space c n t) bytes)) [
    | inr roomy ↦
        rw (roomy, evict_rounds) ([], sym (append-nil before), stop, inl (ltb→le _ _ roomy))
    | inl tight ↦
        elim (Option-cases
          (min_by_key (λ (o : KvObject). o.last_access_ns) (objects_in_tier order c n t))) [
            | inl e ↦
                rw (tight, evict_rounds)
                  (rw (e, evict_rounds)
                    ([], sym (append-nil before), stop, inr (none-Stands order c n t e)))
            | inr (v, e) ↦
                let (stands, least) = victim_Stands order c n t v a e in
                let ih =
                  evict_rounds-Ran fuel (remove c v.kv_id).0 (before ++ evicted_of v ∷ [])
                    (remove-IsAccounted c v.kv_id a)
                    (omega (arith, length-remove c v a stands.0)) in
                rw (tight, evict_rounds)
                  (rw (e, evict_rounds)
                    (
                      evicted_of v ∷ ih.0,
                      ih.1 ∙ append_assoc before (evicted_of v ∷ []) ih.0,
                      evict v (ltb→lt _ _ tight) stands least ih.2,
                      ih.3,
                    ))
          ]
  ]

  -- With exact bookkeeping, and in whatever order the hash map lists the objects, the eviction loop
  -- ends, evicts only for want of room and always a least recently used object of the tier, and
  -- stops with room for the object or with nothing left in the tier.
  pub evict_lru-Ran :
      (c : CacheState) (before : List EvictedKv)
      → IsAccounted c
      → Ran n t bytes c before (evict_lru order n t bytes c before)
  unfolding evict_lru
  evict_lru-Ran c before a = evict_rounds-Ran (suc (length c.objects)) c before a (omega arith)
