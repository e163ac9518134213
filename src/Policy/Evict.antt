-- ===== src/Policy/Evict.antt =====
-- The eviction loop that the policies share: while the tier has no room for the object, remove the
-- least recently used object there. (src/policy/network_aware.rs, and word for word in the others.)
use kvflow_sim.Base.{ℕ, zero, suc, true, false, List, [], ◌∷◌, ◌++◌, none, some, ltb, length}
use kvflow_sim.Base.Select.{min_by_key}
use kvflow_sim.Cache.Tier.{TierKind}
use kvflow_sim.Cache.Object.{KvObject}
use kvflow_sim.Cache.State.{CacheState, HashOrder, available_space, objects_in_tier, remove}
use kvflow_sim.Policy.Placement.{EvictedKv}

abbrev pub evicted_of : KvObject → EvictedKv
evicted_of v = record { kv_id = v.kv_id; bytes = v.bytes }

module _ (order : HashOrder) (node_id : ℕ) (tier : TierKind) (bytes : ℕ) where
  -- Each round removes an object, so there are no more rounds than objects.
  unfoldable pub evict_rounds : ℕ → CacheState → List EvictedKv → CacheState × List EvictedKv
  evict_rounds zero c evicted = (c, evicted)
  evict_rounds (suc fuel) c evicted = elim (ltb (available_space c node_id tier) bytes) [
    | false ↦ (c, evicted)
    | true ↦
        elim (min_by_key (λ (o : KvObject). o.last_access_ns)
          (objects_in_tier order c node_id tier)) [
            | none ↦ (c, evicted)
            | some victim ↦
                evict_rounds fuel (remove c victim.kv_id).0 (evicted ++ evicted_of victim ∷ [])
          ]
  ]

  unfoldable pub evict_lru : CacheState → List EvictedKv → CacheState × List EvictedKv
  unfolding evict_rounds
  evict_lru c evicted = evict_rounds (suc (length c.objects)) c evicted
