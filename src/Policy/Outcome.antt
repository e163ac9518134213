-- ===== src/Policy/Outcome.antt =====
-- What the policies of src/policy/baselines.rs promise of `place`: when it succeeds, where the object goes, and
-- that the cache stays consistent on every path, the failing ones included.
use kvflow_sim.Base.{ℕ, ◌≤◌, ◌≡◌, refl, List, [], some, arith}
use kvflow_sim.Error.{ok}
use kvflow_sim.Cache.Tier.{TierKind}
use kvflow_sim.Cache.Object.{CacheLocation}
use kvflow_sim.Cache.State.{CacheState, HashOrder, capacity, pool_of}
use kvflow_sim.Policy.Placement.{EvictedKv, PlaceRequest, Placed}
use kvflow_sim.Policy.Evict.{evict_lru}
use kvflow_sim.Policy.Baselines.{
  RemoteLru, SizeAware, remote_lru, size_aware, tier_for, location_for, store_after,
}
use kvflow_sim.Policy.Room.{
  IsReady, IsConsistent, evict_lru-room, evict_lru-IsReady, store_at-IsConsistent, store_at_fits,
}

-- The placement succeeds at a location, with some list of evictions.
abbrev pub PlacedAt : CacheLocation → Placed → Type 0
PlacedAt loc p = (l : List EvictedKv) × (p.1 ≡ ok (loc, l))

module _ (order : HashOrder) (r : PlaceRequest) (c : CacheState) (i : IsReady r.kv_id c) where
  -- Evict from the tier of the location, and store there.
  after_eviction_fits :
      (n : ℕ) (t : TierKind) (loc : CacheLocation)
      → pool_of loc ≡ some (n, t)
      → r.bytes ≤ capacity c n t
      → PlacedAt loc (store_after r loc (evict_lru order n t r.bytes c []))
  after_eviction_fits n t loc pool fits =
      let e = evict_lru order n t r.bytes c [] in
      let ready = evict_lru-IsReady order n t r.bytes r.kv_id c [] i in
      (
        e.1,
        store_at_fits e.0 r loc e.1 n t ready.within pool
            (evict_lru-room order n t r.bytes r.kv_id c [] i fits),
      )

  after_eviction-IsConsistent :
      (n : ℕ) (t : TierKind) (loc : CacheLocation)
      → IsConsistent (store_after r loc (evict_lru order n t r.bytes c [])).0
  after_eviction-IsConsistent n t loc =
      let e = evict_lru order n t r.bytes c [] in
      store_at-IsConsistent e.0 r loc e.1 (evict_lru-IsReady order n t r.bytes r.kv_id c [] i)

  -- In a cache with exact bookkeeping and no overfull tier, and for an id not in use, the `place`
  -- of `RemoteLru` and that of `SizeAware` leave the bookkeeping exact and no tier overfull, on the
  -- failing paths too.
  pub baselines-IsConsistent :
      (remote : RemoteLru) (sized : SizeAware)
      → IsConsistent (remote_lru remote order r c).0 × IsConsistent (size_aware sized order r c).0
  unfolding remote_lru size_aware
  baselines-IsConsistent remote sized = (
    after_eviction-IsConsistent remote.target_node TierKind.remote_memory _,
    after_eviction-IsConsistent sized.target_node (tier_for sized r.bytes) _,
  )

  -- In a cache with exact bookkeeping and no overfull tier, and for an id not in use,
  -- `RemoteLru::place` stores in the remote memory of its node every object that this tier is big
  -- enough for.
  pub remote_lru-PlacedAt :
      (self : RemoteLru)
      → r.bytes ≤ capacity c self.target_node TierKind.remote_memory
      → PlacedAt (CacheLocation.remote_memory self.target_node) (remote_lru self order r c)
  unfolding remote_lru
  remote_lru-PlacedAt self fits =
      after_eviction_fits self.target_node TierKind.remote_memory _ refl fits

  tier_of_size :
      (self : SizeAware)
      → pool_of (location_for self.target_node (tier_for self r.bytes))
        ≡ some (self.target_node, tier_for self r.bytes)
  tier_of_size self = ground arith

  -- In a cache with exact bookkeeping and no overfull tier, and for an id not in use,
  -- `SizeAware::place` stores on GPU 0 if the size is within the threshold, and else on the host,
  -- every object that the tier so chosen is big enough for.
  pub size_aware-PlacedAt :
      (self : SizeAware)
      → r.bytes ≤ capacity c self.target_node (tier_for self r.bytes)
      → PlacedAt (location_for self.target_node (tier_for self r.bytes)) (size_aware self order r c)
  unfolding size_aware
  size_aware-PlacedAt self fits =
      after_eviction_fits self.target_node (tier_for self r.bytes) _ (tier_of_size self) fits
