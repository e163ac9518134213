-- ===== src/Policy/Room.antt =====
-- What any run of evictions keeps, what it frees, and that it makes room wherever the tier is big
-- enough.
use mathlib.Core.Option.{some-injective}
use kvflow_sim.Base.{
  ℕ, ◌+◌, ◌≤◌, ◌<◌, ◌≡◌, ◌≢◌, refl, sym, ap, subst, ◌∙◌, true, false, inl, inr, List, [], ◌∷◌, none,
  some, Option, arith, sum_by, if◌then◌else◌, nat_eq, Bool-cases,
}
use kvflow_sim.Base.Map
use kvflow_sim.Base.Map.{Map, total, Distinct, get-erase}
use kvflow_sim.Error.{ok}
use kvflow_sim.Cache.Tier.{TierKind, Pool, tier_eq, pool_key}
use kvflow_sim.Cache.Object.{KvObject, CacheLocation}
use kvflow_sim.Cache.State.{
  CacheState, HashOrder, usage, capacity, available_space, location_matches_tier, pool_of, remove,
}
use kvflow_sim.Cache.State.Accounting.{held, IsAccounted, IsWithin, location_matches_tier-hits}
use kvflow_sim.Cache.State.Preserve.{capacity-left}
use kvflow_sim.Cache.State.Invariant.{
  remove_known, remove-IsAccounted, remove-IsWithin, usage-remove, insert-Inserted, overflowed,
  stored, insert-IsAccounted, insert-IsWithin,
}
use kvflow_sim.Policy.Placement.{EvictedKv, PlaceRequest, object_at, store_at}
use kvflow_sim.Policy.Evict.{evict_lru}
use kvflow_sim.Policy.Lru.{Stands, Evicts, stop, evict, Settled, evict_lru-Ran}

-- The bookkeeping is exact, no tier is overfull, and an id is not in use.
pub record IsReady (k : ℕ) (c : CacheState) : Type 0 where
  pub accounted : IsAccounted c
  pub within : IsWithin c
  pub fresh : Map.get k c.objects ≡ none

pub remove-IsReady :
    (k : ℕ) (c : CacheState) (v : KvObject)
    → Map.get v.kv_id c.objects ≡ some v
    → IsReady k c
    → IsReady k (remove c v.kv_id).0
remove-IsReady k c v e i = record {
  accounted = remove-IsAccounted c v.kv_id i.accounted;
  within = remove-IsWithin c v.kv_id i.within;
  fresh = rw (remove_known c v.kv_id v e) (ground (arith, get-erase k v.kv_id c.objects, i.fresh));
}

module _ (n : ℕ) (t : TierKind) (bytes : ℕ) where
  -- Evictions keep a state ready.
  pub Evicts-IsReady :
      (k : ℕ) {c d : CacheState} {l : List EvictedKv}
      → Evicts n t bytes c l d
      → IsReady k c
      → IsReady k d
  Evicts-IsReady k stop i = i
  Evicts-IsReady k (evict {c = c} v tight s least e) i =
      Evicts-IsReady k e (remove-IsReady k c v s.0 i)

  pub Evicts-capacity :
      {c d : CacheState} {l : List EvictedKv} (m : ℕ) (s : TierKind)
      → Evicts n t bytes c l d
      → capacity d m s ≡ capacity c m s
  Evicts-capacity m s stop = refl
  Evicts-capacity m s (evict {c = c} v tight st least e) =
      Evicts-capacity m s e
      ∙ ap (λ (x : CacheState × Option KvObject). capacity x.0 m s) (remove_known c v.kv_id v st.0)
      ∙ capacity-left c v.kv_id v _ m s

  -- From exact bookkeeping, the bytes that a run of evictions lists are just what the tier holds
  -- less than before, and the usage of every other tier is as before.
  pub Evicts-usage :
      {c d : CacheState} {l : List EvictedKv} (m : ℕ) (s : TierKind)
      → Evicts n t bytes c l d
      → IsAccounted c
      → usage d m s
          + (if pool_key.beq (n, t) (m, s) then sum_by (λ (x : EvictedKv). x.bytes) l else 0)
        ≡ usage c m s
  Evicts-usage m s stop a = ground arith
  Evicts-usage m s (evict {c = c} {l = l} v tight st least e) a = ground (
    arith,
    Evicts-usage m s e (remove-IsAccounted c v.kv_id a),
    usage-remove c v.kv_id v m s a st.0,
    location_matches_tier-hits v.location m s,
    location_matches_tier-hits v.location n t,
    st.1,
    pool_key.beq_iff (n, t) (m, s),
  )

total_zero :
    (f : KvObject → ℕ) (m : Map ℕ KvObject)
    → Distinct m
    → ((k : ℕ) (o : KvObject) → Map.get k m ≡ some o → f o ≡ 0)
    → total f m ≡ 0
unfolding Map.get
total_zero f [] d z = refl
total_zero f ((j, v) ∷ m) d z =
    omega
      (arith, z j v (ground arith), total_zero f m d.1 (λ k o g. z k o (ground (arith, g, d.0))))

-- A tier in which nothing stands is wholly available.
empty_usage :
    (c : CacheState) (n : ℕ) (t : TierKind)
    → IsAccounted c
    → ((o : KvObject) → Stands c n t o → ⊥)
    → usage c n t ≡ 0
empty_usage c n t a empty =
    a.exact n t
    ∙ total_zero (held n t) c.objects a.distinct (λ k o g.
      elim (Bool-cases (location_matches_tier o.location n t)) [
        | inl m ↦
            absurd (empty o (subst (λ j. Map.get j c.objects ≡ some o) (sym (a.keyed k o g)) g, m))
        | inr m ↦ rw m
      ])

pub Settled-room :
    (c : CacheState) (n : ℕ) (t : TierKind) (bytes : ℕ)
    → IsAccounted c
    → bytes ≤ capacity c n t
    → Settled n t bytes c
    → bytes ≤ available_space c n t
unfolding available_space
Settled-room c n t bytes a fits (inl room) = room
Settled-room c n t bytes a fits (inr empty) = omega (arith, empty_usage c n t a empty)

-- In a cache with exact bookkeeping and no overfull tier, and for an id not in use, wherever the
-- tier as a whole is as big as the object, the eviction loop makes room for it.
pub evict_lru-room :
    (order : HashOrder) (n : ℕ) (t : TierKind) (bytes k : ℕ) (c : CacheState)
    (before : List EvictedKv)
    → IsReady k c
    → bytes ≤ capacity c n t
    → bytes ≤ available_space (evict_lru order n t bytes c before).0 n t
evict_lru-room order n t bytes k c before i fits =
    let (l, listed, run, settled) = evict_lru-Ran order n t bytes c before i.accounted in
    Settled-room _ n t bytes (Evicts-IsReady n t bytes k run i).accounted
      (rw (Evicts-capacity n t bytes n t run) fits) settled

pub evict_lru-IsReady :
    (order : HashOrder) (n : ℕ) (t : TierKind) (bytes k : ℕ) (c : CacheState)
    (before : List EvictedKv)
    → IsReady k c
    → IsReady k (evict_lru order n t bytes c before).0
evict_lru-IsReady order n t bytes k c before i =
    Evicts-IsReady n t bytes k (evict_lru-Ran order n t bytes c before i.accounted).2 i

pub evict_lru-capacity :
    (order : HashOrder) (n : ℕ) (t : TierKind) (bytes : ℕ) (c : CacheState)
    (before : List EvictedKv) (m : ℕ) (s : TierKind)
    → IsAccounted c
    → capacity (evict_lru order n t bytes c before).0 m s ≡ capacity c m s
evict_lru-capacity order n t bytes c before m s a =
    Evicts-capacity n t bytes m s (evict_lru-Ran order n t bytes c before a).2

-- Another tier of the node has as much room behind the eviction as before.
pub evict_lru-available :
    (order : HashOrder) (n : ℕ) (t : TierKind) (bytes : ℕ) (c : CacheState)
    (before : List EvictedKv) (s : TierKind)
    → t ≢ s
    → IsAccounted c
    → available_space (evict_lru order n t bytes c before).0 n s ≡ available_space c n s
unfolding available_space
evict_lru-available order n t bytes c before s apart a =
    let ran = evict_lru-Ran order n t bytes c before a in
    let miss : pool_key.beq (n, t) (n, s) ≡ false =
      ground (arith, pool_key.beq_iff (n, t) (n, s)) in
    omega (
      arith,
      evict_lru-capacity order n t bytes c before n s a,
      rw miss at (Evicts-usage n t bytes n s ran.2 a),
    )

-- The bookkeeping is exact and no tier is overfull.
pub record IsConsistent (c : CacheState) : Type 0 where
  pub accounted : IsAccounted c
  pub within : IsWithin c

-- The last step of a policy keeps the cache consistent.
pub store_at-IsConsistent :
    (c : CacheState) (r : PlaceRequest) (loc : CacheLocation) (evicted : List EvictedKv)
    → IsReady r.kv_id c
    → IsConsistent (store_at c r loc evicted).0
unfolding store_at
store_at-IsConsistent c r loc evicted i = record {
  accounted = insert-IsAccounted c (object_at r loc) i.accounted i.within i.fresh;
  within = insert-IsWithin c (object_at r loc) i.accounted i.within;
}

-- It succeeds where the tier of the location has room.
pub store_at_fits :
    (c : CacheState) (r : PlaceRequest) (loc : CacheLocation) (evicted : List EvictedKv) (n : ℕ)
    (t : TierKind)
    → IsWithin c
    → pool_of loc ≡ some (n, t)
    → r.bytes ≤ available_space c n t
    → (store_at c r loc evicted).1 ≡ ok (loc, evicted)
unfolding store_at available_space
store_at_fits c r loc evicted n t w pool room = elim (insert-Inserted c (object_at r loc) w) [
  | overflowed m s p h e ↦
      let q = some-injective _ _ (sym p ∙ pool) in
      absurd (
        omega (
          arith,
          ap (λ (x : Pool). capacity c x.0 x.1) q,
          ap (λ (x : Pool). usage c x.0 x.1) q,
          w n t,
        ))
  | stored fits e ↦ rw e
]

pool_matches :
    (loc : CacheLocation) (n : ℕ) (t : TierKind)
    → pool_of loc ≡ some (n, t)
    → location_matches_tier loc n t ≡ true
pool_matches loc n t e =
    ground (arith, location_matches_tier-hits loc n t, pool_key.beq_iff (n, t) (n, t))

-- It fails where the tier has no room.
pub store_at_overflows :
    (c : CacheState) (r : PlaceRequest) (loc : CacheLocation) (evicted : List EvictedKv) (n : ℕ)
    (t : TierKind)
    → IsWithin c
    → pool_of loc ≡ some (n, t)
    → available_space c n t < r.bytes
    → (store_at c r loc evicted).1 ≢ ok (loc, evicted)
unfolding store_at available_space
store_at_overflows c r loc evicted n t w pool tight = elim (insert-Inserted c (object_at r loc) w) [
  | overflowed m s p h e ↦ rw e (λ q. cc)
  | stored fits e ↦ absurd (omega (arith, fits n t (pool_matches loc n t pool)))
]
