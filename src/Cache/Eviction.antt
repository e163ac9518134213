-- ===== src/Cache/Eviction.antt =====
-- src/cache/eviction.rs: the two eviction policies behind the trait.
use kvflow_sim.Base.{List, Option, some, In, ◌≡◌, ◌≤◌}
use kvflow_sim.Base.Select.{
  min_by_key, max_by_key, min_by_key-In, min_by_key-le, max_by_key-In, max_by_key-le,
}
use kvflow_sim.Cache.Object.{KvObject}
use kvflow_sim.Cache.State.{CacheState}

-- `select_for_eviction`, of candidates and the state.
abbrev pub EvictionPolicy : Type 0
EvictionPolicy = List KvObject → CacheState → Option KvObject

unfoldable pub lru_eviction : EvictionPolicy
lru_eviction candidates state = min_by_key (λ (o : KvObject). o.last_access_ns) candidates

unfoldable pub largest_first_eviction : EvictionPolicy
largest_first_eviction candidates state = max_by_key (λ (o : KvObject). o.bytes) candidates

-- It picks a candidate that was used no later than any other.
lru_eviction_lem :
    (candidates : List KvObject) (state : CacheState) (o : KvObject)
    → lru_eviction candidates state ≡ some o
    → In o candidates × ((c : KvObject) → In c candidates → o.last_access_ns ≤ c.last_access_ns)
unfolding lru_eviction
lru_eviction_lem candidates state o h =
    (min_by_key-In _ candidates h, λ c m. min_by_key-le _ candidates c h m)

-- It picks a candidate that is no smaller than any other.
largest_first_eviction_lem :
    (candidates : List KvObject) (state : CacheState) (o : KvObject)
    → largest_first_eviction candidates state ≡ some o
    → In o candidates × ((c : KvObject) → In c candidates → c.bytes ≤ o.bytes)
unfolding largest_first_eviction
largest_first_eviction_lem candidates state o h =
    (max_by_key-In _ candidates h, λ c m. max_by_key-le _ candidates c h m)
