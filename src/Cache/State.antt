-- ===== src/Cache/State.antt =====
-- src/cache/state.rs: the objects, the prefix index, and what each tier of each node holds.
pub mod Accounting
pub mod Preserve
pub mod Invariant
pub mod Relocate
pub mod Lookup
pub mod Sane
use kvflow_sim.Base.{
  ℕ, ◌-◌, Bool, true, false, List, Option, none, some, if◌then◌else◌, ltb, ◌==◌, nat_eq, pair_eq,
  wrap_add, sat_add, keep, length, In, ◌↔◌, [],
}
use kvflow_sim.Base.Map
use kvflow_sim.Base.Map.{Map, values}
use kvflow_sim.Error.{
  KvFlowError, invalid_model_profile, cache_overflow, relocation_overflow, kv_not_found, Result, ok,
  err,
}
use kvflow_sim.Cache.Tier.{TierKind, Pool, tier_eq, pool_key}
use kvflow_sim.Cache.Object
use kvflow_sim.Cache.Object.{CacheLocation, KvObject}

pub record CacheState : Type 0 where
  pub objects : Map ℕ KvObject
  -- From (session_id, prefix_tokens) to kv_id.
  pub by_session_prefix : Map (ℕ × ℕ) ℕ
  pub capacities : Map Pool ℕ
  pub usages : Map Pool ℕ
  pub next_kv_id : ℕ

-- The order in which a hash map visits its values: any, but it visits just what is there.
pub record HashOrder : Type 0 where
  pub visit : List KvObject → List KvObject
  pub visit-In : (o : KvObject) (l : List KvObject) → In o (visit l) ↔ In o l

abbrev pub unwrap_or_zero : Option ℕ → ℕ
unwrap_or_zero none = 0
unwrap_or_zero (some n) = n

unfoldable pub new : CacheState
new = record { objects = []; by_session_prefix = []; capacities = []; usages = []; next_kv_id = 0 }

-- `entry(key).or_insert(0)`, kept if the key is there.
or_insert_zero : Pool → Map Pool ℕ → Map Pool ℕ
or_insert_zero p m = elim (Map.get p m) [ none ↦ Map.insert p 0 m | some _ ↦ m ]

unfoldable pub set_capacity : CacheState → ℕ → TierKind → ℕ → CacheState
unfolding or_insert_zero
set_capacity c node_id tier bytes = record c {
  capacities = Map.insert (node_id, tier) bytes c.capacities;
  usages = or_insert_zero (node_id, tier) c.usages;
}

unfoldable pub alloc_kv_id : CacheState → CacheState × ℕ
alloc_kv_id c = (record c { next_kv_id = sat_add c.next_kv_id 1 }, c.next_kv_id)

abbrev get_in : CacheState → Option ℕ → Option KvObject
get_in c none = none
get_in c (some kv_id) = Map.get kv_id c.objects

unfoldable pub lookup : CacheState → ℕ → ℕ → Option KvObject
lookup c session_id prefix_tokens =
    get_in c (Map.get (session_id, prefix_tokens) c.by_session_prefix)

abbrev pub slot : CacheState → ℕ → Option KvObject → Option (KvObject × (KvObject → CacheState))
slot c kv_id none = none
slot c kv_id (some obj) =
    some (obj, λ written. record c { objects = Map.insert kv_id written c.objects })

abbrev pub slot_in : CacheState → Option ℕ → Option (KvObject × (KvObject → CacheState))
slot_in c none = none
slot_in c (some kv_id) = slot c kv_id (Map.get kv_id c.objects)

-- A mutable reference is what it refers to, and the cache once another object is written there.
unfoldable pub lookup_mut : CacheState → ℕ → ℕ → Option (KvObject × (KvObject → CacheState))
lookup_mut c session_id prefix_tokens =
    slot_in c (Map.get (session_id, prefix_tokens) c.by_session_prefix)

unfoldable pub capacity : CacheState → ℕ → TierKind → ℕ
capacity c node_id tier = unwrap_or_zero (Map.get (node_id, tier) c.capacities)

unfoldable pub usage : CacheState → ℕ → TierKind → ℕ
usage c node_id tier = unwrap_or_zero (Map.get (node_id, tier) c.usages)

unfoldable pub available_space : CacheState → ℕ → TierKind → ℕ
unfolding capacity usage
available_space c node_id tier = capacity c node_id tier - usage c node_id tier

abbrev pub location_matches_tier : CacheLocation → ℕ → TierKind → Bool
location_matches_tier (CacheLocation.gpu nid _) n TierKind.gpu = nid == n
location_matches_tier (CacheLocation.cpu nid) n TierKind.cpu = nid == n
location_matches_tier (CacheLocation.local_ssd nid) n TierKind.local_ssd = nid == n
location_matches_tier (CacheLocation.remote_memory nid) n TierKind.remote_memory = nid == n
location_matches_tier (CacheLocation.remote_ssd nid) n TierKind.remote_ssd = nid == n
location_matches_tier _ n _ = false

abbrev pub tier_of_location : CacheLocation → Option TierKind
tier_of_location (CacheLocation.gpu _ _) = some TierKind.gpu
tier_of_location (CacheLocation.cpu _) = some TierKind.cpu
tier_of_location (CacheLocation.local_ssd _) = some TierKind.local_ssd
tier_of_location (CacheLocation.remote_memory _) = some TierKind.remote_memory
tier_of_location (CacheLocation.remote_ssd _) = some TierKind.remote_ssd
tier_of_location CacheLocation.missing = none

unfoldable pub objects_in_tier : HashOrder → CacheState → ℕ → TierKind → List KvObject
objects_in_tier order c node_id tier =
    keep (λ o. location_matches_tier o.location node_id tier) (order.visit (values c.objects))

-- `if let (Some(node_id), Some(tier)) = (location.node_id(), tier_of_location(location))`.
abbrev pub pool_of : CacheLocation → Option Pool
pool_of l = elim (Object.node_id l) [
  | none ↦ none
  | some n ↦ elim (tier_of_location l) [ none ↦ none | some t ↦ some (n, t) ]
]

-- `if let Some(used) = usage.get_mut(..) { *used = used.saturating_sub(bytes) }`.
abbrev release_at : Pool → ℕ → Map Pool ℕ → Map Pool ℕ
release_at p bytes m = elim (Map.get p m) [ none ↦ m | some used ↦ Map.insert p (used - bytes) m ]

abbrev release : Option Pool → ℕ → Map Pool ℕ → Map Pool ℕ
release none bytes m = m
release (some p) bytes m = release_at p bytes m

-- `*usage.entry(..).or_insert(0) += bytes`.
abbrev reserve_at : Pool → ℕ → Map Pool ℕ → Map Pool ℕ
reserve_at p bytes m = Map.insert p (wrap_add (unwrap_or_zero (Map.get p m)) bytes) m

abbrev reserve : Option Pool → ℕ → Map Pool ℕ → Map Pool ℕ
reserve none bytes m = m
reserve (some p) bytes m = reserve_at p bytes m

unfoldable pub remove : CacheState → ℕ → CacheState × Option KvObject
remove c kv_id = elim (Map.get kv_id c.objects) [
  | none ↦ (c, none)
  | some obj ↦ (
    record c {
      objects = Map.erase kv_id c.objects;
      by_session_prefix = Map.erase (obj.session_id, obj.prefix_tokens) c.by_session_prefix;
      usages = release (pool_of obj.location) obj.bytes c.usages;
    },
    some obj,
  )
]

-- What `insert` does once the usage is reserved.
store : CacheState → KvObject → CacheState
store c obj = record c {
  objects = Map.insert obj.kv_id obj c.objects;
  by_session_prefix = Map.insert (obj.session_id, obj.prefix_tokens) obj.kv_id c.by_session_prefix;
}

insert_at : Option Pool → CacheState → KvObject → CacheState × Result (Unit {0})
unfolding store available_space
insert_at none c obj = (store c obj, ok tt)
insert_at (some (n, t)) c obj =
    let available = available_space c n t in
    if ltb available obj.bytes
    then (c, err (invalid_model_profile (cache_overflow n t obj.bytes available)))
    else (store (record c { usages = reserve_at (n, t) obj.bytes c.usages }) obj, ok tt)

unfoldable pub insert : CacheState → KvObject → CacheState × Result (Unit {0})
unfolding insert_at
insert c obj = insert_at (pool_of obj.location) c obj

unfoldable pub update_access : CacheState → ℕ → ℕ → CacheState
update_access c kv_id now_ns = elim (Map.get kv_id c.objects) [
  | none ↦ c
  | some obj ↦ record c {
    objects = Map.insert kv_id (record obj { last_access_ns = now_ns }) c.objects;
  }
]

-- `relocate` behind the removal of the object and the release of its old tier. The error
-- reports what was available then, and the rollback reserves the old tier again.
relocate_to :
    CacheState → KvObject → ℕ → CacheLocation → ℕ → Option Pool → CacheState × Result (Unit {0})
unfolding available_space
relocate_to c obj kv_id loc now_ns none = (
  record c {
    objects = Map.insert kv_id (record obj { location = loc; last_access_ns = now_ns }) c.objects;
  },
  ok tt,
)
relocate_to c obj kv_id loc now_ns (some (n, t)) =
    let available = available_space c n t in
    if ltb available obj.bytes
    then (
      record c {
        objects = Map.insert kv_id obj c.objects;
        usages = reserve (pool_of obj.location) obj.bytes c.usages;
      },
      err (invalid_model_profile (relocation_overflow n t obj.bytes available)),
    )
    else (
      record c {
        objects =
            Map.insert kv_id (record obj { location = loc; last_access_ns = now_ns }) c.objects;
        usages = reserve_at (n, t) obj.bytes c.usages;
      },
      ok tt,
    )

unfoldable pub relocate : CacheState → ℕ → CacheLocation → ℕ → CacheState × Result (Unit {0})
unfolding relocate_to
relocate c kv_id new_location now_ns = elim (Map.get kv_id c.objects) [
  | none ↦ (c, err (invalid_model_profile (kv_not_found kv_id)))
  | some obj ↦
      relocate_to
        (record c {
          objects = Map.erase kv_id c.objects;
          usages = release (pool_of obj.location) obj.bytes c.usages;
        })
        obj kv_id new_location now_ns (pool_of new_location)
]

unfoldable pub len : CacheState → ℕ
len c = length c.objects
