-- ===== src/Cache/State/Preserve.antt =====
-- Every operation of src/cache/state.rs keeps the bookkeeping invariant.
use kvflow_sim.Base.{
  ℕ, ◌+◌, ◌-◌, ◌≤◌, ◌≡◌, refl, true, none, some, arith, if◌then◌else◌, nat_eq, pair_eq, wrap_add,
  u64_max,
}
use kvflow_sim.Base.Map
use kvflow_sim.Base.Map.{
  Map, total, Distinct, total-erase, get-erase, get-insert, erase_absent, erase-Distinct,
  insert-Distinct,
}
use kvflow_sim.Cache.Tier.{TierKind, tier_eq, pool_key}
use kvflow_sim.Cache.Object.{CacheLocation, KvObject}
use kvflow_sim.Cache.State.{
  CacheState, usage, capacity, location_matches_tier, pool_of, release, reserve,
}
use kvflow_sim.Cache.State.Accounting.{
  held, tier_bytes, IsAccounted, location_matches_tier-hits, get-release, get-reserve,
}

-- There is a word's room for `bytes` more in the pool of the location, if it has one.
abbrev pub Fits : CacheState → CacheLocation → ℕ → Type 0
Fits c l bytes =
    (n : ℕ) (t : TierKind) → location_matches_tier l n t ≡ true → usage c n t + bytes ≤ u64_max

module _ (c : CacheState) (k : ℕ) (obj : KvObject) (index : Map (ℕ × ℕ) ℕ) where
  -- The state with `obj` entered under `k` and reserved.
  abbrev pub entered : CacheState
  entered = record c {
    objects = Map.insert k obj c.objects;
    by_session_prefix = index;
    usages = reserve (pool_of obj.location) obj.bytes c.usages;
  }

  -- The state with `obj` taken out under `k` and released.
  abbrev pub left : CacheState
  left = record c {
    objects = Map.erase k c.objects;
    by_session_prefix = index;
    usages = release (pool_of obj.location) obj.bytes c.usages;
  }

  pub usage-entered :
      (n : ℕ) (t : TierKind)
      → usage entered n t ≡ (
          if location_matches_tier obj.location n t
          then wrap_add (usage c n t) obj.bytes
          else usage c n t)
  unfolding usage
  usage-entered n t =
      rw (location_matches_tier-hits obj.location n t)
        (get-reserve (pool_of obj.location) obj.bytes c.usages (n, t))

  pub usage-left :
      (n : ℕ) (t : TierKind)
      → usage left n t
        ≡ (if location_matches_tier obj.location n t then usage c n t - obj.bytes else usage c n t)
  unfolding usage
  usage-left n t =
      rw (location_matches_tier-hits obj.location n t)
        (get-release (pool_of obj.location) obj.bytes c.usages (n, t))

  pub capacity-entered : (n : ℕ) (t : TierKind) → capacity entered n t ≡ capacity c n t
  unfolding capacity
  capacity-entered n t = refl

  pub capacity-left : (n : ℕ) (t : TierKind) → capacity left n t ≡ capacity c n t
  unfolding capacity
  capacity-left n t = refl

  pub tier_bytes-entered :
      (n : ℕ) (t : TierKind)
      → Map.get k c.objects ≡ none
      → tier_bytes entered n t ≡ held n t obj + tier_bytes c n t
  unfolding Map.insert
  tier_bytes-entered n t fresh = rw (erase_absent k c.objects fresh)

  pub entered-IsAccounted :
      IsAccounted c
      → Map.get k c.objects ≡ none
      → obj.kv_id ≡ k
      → Fits c obj.location obj.bytes
      → IsAccounted entered
  unfolding capacity
  entered-IsAccounted a fresh own fits = record {
    distinct = insert-Distinct k obj c.objects a.distinct;
    keyed = λ j o h. ground (arith, get-insert j k obj c.objects, a.keyed j o);
    exact = λ n t. ground (arith, usage-entered n t, tier_bytes-entered n t, a.exact n t, fits n t);
    capacity_words = a.capacity_words;
    usage_words = λ n t. ground (arith, usage-entered n t, a.usage_words n t, fits n t);
  }

  pub left-IsAccounted : IsAccounted c → Map.get k c.objects ≡ some obj → IsAccounted left
  unfolding capacity
  left-IsAccounted a found = record {
    distinct = erase-Distinct k c.objects a.distinct;
    keyed = λ j o h. ground (arith, get-erase j k c.objects, a.keyed j o);
    exact = λ n t. ground (
      arith,
      usage-left n t,
      a.exact n t,
      total-erase (held n t) k c.objects {v = obj} a.distinct found,
    );
    capacity_words = a.capacity_words;
    usage_words = λ n t. ground (arith, usage-left n t, a.usage_words n t);
  }
