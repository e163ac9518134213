-- ===== src/Cache/State/Accounting.antt =====
-- The bookkeeping invariant of src/cache/state.rs: what the usage map says of a tier is what the
-- objects there weigh.
use kvflow_sim.Base.{
  ℕ, ◌-◌, ◌≤◌, ◌≡◌, refl, Bool, false, Option, none, some, arith, if◌then◌else◌, ◌==◌, nat_eq,
  pair_eq, wrap_add, u64_max,
}
use kvflow_sim.Base.Map
use kvflow_sim.Base.Map.{
  Map, total, Distinct, total-erase, get-erase, get-insert, erase_absent, erase-Distinct,
  insert-Distinct,
}
use kvflow_sim.Cache.Tier.{TierKind, Pool, tier_eq, pool_key}
use kvflow_sim.Cache.Object.{CacheLocation, KvObject}
use kvflow_sim.Cache.State.{
  CacheState, unwrap_or_zero, usage, capacity, location_matches_tier, pool_of, release, reserve,
}

-- What an object adds to a tier of a node.
abbrev pub held : ℕ → TierKind → KvObject → ℕ
held n t o = if location_matches_tier o.location n t then o.bytes else 0

abbrev pub tier_bytes : CacheState → ℕ → TierKind → ℕ
tier_bytes c n t = total (held n t) c.objects

pub record IsAccounted (c : CacheState) : Type 0 where
  pub distinct : Distinct c.objects
  pub keyed : (k : ℕ) (o : KvObject) → Map.get k c.objects ≡ some o → o.kv_id ≡ k
  pub exact : (n : ℕ) (t : TierKind) → usage c n t ≡ tier_bytes c n t
  pub capacity_words : (n : ℕ) (t : TierKind) → capacity c n t ≤ u64_max
  pub usage_words : (n : ℕ) (t : TierKind) → usage c n t ≤ u64_max

-- No tier holds more than its capacity.
abbrev pub IsWithin : CacheState → Type 0
IsWithin c = (n : ℕ) (t : TierKind) → usage c n t ≤ capacity c n t

abbrev hits : Option Pool → Pool → Bool
hits none q = false
hits (some p) q = p == q

pub location_matches_tier-hits :
    (l : CacheLocation) (n : ℕ) (t : TierKind)
    → location_matches_tier l n t ≡ hits (pool_of l) (n, t)
location_matches_tier-hits l n t = ground arith

pub get-release :
    (p : Option Pool) (b : ℕ) (m : Map Pool ℕ) (q : Pool)
    → unwrap_or_zero (Map.get q (release p b m))
      ≡ (if hits p q then unwrap_or_zero (Map.get q m) - b else unwrap_or_zero (Map.get q m))
get-release none b m q = refl
get-release (some p) b m q =
    ground (arith, get-insert q p (unwrap_or_zero (Map.get p m) - b) m, pool_key.beq_iff p q)

pub get-reserve :
    (p : Option Pool) (b : ℕ) (m : Map Pool ℕ) (q : Pool)
    → unwrap_or_zero (Map.get q (reserve p b m)) ≡ (
        if hits p q
        then wrap_add (unwrap_or_zero (Map.get q m)) b
        else unwrap_or_zero (Map.get q m))
get-reserve none b m q = refl
get-reserve (some p) b m q =
    ground
      (arith, get-insert q p (wrap_add (unwrap_or_zero (Map.get p m)) b) m, pool_key.beq_iff p q)
