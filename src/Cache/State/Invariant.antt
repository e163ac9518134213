-- ===== src/Cache/State/Invariant.antt =====
-- Every operation of src/cache/state.rs keeps the bookkeeping exact and the tiers within capacity.
use kvflow_sim.Base.{
  ℕ, ◌+◌, ◌-◌, ◌≤◌, ◌<◌, ◌≡◌, refl, true, none, some, arith, ltb, nat_eq, pair_eq, Bool-cases,
  Option-cases, inl, inr,
}
use kvflow_sim.Base.Map
use kvflow_sim.Base.Map.{
  Map, total, Distinct, total-erase, get-erase, get-insert, erase_absent, erase-Distinct,
  insert-Distinct,
}
use kvflow_sim.Error.{Result, ok, err, invalid_model_profile, cache_overflow}
use kvflow_sim.Cache.Tier.{TierKind, tier_eq, pool_key}
use kvflow_sim.Cache.Object.{CacheLocation, KvObject}
use kvflow_sim.Cache.State.{
  CacheState, usage, capacity, available_space, location_matches_tier, pool_of, remove, insert,
  insert_at, store,
}
use kvflow_sim.Cache.State.Accounting.{held, IsAccounted, IsWithin, location_matches_tier-hits}
use kvflow_sim.Cache.State.Preserve.{
  entered, left, usage-entered, usage-left, capacity-entered, capacity-left, entered-IsAccounted,
  left-IsAccounted,
}

-- Room for `bytes` more within the capacity of the location's pool, if it has one.
abbrev pub HasRoom : CacheState → CacheLocation → ℕ → Type 0
HasRoom c l bytes =
    (n : ℕ) (t : TierKind)
    → location_matches_tier l n t ≡ true
    → usage c n t + bytes ≤ capacity c n t

-- The two ways in which `insert` ends.
pub data Inserted (c : CacheState) (obj : KvObject) (r : CacheState × Result (Unit {0}))
    : Type 0 where
  overflowed :
      (n : ℕ) (t : TierKind)
      → pool_of obj.location ≡ some (n, t)
      → capacity c n t < usage c n t + obj.bytes
      → r ≡ (
        c,
        err (invalid_model_profile (cache_overflow n t obj.bytes (capacity c n t - usage c n t))),
      )
      → Inserted c obj r
  stored :
      HasRoom c obj.location obj.bytes
      → r ≡ (
        entered c obj.kv_id obj
            (Map.insert (obj.session_id, obj.prefix_tokens) obj.kv_id c.by_session_prefix),
        ok tt,
      )
      → Inserted c obj r

module _ (c : CacheState) (obj : KvObject) where
  pub pool_HasRoom :
      (n : ℕ) (t : TierKind) (b : ℕ)
      → pool_of obj.location ≡ some (n, t)
      → usage c n t + b ≤ capacity c n t
      → HasRoom c obj.location b
  pool_HasRoom n t b e h m s hit =
      ground (arith, location_matches_tier-hits obj.location m s, pool_key.beq_iff (n, t) (m, s))

  pub no_pool_HasRoom : (b : ℕ) → pool_of obj.location ≡ none → HasRoom c obj.location b
  no_pool_HasRoom b e m s hit = ground (arith, location_matches_tier-hits obj.location m s)

  -- Where no tier is overfull, `insert` stores the object exactly when its tier has room for it, or
  -- it has none; else it reports the overflow and changes nothing.
  pub insert-Inserted : IsWithin c → Inserted c obj (insert c obj)
  unfolding insert insert_at store available_space
  insert-Inserted w = elim (Option-cases (pool_of obj.location)) [
    | inl e ↦ stored (no_pool_HasRoom obj.bytes e) (rw e)
    | inr ((n, t), e) ↦ elim (Bool-cases (ltb (capacity c n t - usage c n t) obj.bytes)) [
      | inl h ↦ overflowed n t e (ground arith) (rw e (rw h))
      | inr h ↦ stored (pool_HasRoom n t obj.bytes e (ground (arith, w n t))) (rw e (rw h))
    ]
  ]

-- Where the bookkeeping is exact and no tier is overfull, `insert` under an id not in use keeps the
-- bookkeeping exact, whether or not there is room: the usage of every tier is the sum of the sizes
-- of the objects in it.
pub insert-IsAccounted :
    (c : CacheState) (obj : KvObject)
    → IsAccounted c
    → IsWithin c
    → Map.get obj.kv_id c.objects ≡ none
    → IsAccounted (insert c obj).0
insert-IsAccounted c obj a w fresh = elim (insert-Inserted c obj w) [
  | overflowed n t e h r ↦ rw r a
  | stored room r ↦ rw r (
      entered-IsAccounted c obj.kv_id obj _ a fresh refl
        (λ n t m. omega (arith, room n t m, a.capacity_words n t)))
]

pub entered-IsWithin :
    (c : CacheState) (k : ℕ) (obj : KvObject) (index : Map (ℕ × ℕ) ℕ)
    → IsAccounted c
    → IsWithin c
    → HasRoom c obj.location obj.bytes
    → IsWithin (entered c k obj index)
entered-IsWithin c k obj index a w room n t =
    rw (usage-entered c k obj index n t, capacity-entered c k obj index n t)
      (ground (arith, w n t, room n t, a.capacity_words n t))

pub left-IsWithin :
    (c : CacheState) (k : ℕ) (obj : KvObject) (index : Map (ℕ × ℕ) ℕ)
    → IsWithin c
    → IsWithin (left c k obj index)
left-IsWithin c k obj index w n t =
    rw (usage-left c k obj index n t, capacity-left c k obj index n t) (ground (arith, w n t))

-- Where the bookkeeping is exact and no tier is overfull, `insert` fills no tier beyond its
-- capacity.
pub insert-IsWithin :
    (c : CacheState) (obj : KvObject) → IsAccounted c → IsWithin c → IsWithin (insert c obj).0
insert-IsWithin c obj a w = elim (insert-Inserted c obj w) [
  | overflowed n t e h r ↦ rw r w
  | stored room r ↦ rw r (entered-IsWithin c obj.kv_id obj _ a w room)
]

pub remove_unknown : (c : CacheState) (k : ℕ) → Map.get k c.objects ≡ none → remove c k ≡ (c, none)
unfolding remove
remove_unknown c k e = rw (e, remove)

pub remove_known :
    (c : CacheState) (k : ℕ) (obj : KvObject)
    → Map.get k c.objects ≡ some obj
    → remove c k
      ≡ (left c k obj (Map.erase (obj.session_id, obj.prefix_tokens) c.by_session_prefix), some obj)
unfolding remove
remove_known c k obj e = rw (e, remove)

-- `remove` of any id keeps the bookkeeping exact.
pub remove-IsAccounted : (c : CacheState) (k : ℕ) → IsAccounted c → IsAccounted (remove c k).0
remove-IsAccounted c k a = elim (Option-cases (Map.get k c.objects)) [
  | inl e ↦ rw (remove_unknown c k e) a
  | inr (obj, e) ↦ rw (remove_known c k obj e) (left-IsAccounted c k obj _ a e)
]

pub remove-IsWithin : (c : CacheState) (k : ℕ) → IsWithin c → IsWithin (remove c k).0
remove-IsWithin c k w = elim (Option-cases (Map.get k c.objects)) [
  | inl e ↦ rw (remove_unknown c k e) w
  | inr (obj, e) ↦ rw (remove_known c k obj e) (left-IsWithin c k obj _ w)
]

-- Where the bookkeeping is exact, removing a stored object frees just its bytes in its own tier and
-- leaves the usage of every other tier as it was.
pub usage-remove :
    (c : CacheState) (k : ℕ) (obj : KvObject) (n : ℕ) (t : TierKind)
    → IsAccounted c
    → Map.get k c.objects ≡ some obj
    → usage (remove c k).0 n t + held n t obj ≡ usage c n t
usage-remove c k obj n t a e = rw (remove_known c k obj e) (
    ground (
      arith,
      usage-left c k obj (Map.erase (obj.session_id, obj.prefix_tokens) c.by_session_prefix) n t,
      a.exact n t,
      total-erase (held n t) k c.objects {v = obj} a.distinct e,
    ))
