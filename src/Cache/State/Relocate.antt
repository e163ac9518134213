-- ===== src/Cache/State/Relocate.antt =====
-- `CacheState::relocate` of src/cache/state.rs: what it does on each path, and that its rollback
-- restores everything that can be read.
use kvflow_sim.Base.{
  ℕ, ◌+◌, ◌-◌, ◌<◌, ◌≡◌, ◌≢◌, refl, ap, ◌∙◌, none, some, arith, if◌then◌else◌, ltb, ◌==◌, nat_eq,
  pair_eq, Bool-cases, Option-cases, inl, inr,
}
use kvflow_sim.Base.Map
use kvflow_sim.Base.Map.{
  Map, total, Distinct, total-erase, get-erase, get-insert, erase_absent, erase-Distinct,
  insert-Distinct,
}
use kvflow_sim.Error.{Result, ok, err, invalid_model_profile, relocation_overflow, kv_not_found}
use kvflow_sim.Cache.Tier.{TierKind, tier_eq, pool_key}
use kvflow_sim.Cache.Object.{CacheLocation, KvObject}
use kvflow_sim.Cache.State.{
  CacheState, usage, capacity, available_space, pool_of, relocate, relocate_to,
}
use kvflow_sim.Cache.State.Accounting.{held, IsAccounted, IsWithin}
use kvflow_sim.Cache.State.Preserve.{
  entered, left, usage-entered, usage-left, capacity-left, entered-IsAccounted, left-IsAccounted,
}
use kvflow_sim.Cache.State.Invariant.{
  HasRoom, pool_HasRoom, no_pool_HasRoom, entered-IsWithin, left-IsWithin,
}

-- The object as it stands at its new place.
abbrev pub moved_to : KvObject → CacheLocation → ℕ → KvObject
moved_to obj loc now_ns = record obj { location = loc; last_access_ns = now_ns }

-- The state without an object, its old tier released, the index kept.
abbrev pub lifted : CacheState → ℕ → KvObject → CacheState
lifted c k obj = left c k obj c.by_session_prefix

-- The ways in which the part of `relocate` behind the lookup ends.
data Lands (c : CacheState) (k : ℕ) (obj : KvObject) (loc : CacheLocation) (now_ns : ℕ)
    (r : CacheState × Result (Unit {0})) : Type 0 where
  refused :
      (n : ℕ) (t : TierKind)
      → pool_of loc ≡ some (n, t)
      → capacity c n t < usage c n t + obj.bytes
      → r ≡ (
        entered c k obj c.by_session_prefix,
        err (
            invalid_model_profile
              (relocation_overflow n t obj.bytes (capacity c n t - usage c n t))),
      )
      → Lands c k obj loc now_ns r
  landed :
      HasRoom c loc obj.bytes
      → r ≡ (entered c k (moved_to obj loc now_ns) c.by_session_prefix, ok tt)
      → Lands c k obj loc now_ns r

relocate_to-Lands :
    (c : CacheState) (k : ℕ) (obj : KvObject) (loc : CacheLocation) (now_ns : ℕ)
    → IsWithin c
    → Lands c k obj loc now_ns (relocate_to c obj k loc now_ns (pool_of loc))
unfolding relocate_to available_space
relocate_to-Lands c k obj loc now_ns w = elim (Option-cases (pool_of loc)) [
  | inl e ↦ landed (no_pool_HasRoom c (moved_to obj loc now_ns) obj.bytes e) (rw e)
  | inr ((n, t), e) ↦ elim (Bool-cases (ltb (capacity c n t - usage c n t) obj.bytes)) [
    | inl h ↦ refused n t e (ground arith) (rw e (rw h))
    | inr h ↦
        landed (pool_HasRoom c (moved_to obj loc now_ns) n t obj.bytes e (ground (arith, w n t)))
          (rw e (rw h))
  ]
]

relocate_known :
    (c : CacheState) (k : ℕ) (obj : KvObject) (loc : CacheLocation) (now_ns : ℕ)
    → Map.get k c.objects ≡ some obj
    → relocate c k loc now_ns ≡ relocate_to (lifted c k obj) obj k loc now_ns (pool_of loc)
unfolding relocate
relocate_known c k obj loc now_ns e = rw (e, relocate)

relocate_unknown :
    (c : CacheState) (k : ℕ) (loc : CacheLocation) (now_ns : ℕ)
    → Map.get k c.objects ≡ none
    → relocate c k loc now_ns ≡ (c, err (invalid_model_profile (kv_not_found k)))
unfolding relocate
relocate_unknown c k loc now_ns e = rw (e, relocate)

-- What a caller can read of a state: objects by id, the index, and the space of every tier.
pub record SameView (c d : CacheState) : Type 0 where
  pub same_objects : (k : ℕ) → Map.get k c.objects ≡ Map.get k d.objects
  pub same_index : c.by_session_prefix ≡ d.by_session_prefix
  pub same_capacity : (n : ℕ) (t : TierKind) → capacity c n t ≡ capacity d n t
  pub same_usage : (n : ℕ) (t : TierKind) → usage c n t ≡ usage d n t

SameView-refl : (c : CacheState) → SameView c c
SameView-refl c = record {
  same_objects = λ k. refl;
  same_index = refl;
  same_capacity = λ n t. refl;
  same_usage = λ n t. refl;
}

module _ (c : CacheState) (k : ℕ) (obj : KvObject) (a : IsAccounted c)
    (found : Map.get k c.objects ≡ some obj) where
  absent_lifted : Map.get k (lifted c k obj).objects ≡ none
  absent_lifted = ground (arith, get-erase k k c.objects)

  lifted-held : (n : ℕ) (t : TierKind) → usage (lifted c k obj) n t + held n t obj ≡ usage c n t
  lifted-held n t = ground (
    arith,
    usage-left c k obj c.by_session_prefix n t,
    a.exact n t,
    total-erase (held n t) k c.objects {v = obj} a.distinct found,
  )

  rollback-SameView : SameView c (entered (lifted c k obj) k obj c.by_session_prefix)
  unfolding capacity
  rollback-SameView = record {
    same_objects =
        λ j. ground (arith, get-insert j k obj (Map.erase k c.objects), get-erase j k c.objects);
    same_index = refl;
    same_capacity = λ n t. refl;
    same_usage = λ n t. ground (
      arith,
      usage-entered (lifted c k obj) k obj c.by_session_prefix n t,
      usage-left c k obj c.by_session_prefix n t,
      lifted-held n t,
      a.usage_words n t,
    );
  }

  lifted-IsAccounted : IsAccounted (lifted c k obj)
  lifted-IsAccounted = left-IsAccounted c k obj c.by_session_prefix a found

  rolled_back-IsAccounted : IsAccounted (entered (lifted c k obj) k obj c.by_session_prefix)
  rolled_back-IsAccounted =
      entered-IsAccounted (lifted c k obj) k obj _ lifted-IsAccounted absent_lifted
        (a.keyed k obj found) (λ n t m. ground (arith, lifted-held n t, a.usage_words n t))

  landed-IsAccounted :
      (loc : CacheLocation) (now_ns : ℕ)
      → HasRoom (lifted c k obj) loc obj.bytes
      → IsAccounted (entered (lifted c k obj) k (moved_to obj loc now_ns) c.by_session_prefix)
  landed-IsAccounted loc now_ns room =
      entered-IsAccounted (lifted c k obj) k (moved_to obj loc now_ns) _ lifted-IsAccounted
        absent_lifted (a.keyed k obj found)
        (λ n t m. omega (arith, room n t m, lifted-IsAccounted.capacity_words n t))

-- Where the bookkeeping is exact and no tier is overfull, `relocate` keeps the bookkeeping exact,
-- also where it rolls back.
pub relocate-IsAccounted :
    (c : CacheState) (k : ℕ) (loc : CacheLocation) (now_ns : ℕ)
    → IsAccounted c
    → IsWithin c
    → IsAccounted (relocate c k loc now_ns).0
relocate-IsAccounted c k loc now_ns a w = elim (Option-cases (Map.get k c.objects)) [
  | inl e ↦ rw (relocate_unknown c k loc now_ns e) a
  | inr (obj, e) ↦
      rw (relocate_known c k obj loc now_ns e)
        (elim (relocate_to-Lands (lifted c k obj) k obj loc now_ns (left-IsWithin c k obj _ w)) [
          | refused n t p h r ↦ rw r (rolled_back-IsAccounted c k obj a e)
          | landed room r ↦ rw r (landed-IsAccounted c k obj a e loc now_ns room)
        ])
]

-- Where the bookkeeping is exact and no tier is overfull, a `relocate` that fails, because the
-- object is unknown or the new tier is full, leaves every object, the index, and the capacity and
-- usage of every tier as they were.
pub relocate_failed-SameView :
    (c : CacheState) (k : ℕ) (loc : CacheLocation) (now_ns : ℕ)
    → IsAccounted c
    → IsWithin c
    → (relocate c k loc now_ns).1 ≢ ok tt
    → SameView c (relocate c k loc now_ns).0
relocate_failed-SameView c k loc now_ns a w failed = elim (Option-cases (Map.get k c.objects)) [
  | inl e ↦ rw (relocate_unknown c k loc now_ns e) (SameView-refl c)
  | inr (obj, e) ↦
      rw (relocate_known c k obj loc now_ns e)
        (elim (relocate_to-Lands (lifted c k obj) k obj loc now_ns (left-IsWithin c k obj _ w)) [
          | refused n t p h r ↦ rw r (rollback-SameView c k obj a e)
          | landed room r ↦ absurd (
              failed (
                ap (λ (x : CacheState × Result (Unit {0})). x.1)
                  (relocate_known c k obj loc now_ns e ∙ r)))
        ])
]

-- Where the bookkeeping is exact and no tier is overfull, a `relocate` that succeeds changes the
-- place and access time of the object and no other object, and moves its bytes from the old tier to
-- the new one.
pub relocate_moved :
    (c : CacheState) (k : ℕ) (obj : KvObject) (loc : CacheLocation) (now_ns : ℕ)
    → IsAccounted c
    → IsWithin c
    → Map.get k c.objects ≡ some obj
    → (relocate c k loc now_ns).1 ≡ ok tt
    → let d = (relocate c k loc now_ns).0 in
      ((j : ℕ)
        → Map.get j d.objects
          ≡ (if k == j then some (moved_to obj loc now_ns) else Map.get j c.objects))
      × ((n : ℕ) (t : TierKind)
          → usage d n t + held n t obj ≡ usage c n t + held n t (moved_to obj loc now_ns))
      × IsWithin d
relocate_moved c k obj loc now_ns a w e done =
    rw (relocate_known c k obj loc now_ns e)
      (elim (relocate_to-Lands (lifted c k obj) k obj loc now_ns (left-IsWithin c k obj _ w)) [
        | refused n t p h r ↦ cc (
            ap (λ (x : CacheState × Result (Unit {0})). x.1)
              (relocate_known c k obj loc now_ns e ∙ r))
        | landed room r ↦ rw r (
          λ j. ground (
            arith,
            get-insert j k (moved_to obj loc now_ns) (Map.erase k c.objects),
            get-erase j k c.objects,
          ),
          λ n t. ground (
            arith,
            usage-entered (lifted c k obj) k (moved_to obj loc now_ns) c.by_session_prefix n t,
            lifted-held c k obj a e n t,
            room n t,
            a.capacity_words n t,
            capacity-left c k obj c.by_session_prefix n t,
          ),
          entered-IsWithin (lifted c k obj) k (moved_to obj loc now_ns) _
              (lifted-IsAccounted c k obj a e) (left-IsWithin c k obj _ w) room,
        )
      ])
