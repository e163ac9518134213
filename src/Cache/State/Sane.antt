-- ===== src/Cache/State/Sane.antt =====
-- All that the cache of src/cache/state.rs keeps true, taken together, and the operations that keep it.
use kvflow_sim.Base.{
  ℕ, ◌+◌, ◌≤◌, ◌<◌, ◌≡◌, refl, sym, subst, [], ◌∙◌, ap, inl, inr, none, some, arith, nat_eq,
  pair_eq, ◌==◌, u64_max, Option-cases, Bool-cases,
}
use kvflow_sim.Base.Map
use kvflow_sim.Base.Map.{Map, total, Distinct, get-insert, get-erase, insert-Distinct, total-erase}
use kvflow_sim.Cache.Tier.{TierKind, pool_key, tier_eq}
use kvflow_sim.Cache.Object.{KvObject}
use kvflow_sim.Cache.State.{
  CacheState, or_insert_zero, new, set_capacity, alloc_kv_id, update_access, remove, insert, usage,
  capacity,
}
use kvflow_sim.Cache.State.Accounting.{held, tier_bytes, IsAccounted, IsWithin}
use kvflow_sim.Cache.State.Invariant.{
  insert-Inserted, overflowed, stored, insert-IsAccounted, insert-IsWithin, remove_known,
  remove_unknown, remove-IsAccounted, remove-IsWithin,
}
use kvflow_sim.Cache.State.Lookup.{IndexSound, insert-IndexSound, remove-IndexSound}

-- Exact bookkeeping, no overfull tier, a sound index, and every id below the next one.
pub record IsSane (next : ℕ) (c : CacheState) : Type 0 where
  pub accounted : IsAccounted c
  pub within : IsWithin c
  pub indexed : IndexSound c
  pub below : (k : ℕ) (o : KvObject) → Map.get k c.objects ≡ some o → k < next
  pub next_id : c.next_kv_id ≡ next

pub remove-IsSane : {next : ℕ} (c : CacheState) (k : ℕ) → IsSane next c → IsSane next (remove c k).0
remove-IsSane {next} c k h = record {
  accounted = remove-IsAccounted c k h.accounted;
  within = remove-IsWithin c k h.within;
  indexed = remove-IndexSound c k h.indexed;
  below = elim (Option-cases (Map.get k c.objects)) [
    | inl e ↦ rw (remove_unknown c k e) h.below
    | inr (obj, e) ↦
        rw (remove_known c k obj e)
          (λ j o got. h.below j o (ground (arith, get-erase j k c.objects, got)))
  ];
  next_id = elim (Option-cases (Map.get k c.objects)) [
    | inl e ↦ rw (remove_unknown c k e) h.next_id
    | inr (obj, e) ↦ rw (remove_known c k obj e) h.next_id
  ];
}

pub remove_absent :
    (c : CacheState) (j k : ℕ)
    → Map.get k c.objects ≡ none
    → Map.get k (remove c j).0.objects ≡ none
remove_absent c j k h = elim (Option-cases (Map.get j c.objects)) [
  | inl e ↦ rw (remove_unknown c j e) h
  | inr (obj, e) ↦ rw (remove_known c j obj e) (ground (arith, get-erase k j c.objects, h))
]

pub insert-IsSane :
    {next : ℕ} (c : CacheState) (obj : KvObject)
    → IsSane next c
    → Map.get obj.kv_id c.objects ≡ none
    → obj.kv_id < next
    → IsSane next (insert c obj).0
insert-IsSane {next} c obj h fresh small = record {
  accounted = insert-IsAccounted c obj h.accounted h.within fresh;
  within = insert-IsWithin c obj h.accounted h.within;
  indexed = insert-IndexSound c obj h.within h.indexed fresh;
  below = elim (insert-Inserted c obj h.within) [
    | overflowed n t e tight r ↦ rw r h.below
    | stored room r ↦
        rw r (λ j o got. ground (arith, got, get-insert j obj.kv_id obj c.objects, h.below j o))
  ];
  next_id = elim (insert-Inserted c obj h.within) [
    | overflowed n t e tight r ↦ rw r h.next_id
    | stored room r ↦ rw r h.next_id
  ];
}

pub alloc-IsSane :
    {next : ℕ} (c : CacheState)
    → IsSane next c
    → next < u64_max
    → IsSane (next + 1) (alloc_kv_id c).0
      × (Map.get (alloc_kv_id c).1 (alloc_kv_id c).0.objects ≡ none)
      × ((alloc_kv_id c).1 < next + 1)
unfolding alloc_kv_id usage capacity
alloc-IsSane {next} c h few = (
  record {
    accounted = record {
      distinct = (h.accounted).distinct;
      keyed = (h.accounted).keyed;
      exact = (h.accounted).exact;
      capacity_words = (h.accounted).capacity_words;
      usage_words = (h.accounted).usage_words;
    };
    within = h.within;
    indexed = h.indexed;
    below = λ k o got. omega (arith, h.below k o got);
    next_id = omega (arith, h.next_id, few);
  },
  elim (Option-cases (Map.get c.next_kv_id c.objects)) [
    | inl e ↦ e
    | inr (o, e) ↦ absurd (omega (arith, h.below c.next_kv_id o e, h.next_id))
  ],
  omega (arith, h.next_id),
)

-- An object with another time of access.
module _ {next : ℕ} (c : CacheState) (k now_ns : ℕ) (obj : KvObject)
    (found : Map.get k c.objects ≡ some obj) (h : IsSane next c) where
  abbrev touched : CacheState
  touched = record c { objects = Map.insert k (record obj { last_access_ns = now_ns }) c.objects }

  tier_bytes-touched : (n : ℕ) (t : TierKind) → tier_bytes touched n t ≡ tier_bytes c n t
  unfolding Map.insert
  tier_bytes-touched n t =
      omega (arith, total-erase (held n t) k c.objects {v = obj} (h.accounted).distinct found)

  touched_before :
      (j : ℕ) (o : KvObject)
      → Map.get j touched.objects ≡ some o
      → (p : KvObject) × (Map.get j c.objects ≡ some p) × (p.kv_id ≡ o.kv_id)
  touched_before j o got = elim (Bool-cases (k == j)) [
    | inl e ↦ (
      obj,
      ground (arith, found),
      ground (arith, got, get-insert j k (record obj { last_access_ns = now_ns }) c.objects),
    )
    | inr e ↦ (
      o,
      ground (arith, got, get-insert j k (record obj { last_access_ns = now_ns }) c.objects),
      refl,
    )
  ]

  touched_after :
      (j : ℕ) (o : KvObject)
      → Map.get j c.objects ≡ some o
      → (p : KvObject) × (Map.get j touched.objects ≡ some p)
        × (p.session_id ≡ o.session_id)
        × (p.prefix_tokens ≡ o.prefix_tokens)
  touched_after j o got = elim (Bool-cases (k == j)) [
    | inl e ↦ (
      record obj { last_access_ns = now_ns },
      ground (arith, get-insert j k (record obj { last_access_ns = now_ns }) c.objects),
      ground (arith, found, got),
      ground (arith, found, got),
    )
    | inr e ↦ (
      o,
      ground (arith, got, get-insert j k (record obj { last_access_ns = now_ns }) c.objects),
      refl,
      refl,
    )
  ]

  touched-IsSane : IsSane next touched
  unfolding usage capacity
  touched-IsSane = record {
    accounted = record {
      distinct = insert-Distinct k _ c.objects (h.accounted).distinct;
      keyed = λ j o got.
          let (p, there, same) = touched_before j o got in sym same ∙ (h.accounted).keyed j p there;
      exact = λ n t. (h.accounted).exact n t ∙ sym (tier_bytes-touched n t);
      capacity_words = (h.accounted).capacity_words;
      usage_words = (h.accounted).usage_words;
    };
    within = h.within;
    indexed = λ s p j entry.
        let (o, there, os, op) = h.indexed s p j entry in
        let (q, now, qs, qp) = touched_after j o there in (q, now, qs ∙ os, qp ∙ op);
    below = λ j o got. let (p, there, _) = touched_before j o got in h.below j p there;
    next_id = h.next_id;
  }

pub update_access-IsSane :
    {next : ℕ} (c : CacheState) (k now_ns : ℕ)
    → IsSane next c
    → IsSane next (update_access c k now_ns)
unfolding update_access
update_access-IsSane {next} c k now_ns h = elim (Option-cases (Map.get k c.objects)) [
  | inl e ↦ rw (e, update_access) h
  | inr (obj, e) ↦ rw (e, update_access) (touched-IsSane c k now_ns obj e h)
]

-- A cache in which nothing has been stored.
pub record IsUnused (c : CacheState) : Type 0 where
  pub objects : c.objects ≡ []
  pub index : c.by_session_prefix ≡ []
  pub next_id : c.next_kv_id ≡ 0
  pub usages : (n : ℕ) (t : TierKind) → usage c n t ≡ 0
  pub capacities : (n : ℕ) (t : TierKind) → capacity c n t ≤ u64_max

pub new-IsUnused : IsUnused new
unfolding new usage capacity Map.get
new-IsUnused = record {
  objects = refl;
  index = refl;
  next_id = refl;
  usages = λ n t. refl;
  capacities = λ n t. omega arith;
}

pub set_capacity-IsUnused :
    (c : CacheState) (n : ℕ) (t : TierKind) (bytes : ℕ)
    → bytes ≤ u64_max
    → IsUnused c
    → IsUnused (set_capacity c n t bytes)
unfolding set_capacity or_insert_zero usage capacity
set_capacity-IsUnused c n t bytes small h = record {
  objects = h.objects;
  index = h.index;
  next_id = h.next_id;
  usages = λ m s. elim (Option-cases (Map.get (n, t) c.usages)) [
    | inl e ↦
        rw (e, or_insert_zero) (ground (arith, get-insert (m, s) (n, t) 0 c.usages, h.usages m s))
    | inr (used, e) ↦ rw (e, or_insert_zero) (h.usages m s)
  ];
  capacities = λ m s. ground (arith, get-insert (m, s) (n, t) bytes c.capacities, h.capacities m s);
}

pub IsUnused-IsSane : (c : CacheState) → IsUnused c → IsSane 0 c
unfolding Map.get
IsUnused-IsSane c h = record {
  accounted = record {
    distinct = subst Distinct (sym h.objects) tt;
    keyed = λ k o got. absurd (nothing k o got);
    exact = λ n t. h.usages n t ∙ sym (ap (total (held n t)) h.objects);
    capacity_words = h.capacities;
    usage_words = λ n t. omega (arith, h.usages n t);
  };
  within = λ n t. omega (arith, h.usages n t);
  indexed = λ s p k got. absurd (no_entry s p k got);
  below = λ k o got. absurd (nothing k o got);
  next_id = h.next_id;
}
  where
    nothing : (k : ℕ) (o : KvObject) → Map.get k c.objects ≡ some o → ⊥
    nothing k o got = cc (sym (ap (Map.get k) h.objects) ∙ got)

    no_entry : (s p k : ℕ) → Map.get (s, p) c.by_session_prefix ≡ some k → ⊥
    no_entry s p k got = cc (sym (ap (Map.get (s, p)) h.index) ∙ got)
