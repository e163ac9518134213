-- ===== src/Cache/State/Lookup.antt =====
-- The prefix index of src/cache/state.rs: what `lookup` finds after an insertion or a removal.
use kvflow_sim.Base.{
  ℕ, ◌≡◌, ◌≢◌, ap, refl, subst, Option, Bool, ◌&&◌, true, none, some, arith, if◌then◌else◌, ◌==◌,
  nat_eq, pair_eq, Bool-cases, Option-cases, inl, inr,
}
use mathlib.Core.Option.{some-injective}
use kvflow_sim.Base.Map
use kvflow_sim.Base.Map.{Map, get-erase, get-insert}
use kvflow_sim.Error.{Result, ok}
use kvflow_sim.Cache.Object.{KvObject}
use kvflow_sim.Cache.State.{CacheState, lookup, lookup_mut, slot, slot_in, remove, insert}
use kvflow_sim.Cache.State.Accounting.{IsWithin}
use kvflow_sim.Cache.State.Preserve.{entered, left}
use kvflow_sim.Cache.State.Invariant.{
  insert-Inserted, overflowed, stored, remove_known, remove_unknown,
}

-- An index entry names an object of just that session and prefix.
abbrev pub IndexSound : CacheState → Type 0
IndexSound c =
    (s p k : ℕ)
    → Map.get (s, p) c.by_session_prefix ≡ some k
    → (o : KvObject) × (Map.get k c.objects ≡ some o) × (o.session_id ≡ s) × (o.prefix_tokens ≡ p)

-- Whether an object is the one for a session and a prefix length.
abbrev pub is_for : KvObject → ℕ → ℕ → Bool
is_for o s p = (o.session_id == s) && (o.prefix_tokens == p)

-- With a sound index, what `lookup` finds has the session and the prefix that were asked for.
pub lookup_sound :
    (c : CacheState) (s p : ℕ) (o : KvObject)
    → IndexSound c
    → lookup c s p ≡ some o
    → (o.session_id ≡ s) × (o.prefix_tokens ≡ p)
unfolding lookup
lookup_sound c s p o sound h = elim (Option-cases (Map.get (s, p) c.by_session_prefix)) [
  | inl e ↦ ground arith
  | inr (k, e) ↦ ground (arith, sound s p k e)
]

-- `lookup_mut` refers to what `lookup` finds, and what is written there is what `lookup` then finds.
lookup-lookup_mut :
    (c : CacheState) (s p : ℕ) (o : KvObject) (write : KvObject → CacheState)
    → lookup_mut c s p ≡ some (o, write)
    → (lookup c s p ≡ some o) × ((w : KvObject) → lookup (write w) s p ≡ some w)
unfolding lookup lookup_mut
lookup-lookup_mut c s p o write h = indexed (Map.get (s, p) c.by_session_prefix) refl h
  where
    found :
        (k : ℕ) (x : Option KvObject)
        → Map.get (s, p) c.by_session_prefix ≡ some k
        → Map.get k c.objects ≡ x
        → slot c k x ≡ some (o, write)
        → (lookup c s p ≡ some o) × ((w : KvObject) → lookup (write w) s p ≡ some w)
    found k none i e h = absurd cc
    found k (some obj) i e h =
        let same = some-injective _ _ h in
        (
          rw (i, e) (ap (λ z. some z.0) same),
          λ w.
              subst (λ (g : KvObject → CacheState). lookup (g w) s p ≡ some w) (ap (λ z. z.1) same)
                (rw i (ground (arith, get-insert k k w c.objects))),
        )

    indexed :
        (x : Option ℕ)
        → Map.get (s, p) c.by_session_prefix ≡ x
        → slot_in c x ≡ some (o, write)
        → (lookup c s p ≡ some o) × ((w : KvObject) → lookup (write w) s p ≡ some w)
    indexed none i h = absurd cc
    indexed (some k) i h = found k (Map.get k c.objects) i refl h

module _ (c : CacheState) (obj : KvObject) where
  abbrev after_store : CacheState
  after_store =
      entered c obj.kv_id obj
        (Map.insert (obj.session_id, obj.prefix_tokens) obj.kv_id c.by_session_prefix)

  stored-IndexSound : IndexSound c → Map.get obj.kv_id c.objects ≡ none → IndexSound after_store
  stored-IndexSound sound fresh s p k h = elim (Bool-cases (is_for obj s p)) [
    | inl e ↦ (
      obj,
      ground (
        arith,
        get-insert (s, p) (obj.session_id, obj.prefix_tokens) obj.kv_id c.by_session_prefix,
        get-insert k obj.kv_id obj c.objects,
      ),
      ground arith,
      ground arith,
    )
    | inr e ↦
        let (o, found, os, op) = sound s p k (
          ground (
            arith,
            get-insert (s, p) (obj.session_id, obj.prefix_tokens) obj.kv_id c.by_session_prefix,
          )) in
        (o, ground (arith, get-insert k obj.kv_id obj c.objects), os, op)
  ]

  lookup-after_store :
      (s p : ℕ)
      → IndexSound c
      → Map.get obj.kv_id c.objects ≡ none
      → lookup after_store s p ≡ (if is_for obj s p then some obj else lookup c s p)
  unfolding lookup
  lookup-after_store s p sound fresh = elim (Option-cases (Map.get (s, p) c.by_session_prefix)) [
    | inl e ↦ ground (
      arith,
      get-insert (s, p) (obj.session_id, obj.prefix_tokens) obj.kv_id c.by_session_prefix,
      get-insert obj.kv_id obj.kv_id obj c.objects,
    )
    | inr (k, e) ↦ ground (
      arith,
      get-insert (s, p) (obj.session_id, obj.prefix_tokens) obj.kv_id c.by_session_prefix,
      get-insert obj.kv_id obj.kv_id obj c.objects,
      get-insert k obj.kv_id obj c.objects,
      sound s p k e,
    )
  ]

-- Storing an object under a new id keeps the index sound, whether or not there was room.
pub insert-IndexSound :
    (c : CacheState) (obj : KvObject)
    → IsWithin c
    → IndexSound c
    → Map.get obj.kv_id c.objects ≡ none
    → IndexSound (insert c obj).0
insert-IndexSound c obj w sound fresh = elim (insert-Inserted c obj w) [
  | overflowed n t e h r ↦ rw r sound
  | stored room r ↦ rw r (stored-IndexSound c obj sound fresh)
]

-- Where no tier is overfull and the index is sound, after a successful `insert` under an id not in
-- use `lookup` finds the object by its session and prefix, also where these were in use before, and
-- by every other key it finds what it found before.
pub lookup-insert :
    (c : CacheState) (obj : KvObject) (s p : ℕ)
    → IsWithin c
    → IndexSound c
    → Map.get obj.kv_id c.objects ≡ none
    → (insert c obj).1 ≡ ok tt
    → lookup (insert c obj).0 s p ≡ (if is_for obj s p then some obj else lookup c s p)
lookup-insert c obj s p w sound fresh done = elim (insert-Inserted c obj w) [
  | overflowed n t e h r ↦ cc (ap (λ (x : CacheState × Result (Unit {0})). x.1) r)
  | stored room r ↦ rw r (lookup-after_store c obj s p sound fresh)
]

module _ (c : CacheState) (k : ℕ) (obj : KvObject) (sound : IndexSound c)
    (found : Map.get k c.objects ≡ some obj) where
  abbrev after_left : CacheState
  after_left = left c k obj (Map.erase (obj.session_id, obj.prefix_tokens) c.by_session_prefix)

  left-IndexSound : IndexSound after_left
  left-IndexSound s p j h =
      let (o, there, os, op) = sound s p j (
        ground (arith, get-erase (s, p) (obj.session_id, obj.prefix_tokens) c.by_session_prefix)) in
      (
        o,
        ground (
          arith,
          get-erase j k c.objects,
          get-erase (s, p) (obj.session_id, obj.prefix_tokens) c.by_session_prefix,
        ),
        os,
        op,
      )

  -- Removing an object takes away the index entry of its session and prefix, whichever object that
  -- names, and no other.
  lookup-left : (s p : ℕ) → lookup after_left s p ≡ (if is_for obj s p then none else lookup c s p)
  unfolding lookup
  lookup-left s p = elim (Option-cases (Map.get (s, p) c.by_session_prefix)) [
    | inl e ↦
        ground (arith, get-erase (s, p) (obj.session_id, obj.prefix_tokens) c.by_session_prefix)
    | inr (j, e) ↦ ground (
      arith,
      get-erase (s, p) (obj.session_id, obj.prefix_tokens) c.by_session_prefix,
      get-erase j k c.objects,
      sound s p j e,
    )
  ]

-- `remove` keeps the index sound.
pub remove-IndexSound : (c : CacheState) (k : ℕ) → IndexSound c → IndexSound (remove c k).0
remove-IndexSound c k sound = elim (Option-cases (Map.get k c.objects)) [
  | inl e ↦ rw (remove_unknown c k e) sound
  | inr (obj, e) ↦ rw (remove_known c k obj e) (left-IndexSound c k obj sound e)
]

-- Where the index is sound, after the removal of a stored object its session and prefix are found
-- no more, and every other key finds what it found before.
pub lookup-remove :
    (c : CacheState) (k : ℕ) (obj : KvObject) (s p : ℕ)
    → IndexSound c
    → Map.get k c.objects ≡ some obj
    → lookup (remove c k).0 s p ≡ (if is_for obj s p then none else lookup c s p)
lookup-remove c k obj s p sound e = rw (remove_known c k obj e) (lookup-left c k obj sound e s p)

-- Where the index is sound and a newer object has the session and the prefix of an older one that
-- is still stored, the removal of the older one makes the newer one unreachable: it stays in the
-- cache under its id, and `lookup` no longer finds it.
pub remove_hides_newer :
    (c : CacheState) (old young : ℕ) (o : KvObject) (y : KvObject)
    → IndexSound c
    → Map.get old c.objects ≡ some o
    → Map.get young c.objects ≡ some y
    → old ≢ young
    → is_for o y.session_id y.prefix_tokens ≡ true
    → lookup c y.session_id y.prefix_tokens ≡ some y
    → (lookup (remove c old).0 y.session_id y.prefix_tokens ≡ none)
      × (Map.get young (remove c old).0.objects ≡ some y)
remove_hides_newer c old young o y sound eo ey differ same reached = (
  rw (lookup-remove c old o y.session_id y.prefix_tokens sound eo) (rw same),
  rw (remove_known c old o eo) (ground (arith, get-erase young old c.objects)),
)
