-- ===== src/Cache/Tests.antt =====
-- Runs of src/cache on small inputs, among them the source's own tests, and the theorems there.
use kvflow_sim.Base.{ℕ, ◌≡◌, refl, none, some, arith, nat_eq, pair_eq}
use kvflow_sim.Base.Map
use kvflow_sim.Error.{err, invalid_model_profile, cache_overflow}
use kvflow_sim.Cache.Tier.{TierKind, pool_key}
use kvflow_sim.Cache.Object.{CacheLocation, KvObject}
use kvflow_sim.Cache.State.{
  CacheState, new, set_capacity, usage, capacity, insert, remove, relocate, lookup,
}
use kvflow_sim.Cache.State.Accounting.{IsAccounted, IsWithin}
use kvflow_sim.Cache.State.Invariant.{
  insert-Inserted, Inserted, insert-IsAccounted, insert-IsWithin,
}
use kvflow_sim.Cache.State.Relocate.{SameView, relocate_failed-SameView, relocate-IsAccounted}
use kvflow_sim.Cache.State.Lookup.{
  IndexSound, insert-IndexSound, lookup-insert, lookup-remove, remove_hides_newer,
}

program : Unit {0}
unfolding new set_capacity usage capacity insert remove relocate lookup Map.get Map.insert Map.erase
program = tt

abbrev object : ℕ → ℕ → KvObject
object id bytes = record {
  kv_id = id;
  session_id = 7;
  model_id = "llama-8b";
  prefix_tokens = 1024;
  bytes = bytes;
  location = CacheLocation.gpu 0 0;
  last_access_ns = 100;
  ref_count = 0;
}

empty : CacheState
empty = set_capacity (set_capacity new 0 TierKind.gpu 1000) 0 TierKind.cpu 300

one : CacheState
one = (insert empty (object 0 500)).0

-- A second object for the same session and prefix.
two : CacheState
two = (insert one (object 1 400)).0

insert_and_lookup_roundtrip : lookup one 7 1024 ≡ some (object 0 500)
unfolding program one empty
insert_and_lookup_roundtrip = refl

insert_fails_when_over_capacity :
    (insert one (object 1 501)).1
    ≡ err (invalid_model_profile (cache_overflow 0 TierKind.gpu 501 500))
unfolding program one empty
insert_fails_when_over_capacity = refl

remove_frees_capacity : usage (remove one 0).0 0 TierKind.gpu ≡ 0
unfolding program one empty
remove_frees_capacity = refl

empty-IsAccounted : IsAccounted empty
unfolding program empty
empty-IsAccounted = record {
  distinct = tt;
  keyed = λ k o h. cc;
  exact = λ n t. ground arith;
  capacity_words = λ n t. ground arith;
  usage_words = λ n t. ground arith;
}

empty-IsWithin : IsWithin empty
unfolding program empty
empty-IsWithin n t = ground arith

empty-IndexSound : IndexSound empty
unfolding program empty
empty-IndexSound s p k h = cc

one-IsAccounted : IsAccounted one
unfolding one
one-IsAccounted =
    insert-IsAccounted empty (object 0 500) empty-IsAccounted empty-IsWithin empty_has_none
  where
    empty_has_none : Map.get 0 empty.objects ≡ none
    empty_has_none = unfold program empty in refl

one-IsWithin : IsWithin one
unfolding one
one-IsWithin = insert-IsWithin empty (object 0 500) empty-IsAccounted empty-IsWithin

one_has : Map.get 0 one.objects ≡ some (object 0 500)
unfolding program one empty
one_has = refl

one_has_no_other : Map.get 1 one.objects ≡ none
unfolding program one empty
one_has_no_other = refl

one-IndexSound : IndexSound one
unfolding one
one-IndexSound =
    insert-IndexSound empty (object 0 500) empty-IsWithin empty-IndexSound
      (unfold program empty in refl)

two-IndexSound : IndexSound two
unfolding two
two-IndexSound = insert-IndexSound one (object 1 400) one-IsWithin one-IndexSound one_has_no_other

insert-Inserted_example : Inserted one (object 1 501) (insert one (object 1 501))
insert-Inserted_example = insert-Inserted one (object 1 501) one-IsWithin

insert-IsAccounted_example : IsAccounted two
unfolding two
insert-IsAccounted_example =
    insert-IsAccounted one (object 1 400) one-IsAccounted one-IsWithin one_has_no_other

-- The host tier has 300 bytes: the move is refused and rolled back.
relocate_failed-SameView_example : SameView one (relocate one 0 (CacheLocation.cpu 0) 200).0
unfolding program one empty
relocate_failed-SameView_example =
    relocate_failed-SameView one 0 (CacheLocation.cpu 0) 200 one-IsAccounted one-IsWithin (λ e. cc)

relocate-IsAccounted_example : IsAccounted (relocate one 0 (CacheLocation.cpu 0) 200).0
relocate-IsAccounted_example =
    relocate-IsAccounted one 0 (CacheLocation.cpu 0) 200 one-IsAccounted one-IsWithin

lookup-insert_example : lookup two 7 1024 ≡ some (object 1 400)
unfolding two
lookup-insert_example =
    lookup-insert one (object 1 400) 7 1024 one-IsWithin one-IndexSound one_has_no_other
      (unfold program one empty in refl)

lookup-remove_example : lookup (remove one 0).0 7 1024 ≡ none
lookup-remove_example = lookup-remove one 0 (object 0 500) 7 1024 one-IndexSound one_has

-- Two turns with one session and prefix length: the removal of the first hides the second.
remove_hides_newer_example :
    (lookup (remove two 0).0 7 1024 ≡ none)
    × (Map.get 1 (remove two 0).0.objects ≡ some (object 1 400))
remove_hides_newer_example =
    remove_hides_newer two 0 1 (object 0 500) (object 1 400) two-IndexSound
      (unfold program two one empty in refl) (unfold program two one empty in refl) (omega arith)
      refl lookup-insert_example
