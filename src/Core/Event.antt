-- ===== src/Core/Event.antt =====
-- src/core/event.rs. `std::collections::BinaryHeap` is a list from which `pop` takes the greatest
-- element by `Ord`; of equal ones, which the sequence numbers rule out, the first.
use Prim.Native.Nat.{compare, Ordering}
use kvflow_sim.Base.{
  ℕ, Bool, true, false, List, [], ◌∷◌, Option, none, some, if◌then◌else◌, sat_add, length,
}

pub record Event {ℓ} (T : Type ℓ) : Type ℓ where
  pub time_ns : ℕ
  pub seq : ℕ
  pub kind : T

pub record EventQueue {ℓ} (T : Type ℓ) : Type ℓ where
  pub queue : List (Event T)
  pub next_seq : ℕ

abbrev then_with : Ordering → Ordering → Ordering
then_with a b = elim a [ Ordering.eq ↦ b | other ↦ other ]

module _ {ℓ} {T : Type ℓ} where
  -- Reversed, so that the heap pops the smallest time first.
  abbrev pub cmp : Event T → Event T → Ordering
  cmp self other = then_with (compare other.time_ns self.time_ns) (compare other.seq self.seq)

  unfoldable pub is_less : Event T → Event T → Bool
  is_less a b = elim (cmp a b) [ Ordering.lt ↦ true | _ ↦ false ]

  -- The greatest of `e ∷ l`, and the others.
  unfoldable pub split_max : Event T → List (Event T) → Event T × List (Event T)
  split_max e [] = (e, [])
  split_max e (f ∷ l) =
      let (m, rest) = split_max f l in if is_less e m then (m, e ∷ rest) else (e, m ∷ rest)

  abbrev pub heap_pop : List (Event T) → Option (Event T × List (Event T))
  heap_pop [] = none
  heap_pop (e ∷ l) = some (split_max e l)

  unfoldable pub new : EventQueue T
  new = record { queue = []; next_seq = 0 }

  unfoldable pub schedule : EventQueue T → ℕ → T → EventQueue T
  schedule q time_ns kind = record {
    queue = record { time_ns = time_ns; seq = q.next_seq; kind = kind } ∷ q.queue;
    next_seq = sat_add q.next_seq 1;
  }

  unfoldable pub pop : EventQueue T → Option (Event T × EventQueue T)
  pop q = elim (heap_pop q.queue) [
    | none ↦ none
    | some (e, rest) ↦ some (e, record q { queue = rest })
  ]

  unfoldable pub is_empty : EventQueue T → Bool
  is_empty q = elim q.queue [ [] ↦ true | _ ∷ _ ↦ false ]

  unfoldable pub len : EventQueue T → ℕ
  len q = length q.queue

  unfoldable pub peek : EventQueue T → Option (Event T)
  peek q = elim (heap_pop q.queue) [ none ↦ none | some (e, _) ↦ some e ]
