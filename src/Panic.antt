-- ===== src/Panic.antt =====
-- Rust code that may panic: an index out of bounds, `unwrap` of `None`, `panic!`.
use kvflow_sim.Base.{Option, none, some}

pub data Outcome {ℓ} (A : Type ℓ) : Type ℓ where
  done : A → Outcome A
  panic : Outcome A

abbrev pub ◌>>=◌ {ℓ κ} : {S : Type ℓ} {T : Type κ} → Outcome S → (S → Outcome T) → Outcome T
panic >>= next = panic
done value >>= next = next value

infixl 5 ◌>>=◌
-- `unwrap()`, and indexing by `get_elem?`.
abbrev pub unwrap {ℓ} : {A : Type ℓ} → Option A → Outcome A
unwrap none = panic
unwrap (some a) = done a
