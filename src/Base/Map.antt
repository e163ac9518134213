-- ===== src/Base/Map.antt =====
-- `std::collections::HashMap` as an association list: a lookup finds the first entry of a key,
-- an insertion replaces what the key had. Order is not observable through these operations.
use kvflow_sim.Base.{
  ℕ, ◌+◌, ◌≡◌, refl, List, [], ◌∷◌, Option, none, some, map, arith, if◌then◌else◌, EqKey, ◌==◌, ap,
}

abbrev pub Map {ℓ κ} : Type ℓ → Type κ → Type (ℓ ⊔ κ)
Map K V = List (K × V)

module _ {ℓ κ} {K : Type ℓ} {V : Type κ} where
  abbrev pub values : Map K V → List V
  values = map (λ e. e.1)

  -- A sum over the values.
  abbrev pub total : (V → ℕ) → Map K V → ℕ
  total f [] = 0
  total f (e ∷ m) = f e.1 + total f m

module _ {ℓ κ} {K : Type ℓ} {V : Type κ} ⦃e : EqKey K⦄ where
  unfoldable pub get : K → Map K V → Option V
  get k [] = none
  get k ((j, v) ∷ m) = if j == k then some v else get k m

  unfoldable pub erase : K → Map K V → Map K V
  erase k [] = []
  erase k ((j, v) ∷ m) = if j == k then erase k m else (j, v) ∷ erase k m

  unfoldable pub insert : K → V → Map K V → Map K V
  unfolding erase
  insert k v m = (k, v) ∷ erase k m

  -- No key twice.
  abbrev pub Distinct : Map K V → Type κ
  Distinct [] = Unit
  Distinct ((k, v) ∷ m) = (get k m ≡ none) × Distinct m

  pub get-erase : (j k : K) (m : Map K V) → get j (erase k m) ≡ (if k == j then none else get j m)
  unfolding get erase
  get-erase j k [] = ground arith
  get-erase j k ((i, v) ∷ m) =
      ground (arith, get-erase j k m, e.beq_iff i k, e.beq_iff i j, e.beq_iff k j)

  pub get-insert :
      (j k : K) (v : V) (m : Map K V) → get j (insert k v m) ≡ (if k == j then some v else get j m)
  unfolding get insert
  get-insert j k v m = ground (arith, get-erase j k m)

  pub erase_absent : (k : K) (m : Map K V) → get k m ≡ none → erase k m ≡ m
  unfolding get erase
  erase_absent k [] h = refl
  erase_absent k ((j, v) ∷ m) h = ground (arith, erase_absent k m)

  pub erase-Distinct : (k : K) (m : Map K V) → Distinct m → Distinct (erase k m)
  unfolding erase
  erase-Distinct k [] d = d
  erase-Distinct k ((j, v) ∷ m) d = ground (arith, erase-Distinct k m d.1, get-erase j k m)

  pub insert-Distinct : (k : K) (v : V) (m : Map K V) → Distinct m → Distinct (insert k v m)
  unfolding insert
  insert-Distinct k v m d = ground (arith, get-erase k k m, e.beq_iff k k, erase-Distinct k m d)

  -- Taking an entry out takes its weight out, once.
  pub total-erase :
      (f : V → ℕ) (k : K) (m : Map K V) {v : V}
      → Distinct m
      → get k m ≡ some v
      → total f (erase k m) + f v ≡ total f m
  unfolding get erase
  total-erase f k [] d h = ground arith
  total-erase f k ((j, w) ∷ m) {v} d h =
      ground (
        arith,
        e.beq_iff j k,
        erase_absent k m,
        total-erase f k m {v = v} d.1,
        ap f {x = w} {y = v},
      )
