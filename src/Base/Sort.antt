-- ===== src/Base/Sort.antt =====
-- `sort_by_key`: a stable sort, by insertion. `less` compares the keys.
use kvflow_sim.Base.{
  Bool, true, false, List, [], ◌∷◌, if◌then◌else◌, ◌≡◌, ◌⊎◌, inl, inr, ◌↔◌, In, Bool-cases, ℕ, ◌+◌,
  refl, sum_by, arith, length,
}

module _ {A : Type 0} (less : A → A → Bool) where
  -- In front of everything that is not less, so that equal keys keep their order.
  unfoldable pub insert : A → List A → List A
  insert x [] = x ∷ []
  insert x (y ∷ l) = if less y x then y ∷ insert x l else x ∷ y ∷ l

  unfoldable pub sort : List A → List A
  unfolding insert
  sort [] = []
  sort (x ∷ l) = insert x (sort l)

  -- Nothing later in the list is less.
  abbrev pub Sorted : List A → Type 0
  Sorted [] = Unit
  Sorted (x ∷ l) = ((y : A) → In y l → less y x ≡ false) × Sorted l

  insert-In : (x y : A) (l : List A) → In y (insert x l) → (y ≡ x) ⊎ In y l
  unfolding insert
  insert-In x y [] i = i
  insert-In x y (z ∷ l) i = elim (Bool-cases (less z x)) [
    | inr e ↦ rw e at i
    | inl e ↦ elim (rw e at i) [
      | inl q ↦ inr (inl q)
      | inr j ↦ elim (insert-In x y l j) [ inl q ↦ inl q | inr k ↦ inr (inr k) ]
    ]
  ]

  In-insert : (x y : A) (l : List A) → (y ≡ x) ⊎ In y l → In y (insert x l)
  unfolding insert
  In-insert x y [] i = i
  In-insert x y (z ∷ l) i = elim (Bool-cases (less z x)) [
    | inr e ↦ rw e i
    | inl e ↦ rw e (elim i [
      | inl q ↦ inr (In-insert x y l (inl q))
      | inr (inl q) ↦ inl q
      | inr (inr k) ↦ inr (In-insert x y l (inr k))
    ])
  ]

  pub sort-In : (y : A) (l : List A) → In y (sort l) ↔ In y l
  unfolding sort
  sort-In y [] = (λ i. i, λ i. i)
  sort-In y (x ∷ l) = (
    λ i. elim (insert-In x y (sort l) i) [ inl q ↦ inl q | inr j ↦ inr ((sort-In y l).0 j) ],
    λ i. In-insert x y (sort l) (elim i [ inl q ↦ inl q | inr j ↦ inr ((sort-In y l).1 j) ]),
  )

  module _ (asym : (x y : A) → less x y ≡ true → less y x ≡ false)
      (weak : (x y z : A) → less z y ≡ false → less y x ≡ false → less z x ≡ false) where
    insert-Sorted : (x : A) (l : List A) → Sorted l → Sorted (insert x l)
    unfolding insert
    insert-Sorted x [] s = (λ y i. absurd i, tt)
    insert-Sorted x (y ∷ l) s = elim (Bool-cases (less y x)) [
      | inl e ↦ rw e (
        λ z i. elim (insert-In x z l i) [ inl q ↦ rw q (asym y x e) | inr j ↦ s.0 z j ],
        insert-Sorted x l s.1,
      )
      | inr e ↦ rw e (λ z i. elim i [ inl q ↦ rw q e | inr j ↦ weak x y z (s.0 z j) e ], s)
    ]

    pub sort-Sorted : (l : List A) → Sorted (sort l)
    unfolding sort
    sort-Sorted [] = tt
    sort-Sorted (x ∷ l) = insert-Sorted x (sort l) (sort-Sorted l)

  module _ (f : A → ℕ) where
    sum_by-insert : (x : A) (l : List A) → sum_by f (insert x l) ≡ f x + sum_by f l
    unfolding insert
    sum_by-insert x [] = refl
    sum_by-insert x (y ∷ l) = ground (arith, sum_by-insert x l)

    -- Sorting loses nothing and adds nothing.
    pub sum_by-sort : (l : List A) → sum_by f (sort l) ≡ sum_by f l
    unfolding sort
    sum_by-sort [] = refl
    sum_by-sort (x ∷ l) = omega (arith, sum_by-insert x (sort l), sum_by-sort l)

  length-insert : (x : A) (l : List A) → length (insert x l) ≡ length l + 1
  unfolding insert
  length-insert x [] = omega arith
  length-insert x (y ∷ l) = ground (arith, length-insert x l)

  pub length-sort : (l : List A) → length (sort l) ≡ length l
  unfolding sort
  length-sort [] = refl
  length-sort (x ∷ l) = omega (arith, length-insert x (sort l), length-sort l)
