-- ===== src/Base/Counts.antt =====
-- Two lists that have every key as often are equally long.
use kvflow_sim.Base.{
  ℕ, nat_eq, ◌+◌, ◌≤◌, ◌≡◌, refl, inl, inr, List, [], ◌∷◌, arith, length, sum_by, if◌then◌else◌,
  ◌==◌, Bool-cases,
}

module _ {A : Type 0} (key : A → ℕ) where
  abbrev pub count : ℕ → List A → ℕ
  count k = sum_by (λ a. if key a == k then 1 else 0)

  -- The first with the key taken out.
  take_out :
      (k : ℕ) (l : List A)
      → 1 ≤ count k l
      → (m : List A) × (length l ≡ length m + 1)
        × ((j : ℕ) → count j l ≡ count j m + (if k == j then 1 else 0))
  take_out k [] h = absurd (omega arith)
  take_out k (a ∷ l) h = elim (Bool-cases (key a == k)) [
    | inl found ↦ (l, omega arith, λ j. ground arith)
    | inr other ↦
        let (m, longer, rest) = take_out k l (ground arith) in
        (a ∷ m, omega (arith, longer), λ j. ground (arith, rest j))
  ]

pub same_counts-length :
    {A B : Type 0} (f : A → ℕ) (g : B → ℕ) (l : List A) (m : List B)
    → ((k : ℕ) → count f k l ≡ count g k m)
    → length l ≡ length m
same_counts-length f g [] [] same = refl
same_counts-length f g [] (b ∷ m) same = absurd (ground (arith, same (g b)))
same_counts-length f g (a ∷ l) m same =
    let (n, longer, rest) = take_out g (f a) m (ground (arith, same (f a))) in
    omega (arith, longer, same_counts-length f g l n (λ k. ground (arith, rest k, same k)))
