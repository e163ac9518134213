-- ===== src/Base/Select.antt =====
-- Choosing from a list: `filter`, `enumerate`, `Iterator::min_by_key` (the first of the smallest)
-- and `Iterator::max_by_key` (the last of the greatest).
use mathlib.Core.Option.{some-injective}
use kvflow_sim.Base.{
  ℕ, zero, suc, ◌+◌, ◌≤◌, ◌≡◌, refl, ap, subst, Bool, true, false, ◌⊎◌, inl, inr, List, [], ◌∷◌,
  Option, none, some, arith, ltb, if◌then◌else◌, keep, In, get_elem?, Bool-cases,
}

module _ {A : Type 0} where
  In-keep_split :
      (p : A → Bool) (x y : A) (l k : List A)
      → p y ≡ true
      → (In x k → In x l × (p x ≡ true))
      → (x ≡ y) ⊎ In x k
      → In x (y ∷ l) × (p x ≡ true)
  In-keep_split p x y l k h ih (inl e) = (inl e, rw e h)
  In-keep_split p x y l k h ih (inr n) = let (a, b) = ih n in (inr a, b)

  pub In-keep : (p : A → Bool) (x : A) (l : List A) → In x (keep p l) → In x l × (p x ≡ true)
  In-keep p x [] m = absurd m
  In-keep p x (y ∷ l) m = elim (Bool-cases (p y)) [
    | inl h ↦ In-keep_split p x y l (keep p l) h (In-keep p x l) (rw h at m)
    | inr h ↦ let (a, b) = In-keep p x l (rw h at m) in (inr a, b)
  ]

  pub keep-In : (p : A → Bool) (x : A) (l : List A) → In x l → p x ≡ true → In x (keep p l)
  keep-In p x [] m h = absurd m
  keep-In p x (y ∷ l) (inl e) h = rw (subst (λ z. p z ≡ true) e h) (inl e)
  keep-In p x (y ∷ l) (inr m) h = elim (Bool-cases (p y)) [
    | inl k ↦ rw k (inr (keep-In p x l m h))
    | inr k ↦ rw k (keep-In p x l m h)
  ]

  -- `filter(..)` leaves nothing only of a list where nothing passes.
  pub keep-nil : (p : A → Bool) (x : A) (l : List A) → keep p l ≡ [] → In x l → p x ≡ false
  keep-nil p x l e m = elim (Bool-cases (p x)) [
    | inl h ↦ absurd (subst (In x) e (keep-In p x l m h))
    | inr h ↦ h
  ]

  -- `enumerate()`, counting from `i`.
  unfoldable pub enumerate_from : ℕ → List A → List (ℕ × A)
  enumerate_from i [] = []
  enumerate_from i (x ∷ l) = (i, x) ∷ enumerate_from (suc i) l

  pub enumerate-get :
      (i j : ℕ) (x : A) (l : List A)
      → In (j, x) (enumerate_from i l)
      → (m : ℕ) × (j ≡ i + m) × (get_elem? l m ≡ some x)
  unfolding enumerate_from
  enumerate-get i j x [] m = absurd m
  enumerate-get i j x (y ∷ l) (inl e) = (0, ground arith, ground arith)
  enumerate-get i j x (y ∷ l) (inr m) =
      let (n, e, h) = enumerate-get (suc i) j x l m in (suc n, omega arith, h)

  pub get-enumerate :
      (i m : ℕ) (x : A) (l : List A) → get_elem? l m ≡ some x → In (i + m, x) (enumerate_from i l)
  unfolding enumerate_from
  get-enumerate i m x [] h = cc
  get-enumerate i zero x (y ∷ l) h = inl (ground arith)
  get-enumerate i (suc m) x (y ∷ l) h = inr (
      subst (λ n. In (n, x) (enumerate_from (suc i) l)) (omega arith)
        (get-enumerate (suc i) m x l h))

  -- The smaller of two by key, the first where they are equal.
  abbrev pub min_from : (A → ℕ) → A → List A → A
  min_from f best [] = best
  min_from f best (x ∷ l) = min_from f (if ltb (f x) (f best) then x else best) l

  abbrev pub min_by_key : (A → ℕ) → List A → Option A
  min_by_key f [] = none
  min_by_key f (x ∷ l) = some (min_from f x l)

  -- The last of the greatest.
  abbrev pub max_from : (A → ℕ) → A → List A → A
  max_from f best [] = best
  max_from f best (x ∷ l) = max_from f (if ltb (f x) (f best) then best else x) l

  abbrev pub max_by_key : (A → ℕ) → List A → Option A
  max_by_key f [] = none
  max_by_key f (x ∷ l) = some (max_from f x l)

  min_from-In : (f : A → ℕ) (best : A) (l : List A) → In (min_from f best l) (best ∷ l)
  min_from-In f best [] = inl refl
  min_from-In f best (x ∷ l) = ground (arith, min_from-In f x l, min_from-In f best l)

  min_from-le-best : (f : A → ℕ) (best : A) (l : List A) → f (min_from f best l) ≤ f best
  min_from-le-best f best [] = omega arith
  min_from-le-best f best (x ∷ l) =
      ground (arith, min_from-le-best f x l, min_from-le-best f best l)

  min_from-le : (f : A → ℕ) (best y : A) (l : List A) → In y l → f (min_from f best l) ≤ f y
  min_from-le f best y [] m = absurd m
  min_from-le f best y (x ∷ l) (inl e) =
      ground (arith, min_from-le-best f x l, min_from-le-best f best l, ap f e)
  min_from-le f best y (x ∷ l) (inr m) =
      ground (arith, min_from-le f x y l m, min_from-le f best y l m)

  max_from-In : (f : A → ℕ) (best : A) (l : List A) → In (max_from f best l) (best ∷ l)
  max_from-In f best [] = inl refl
  max_from-In f best (x ∷ l) = ground (arith, max_from-In f x l, max_from-In f best l)

  max_from-le-best : (f : A → ℕ) (best : A) (l : List A) → f best ≤ f (max_from f best l)
  max_from-le-best f best [] = omega arith
  max_from-le-best f best (x ∷ l) =
      ground (arith, max_from-le-best f x l, max_from-le-best f best l)

  max_from-le : (f : A → ℕ) (best y : A) (l : List A) → In y l → f y ≤ f (max_from f best l)
  max_from-le f best y [] m = absurd m
  max_from-le f best y (x ∷ l) (inl e) =
      ground (arith, max_from-le-best f x l, max_from-le-best f best l, ap f e)
  max_from-le f best y (x ∷ l) (inr m) =
      ground (arith, max_from-le f x y l m, max_from-le f best y l m)

  pub min_by_key-In : (f : A → ℕ) (l : List A) {x : A} → min_by_key f l ≡ some x → In x l
  min_by_key-In f [] h = cc
  min_by_key-In f (y ∷ l) {x} h =
      subst (λ z. In z (y ∷ l)) (some-injective _ _ h) (min_from-In f y l)

  pub min_by_key-le :
      (f : A → ℕ) (l : List A) {x : A} (y : A) → min_by_key f l ≡ some x → In y l → f x ≤ f y
  min_by_key-le f [] y h m = absurd m
  min_by_key-le f (z ∷ l) {x} y h (inl e) =
      ground (arith, ap f (some-injective _ _ h), ap f e, min_from-le-best f z l)
  min_by_key-le f (z ∷ l) {x} y h (inr m) =
      ground (arith, ap f (some-injective _ _ h), min_from-le f z y l m)

  pub min_by_key-none : (f : A → ℕ) (l : List A) → min_by_key f l ≡ none → l ≡ []
  min_by_key-none f [] h = refl
  min_by_key-none f (x ∷ l) h = cc

  pub max_by_key-In : (f : A → ℕ) (l : List A) {x : A} → max_by_key f l ≡ some x → In x l
  max_by_key-In f [] h = cc
  max_by_key-In f (y ∷ l) {x} h =
      subst (λ z. In z (y ∷ l)) (some-injective _ _ h) (max_from-In f y l)

  pub max_by_key-le :
      (f : A → ℕ) (l : List A) {x : A} (y : A) → max_by_key f l ≡ some x → In y l → f y ≤ f x
  max_by_key-le f [] y h m = absurd m
  max_by_key-le f (z ∷ l) {x} y h (inl e) =
      ground (arith, ap f (some-injective _ _ h), ap f e, max_from-le-best f z l)
  max_by_key-le f (z ∷ l) {x} y h (inr m) =
      ground (arith, ap f (some-injective _ _ h), max_from-le f z y l m)
