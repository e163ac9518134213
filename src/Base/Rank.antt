-- ===== src/Base/Rank.antt =====
-- The element at an index of a sorted list of numbers.
use kvflow_sim.Base.{
  ℕ, zero, suc, ◌≤◌, ◌<◌, ◌≡◌, refl, List, [], ◌∷◌, In, inl, inr, some, arith, length, get_elem?,
  min, ◌-◌, ltb, ltb→le, leb, subst, sum_by, if◌then◌else◌, false, ◌+◌,
}
use mathlib.Core.Option.{some-injective}
use kvflow_sim.Base.Sort.{Sorted, sort, sort-Sorted, sum_by-sort}

pub get_elem?-In : (l : List ℕ) (i : ℕ) → i < length l → (x : ℕ) × (get_elem? l i ≡ some x) × In x l
get_elem?-In [] i h = absurd (omega arith)
get_elem?-In (x ∷ l) zero h = (x, refl, inl refl)
get_elem?-In (x ∷ l) (suc i) h =
    let (y, got, there) = get_elem?-In l i (omega arith) in (y, got, inr there)

got-In : (l : List ℕ) (i : ℕ) {x : ℕ} → get_elem? l i ≡ some x → In x l
got-In [] i h = cc
got-In (y ∷ l) zero h = inl (ground arith)
got-In (y ∷ l) (suc i) h = inr (got-In l i h)

get_elem?-mono :
    (l : List ℕ) (i j : ℕ) {x y : ℕ}
    → Sorted ltb l
    → i ≤ j
    → get_elem? l i ≡ some x
    → get_elem? l j ≡ some y
    → x ≤ y
get_elem?-mono [] i j s h p q = cc
get_elem?-mono (z ∷ l) zero zero s h p q = ground arith
get_elem?-mono (z ∷ l) zero (suc j) {x} {y} s h p q =
    ground (arith, ltb→le y z (s.0 y (got-In l j q)))
get_elem?-mono (z ∷ l) (suc i) zero s h p q = absurd (omega arith)
get_elem?-mono (z ∷ l) (suc i) (suc j) s h p q = get_elem?-mono l i j s.1 (omega arith) p q

In-index : (l : List ℕ) (x : ℕ) → In x l → (i : ℕ) × (i < length l) × (get_elem? l i ≡ some x)
In-index [] x h = absurd h
In-index (y ∷ l) x (inl q) = (0, omega arith, rw q refl)
In-index (y ∷ l) x (inr h) = let (i, inside, got) = In-index l x h in (suc i, omega arith, got)

-- The list to rank.
pub ranked-Sorted : (l : List ℕ) → Sorted ltb (sort ltb l)
ranked-Sorted = sort-Sorted ltb (λ a b h. ground arith) (λ a b c h k. ground arith)

abbrev below : ℕ → List ℕ → ℕ
below x = sum_by (λ v. if ltb v x then 1 else 0)

abbrev at_most : ℕ → List ℕ → ℕ
at_most x = sum_by (λ v. if leb v x then 1 else 0)

-- The value in a place, counted from 0 and upwards: no more of the list than the place are below it,
-- and more than that are no greater.
abbrev pub IsInPlace : ℕ → List ℕ → ℕ → Type 0
IsInPlace i l x = (below x l ≤ i) × (i + 1 ≤ at_most x l)

none-below : (x : ℕ) (l : List ℕ) → ((y : ℕ) → In y l → ltb y x ≡ false) → below x l ≡ 0
none-below x [] h = refl
none-below x (y ∷ l) h = ground (arith, h y (inl refl), none-below x l (λ z i. h z (inr i)))

get_elem?-IsInPlace :
    (l : List ℕ) (i : ℕ) {x : ℕ} → Sorted ltb l → get_elem? l i ≡ some x → IsInPlace i l x
get_elem?-IsInPlace [] i s h = cc
get_elem?-IsInPlace (z ∷ l) zero s h =
    subst (IsInPlace 0 (z ∷ l)) (some-injective _ _ h)
      (ground (arith, none-below z l s.0), ground arith)
get_elem?-IsInPlace (z ∷ l) (suc i) {x} s h =
    let low = ltb→le x z (s.0 x (got-In l i h)) in
    let (a, b) = get_elem?-IsInPlace l i s.1 h in (ground (arith, low, a), ground (arith, low, b))

-- A value has its place in a list whether or not the list is sorted.
pub placed : (l : List ℕ) (i : ℕ) {x : ℕ} → get_elem? (sort ltb l) i ≡ some x → IsInPlace i l x
placed l i {x} h =
    let (a, b) = get_elem?-IsInPlace (sort ltb l) i (ranked-Sorted l) h in
    (
      omega (arith, a, sum_by-sort ltb (λ v. if ltb v x then 1 else 0) l),
      omega (arith, b, sum_by-sort ltb (λ v. if leb v x then 1 else 0) l),
    )

-- What stands at three indices, cut to the list, and at its two ends.
pub record Spread (l : List ℕ) (i j k : ℕ) : Type 0 where
  pub least : ℕ
  pub low : ℕ
  pub mid : ℕ
  pub high : ℕ
  pub greatest : ℕ
  pub first : get_elem? l 0 ≡ some least
  pub at_i : get_elem? l (min i (length l - 1)) ≡ some low
  pub at_j : get_elem? l (min j (length l - 1)) ≡ some mid
  pub at_k : get_elem? l (min k (length l - 1)) ≡ some high
  pub last : get_elem? l (length l - 1) ≡ some greatest
  pub within : In least l × In low l × In mid l × In high l × In greatest l
  pub ordered : (least ≤ low) × (low ≤ mid) × (mid ≤ high) × (high ≤ greatest)
  pub bounded : (x : ℕ) → In x l → (least ≤ x) × (x ≤ greatest)

pub in_order-Spread :
    (l : List ℕ) (i j k : ℕ) → Sorted ltb l → 1 ≤ length l → i ≤ j → j ≤ k → Spread l i j k
in_order-Spread l i j k s some_there low high =
    let (a, at_a, in_a) = get_elem?-In l 0 (omega arith) in
    let (b, at_b, in_b) = get_elem?-In l (min i (length l - 1)) (omega arith) in
    let (c, at_c, in_c) = get_elem?-In l (min j (length l - 1)) (omega arith) in
    let (d, at_d, in_d) = get_elem?-In l (min k (length l - 1)) (omega arith) in
    let (e, at_e, in_e) = get_elem?-In l (length l - 1) (omega arith) in
    record {
      least = a;
      low = b;
      mid = c;
      high = d;
      greatest = e;
      first = at_a;
      at_i = at_b;
      at_j = at_c;
      at_k = at_d;
      last = at_e;
      within = (in_a, in_b, in_c, in_d, in_e);
      ordered = (
        get_elem?-mono l 0 _ s (omega arith) at_a at_b,
        get_elem?-mono l _ _ s (omega arith) at_b at_c,
        get_elem?-mono l _ _ s (omega arith) at_c at_d,
        get_elem?-mono l _ _ s (omega arith) at_d at_e,
      );
      bounded = λ x h.
          let (n, inside, got) = In-index l x h in
          (
            get_elem?-mono l 0 n s (omega arith) at_a got,
            get_elem?-mono l n _ s (omega arith) got at_e,
          );
    }
