-- ===== src/Serving/Metrics/Slos.antt =====
-- `ServingSummary::apply_slos` of src/serving/metrics.rs.
use kvflow_sim.Base.{
  ℕ, nat_eq, ◌+◌, ◌≤◌, ◌≡◌, refl, ◌∙◌, ap, inl, inr, Bool, false, ◌&&◌, ◌||◌, List, [], ◌∷◌, In,
  Option, none, some, arith, length, sum_by, ltb, ◌==◌, u64_max, Option-cases, Bool-cases,
}
use kvflow_sim.Base.Map
use kvflow_sim.Base.Map.{Map, get-insert}
use kvflow_sim.Trace.Request.{LlmRequest}
use kvflow_sim.Serving.Runner.{RequestResult, ttft_ns, mean_tbt_ns}
use kvflow_sim.Serving.Engine.Sound.{is, completed}
use kvflow_sim.Serving.Metrics.{
  ServingSummary, index_results, results_by_id, violations, count_slos, apply_slos,
}

-- A time beyond the objective, if there is one.
abbrev pub exceeds : Option ℕ → ℕ → Bool
exceeds none value = false
exceeds (some slo) value = ltb slo value

-- Some result with the id takes longer.
abbrev pub slow : (RequestResult → ℕ) → Option ℕ → ℕ → List RequestResult → Bool
slow measure slo k [] = false
slow measure slo k (r ∷ l) = (r.request_id == k && exceeds slo (measure r)) || slow measure slo k l

-- How many of the requests are slower than they ask for.
abbrev pub late_first : List RequestResult → List LlmRequest → ℕ
late_first results =
    sum_by (λ (q : LlmRequest). is (slow ttft_ns q.slo_ttft_ns q.request_id results))

abbrev pub late_between : List RequestResult → List LlmRequest → ℕ
late_between results =
    sum_by (λ (q : LlmRequest). is (slow mean_tbt_ns q.slo_tbt_ns q.request_id results))

index_other :
    (k : ℕ) (l : List RequestResult) (m : Map ℕ RequestResult)
    → completed k l ≡ 0
    → Map.get k (index_results m l) ≡ Map.get k m
index_other k [] m none_there = refl
index_other k (r ∷ l) m none_there =
    ground (arith, index_other k l (Map.insert r.request_id r m), get-insert k r.request_id r m)

slow_other :
    (f : RequestResult → ℕ) (slo : Option ℕ) (k : ℕ) (l : List RequestResult)
    → completed k l ≡ 0
    → slow f slo k l ≡ false
slow_other f slo k [] h = refl
slow_other f slo k (r ∷ l) h = ground (arith, slow_other f slo k l)

-- With one result an id, the map has it.
index_one :
    (k : ℕ) (l : List RequestResult) (m : Map ℕ RequestResult)
    → completed k l ≡ 1
    → (r : RequestResult) × (Map.get k (index_results m l) ≡ some r)
      × ((f : RequestResult → ℕ) (slo : Option ℕ) → slow f slo k l ≡ exceeds slo (f r))
index_one k [] m one = absurd (omega arith)
index_one k (r ∷ l) m one = elim (Bool-cases (r.request_id == k)) [
  | inr other ↦
      let (x, got, same) = index_one k l (Map.insert r.request_id r m) (ground (arith, one)) in
      (x, got, λ f slo. rw other (same f slo))
  | inl found ↦
      let rest : completed k l ≡ 0 = ground (arith, one) in
      (
        r,
        index_other k l _ rest ∙ (get-insert k r.request_id r m ∙ rw found refl),
        λ f slo. ground (arith, slow_other f slo k l rest),
      )
]

violations-exceeds :
    (slo : Option ℕ) (value count late : ℕ)
    → count + 1 ≤ u64_max
    → late ≡ is (exceeds slo value)
    → violations slo value count ≡ count + late
violations-exceeds none value count late h q = omega arith
violations-exceeds (some slo) value count late h q = ground arith

module _ {F : Type 0} (results : List RequestResult) where
  abbrev tallied : ServingSummary F → ℕ → ℕ → ServingSummary F
  tallied self first between = record self {
    slo_violations_ttft = first;
    slo_violations_tbt = between;
  }

  counted :
      (requests : List LlmRequest) (self : ServingSummary F) (a b : ℕ)
      → ((q : LlmRequest) → In q requests → completed q.request_id results ≡ 1)
      → self.slo_violations_ttft + length requests ≤ u64_max
      → self.slo_violations_tbt + length requests ≤ u64_max
      → a ≡ self.slo_violations_ttft + late_first results requests
      → b ≡ self.slo_violations_tbt + late_between results requests
      → count_slos (results_by_id results) self requests ≡ (tallied self a b, some tt)
  unfolding count_slos results_by_id
  counted [] self a b all fits fits2 sum_a sum_b =
      let same_a : self.slo_violations_ttft ≡ a = omega (arith, sum_a) in
      let same_b : self.slo_violations_tbt ≡ b = omega (arith, sum_b) in
      ap (λ n. (tallied self n self.slo_violations_tbt, some tt)) same_a
      ∙ ap (λ n. (tallied self a n, some tt)) same_b
  counted (q ∷ rest) self a b all fits fits2 sum_a sum_b =
      let (r, got, same) = index_one q.request_id results [] (all q (inl refl)) in
      let first =
        violations-exceeds q.slo_ttft_ns (ttft_ns r) self.slo_violations_ttft _ (omega arith)
          (ap is (same ttft_ns q.slo_ttft_ns)) in
      let between =
        violations-exceeds q.slo_tbt_ns (mean_tbt_ns r) self.slo_violations_tbt _ (omega arith)
          (ap is (same mean_tbt_ns q.slo_tbt_ns)) in
      rw (got, count_slos)
        (counted rest _ a b (λ x i. all x (inr i)) (ground (arith, first)) (ground (arith, between))
          (omega (arith, first)) (omega (arith, between)))

  -- Where every request has just one result, and there are no more requests than a word counts,
  -- `apply_slos` succeeds: it counts the requests whose result is slower to the first token, or
  -- between tokens, than they ask for, and changes nothing else.
  pub apply_slos_counts :
      (self : ServingSummary F) (requests : List LlmRequest)
      → ((q : LlmRequest) → In q requests → completed q.request_id results ≡ 1)
      → length requests ≤ u64_max
      → apply_slos self results requests ≡ (
        record self {
          slo_violations_ttft = late_first results requests;
          slo_violations_tbt = late_between results requests;
        },
        some tt,
      )
  unfolding apply_slos
  apply_slos_counts self requests all few =
      counted requests (tallied self 0 0) _ _ all (omega (arith, few)) (omega (arith, few))
        (omega arith) (omega arith)

  -- A request without a result.
  pub apply_slos_lacks :
      (self : ServingSummary F) (requests : List LlmRequest) (q : LlmRequest)
      → In q requests
      → completed q.request_id results ≡ 0
      → (apply_slos self results requests).1 ≡ none
  unfolding apply_slos count_slos results_by_id Map.get
  apply_slos_lacks self requests q there gone = lacks requests (tallied self 0 0) there
    where
      lacks :
          (requests : List LlmRequest) (self : ServingSummary F)
          → In q requests
          → (count_slos (results_by_id results) self requests).1 ≡ none
      lacks [] self i = absurd i
      lacks (x ∷ rest) self (inl same) =
          rw (← same) (rw (index_other q.request_id results [] gone, count_slos) refl)
      lacks (x ∷ rest) self (inr i) =
          elim (Option-cases (Map.get x.request_id (results_by_id results))) [
            | inl missing ↦ rw (missing, count_slos) refl
            | inr (r, got) ↦ rw (got, count_slos) (lacks rest _ i)
          ]
