-- ===== src/Trace/Stats/Counts.antt =====
-- `TraceStats::from_requests` of src/trace/stats.rs.
use kvflow_sim.Base.{
  ℕ, ◌+◌, ◌≤◌, ◌≡◌, refl, sym, ◌∙◌, ap, true, false, inl, inr, List, [], ◌||◌, ◌==◌, ◌∷◌, ◌++◌, map,
  some, arith, length, length-map, u64_max, Bool-cases, EqKey, nat_eq, pair_eq,
}
use mathlib.Core.List.{append-nil, append_assoc}
use kvflow_sim.Float.{Float, IsIeee}
use kvflow_sim.Panic.{done}
use kvflow_sim.Trace.Request.{LlmRequest, reused_prefix_tokens}
use kvflow_sim.Trace.Stats.{
  TraceStats, FieldStats, trace_stats_of, Collected, contains, add, no_requests, collect_one,
  collect, from_values, from_requests,
}
use kvflow_sim.Trace.Stats.Fields.{Describes, from_values-Describes}

module _ {K : Type 0} ⦃e : EqKey K⦄ where
  -- No key twice.
  abbrev pub Distinct : List K → Type 0
  Distinct [] = Unit
  Distinct (k ∷ l) = (contains k l ≡ false) × Distinct l

  -- That many different keys are in the list.
  pub record Numbers (keys : List K) (n : ℕ) : Type 0 where
    pub set : List K
    pub distinct : Distinct set
    pub same : (k : K) → contains k set ≡ contains k keys
    pub size : length set ≡ n

  abbrev add_all : List K → List K → List K
  add_all [] set = set
  add_all (k ∷ keys) set = add_all keys (add k set)

  add-Distinct : (k : K) (l : List K) → Distinct l → Distinct (add k l)
  add-Distinct k l d = ground (arith, d)

  add_all-Distinct : (keys set : List K) → Distinct set → Distinct (add_all keys set)
  add_all-Distinct [] set d = d
  add_all-Distinct (k ∷ keys) set d = add_all-Distinct keys (add k set) (add-Distinct k set d)

  contains-add : (j k : K) (l : List K) → contains j (add k l) ≡ (k == j || contains j l)
  contains-add j k l = elim (Bool-cases (contains k l)) [
    | inl old ↦ elim (Bool-cases (k == j)) [
      | inl same ↦ rw (old, same) (ap (λ x. contains x l) (sym ((e.beq_iff k j).0 same)) ∙ old)
      | inr other ↦ rw (old, other) refl
    ]
    | inr new ↦ rw new refl
  ]

  contains-add_all :
      (j : K) (keys set : List K)
      → contains j (add_all keys set) ≡ (contains j keys || contains j set)
  contains-add_all j [] set = refl
  contains-add_all j (k ∷ keys) set =
      ground (arith, contains-add_all j keys (add k set), contains-add j k set)

  length-add_all : (keys set : List K) → length (add_all keys set) ≤ length keys + length set
  length-add_all [] set = omega arith
  length-add_all (k ∷ keys) set = ground (arith, length-add_all keys (add k set))

  add_all-Numbers : (keys set : List K) → set ≡ add_all keys [] → Numbers keys (length set)
  add_all-Numbers keys set same = record {
    set = add_all keys [];
    distinct = add_all-Distinct keys [] tt;
    same = λ k. ground (arith, contains-add_all k keys []);
    size = ap length (sym same);
  }

-- There are no more first components than pairs.
firsts-fewer :
    (pairs : List (ℕ × ℕ)) (a : List ℕ) (b : List (ℕ × ℕ))
    → ((i j : ℕ) → contains (i, j) b ≡ true → contains i a ≡ true)
    → length a ≤ length b
    → length (add_all (map (λ p. p.0) pairs) a) ≤ length (add_all pairs b)
firsts-fewer [] a b covers fewer = fewer
firsts-fewer ((i, j) ∷ pairs) a b covers fewer =
    firsts-fewer pairs (add i a) (add (i, j) b)
      (λ m n. ground (arith, contains-add m i a, contains-add (m, n) (i, j) b, covers m n))
      (ground (arith, covers i j))

module _ {F : Type 0} (float : Float F) where
  -- What the statistics say of the requests.
  pub record Tells (requests : List LlmRequest) (s : TraceStats F) : Type 0 where
    pub counted : s.requests ≡ length requests
    pub sessions : Numbers {K = ℕ} (map (λ (r : LlmRequest). r.session_id) requests) s.sessions
    pub turns :
        Numbers {K = ℕ × ℕ} (map (λ (r : LlmRequest). (r.session_id, r.turn_id)) requests) s.turns
    pub fewer : (s.sessions ≤ s.turns) × (s.turns ≤ s.requests)
    pub prompt :
        Describes float (map (λ (r : LlmRequest). r.prompt_tokens) requests) s.prompt_tokens
    pub new_prompt :
        Describes float (map (λ (r : LlmRequest). r.new_prompt_tokens) requests) s.new_prompt_tokens
    pub reused : Describes float (map reused_prefix_tokens requests) s.reused_prefix_tokens
    pub output :
        Describes float (map (λ (r : LlmRequest). r.output_tokens) requests) s.output_tokens

  record Collects (l : List LlmRequest) (c d : Collected F) : Type 0 where
    sessions : d.sessions ≡ add_all (map (λ (r : LlmRequest). r.session_id) l) c.sessions
    turns : d.turns ≡ add_all (map (λ (r : LlmRequest). (r.session_id, r.turn_id)) l) c.turns
    prompt : d.prompt_tokens ≡ c.prompt_tokens ++ map (λ (r : LlmRequest). r.prompt_tokens) l
    new_prompt :
        d.new_prompt_tokens ≡ c.new_prompt_tokens ++ map (λ (r : LlmRequest). r.new_prompt_tokens) l
    reused : d.reused_tokens ≡ c.reused_tokens ++ map reused_prefix_tokens l
    output : d.output_tokens ≡ c.output_tokens ++ map (λ (r : LlmRequest). r.output_tokens) l

  collect-Collects : (l : List LlmRequest) (c : Collected F) → Collects l c (collect float c l)
  collect-Collects [] c = record {
    sessions = refl;
    turns = refl;
    prompt = sym (append-nil _);
    new_prompt = sym (append-nil _);
    reused = sym (append-nil _);
    output = sym (append-nil _);
  }
  collect-Collects (q ∷ l) c =
      let h = collect-Collects l (collect_one float c q) in
      record {
        sessions = h.sessions;
        turns = h.turns;
        prompt = h.prompt ∙ append_assoc c.prompt_tokens _ _;
        new_prompt = h.new_prompt ∙ append_assoc c.new_prompt_tokens _ _;
        reused = h.reused ∙ append_assoc c.reused_tokens _ _;
        output = h.output ∙ append_assoc c.output_tokens _ _;
      }

  abbrev turn_of : LlmRequest → ℕ × ℕ
  turn_of r = (r.session_id, r.turn_id)

  sessions_of_turns :
      (l : List LlmRequest)
      → map (λ p. p.0) (map turn_of l) ≡ map (λ (r : LlmRequest). r.session_id) l
  sessions_of_turns [] = refl
  sessions_of_turns (q ∷ l) = ap (λ m. q.session_id ∷ m) (sessions_of_turns l)

  fewer :
      (l : List LlmRequest) (c : Collected F)
      → c.sessions ≡ add_all (map (λ (r : LlmRequest). r.session_id) l) []
      → c.turns ≡ add_all (map turn_of l) []
      → (length c.sessions ≤ length c.turns) × (length c.turns ≤ length l)
  fewer l c sessions turns = (
    omega (
      arith,
      firsts-fewer (map turn_of l) [] [] (λ i j h. absurd (ground (arith, h))) (omega arith),
      ap length sessions,
      ap length turns,
      ap (λ m. length (add_all m [])) (sessions_of_turns l),
    ),
    omega (arith, length-add_all (map turn_of l) [], ap length turns, length-map turn_of l),
  )

  field_Describes :
      (f : LlmRequest → ℕ) (requests : List LlmRequest) (values : List ℕ)
      → IsIeee float
      → 1 ≤ length requests
      → length requests ≤ u64_max
      → values ≡ map f requests
      → (s : FieldStats F) × (from_values float values ≡ done (some s))
        × Describes float (map f requests) s
  field_Describes f requests values ieee some_there few same =
      let (s, got, tells) =
        from_values-Describes float (map f requests) ieee (omega (arith, length-map f requests))
          (omega (arith, few, length-map f requests)) in
      (s, ap (from_values float) same ∙ got, tells)

  -- Under the arithmetic of IEEE 754 the statistics of one or more requests, as many as a word
  -- counts, come without a panic: they count the requests, the different sessions and the different
  -- turns of a session, no more of one than of the next, and give of each field its ends, the mean,
  -- and three percentiles in order, each the value in its place, with no more values below it than
  -- the place and more than that no greater.
  pub from_requests-Tells :
      (requests : List LlmRequest)
      → IsIeee float
      → 1 ≤ length requests
      → length requests ≤ u64_max
      → (s : TraceStats F) × (from_requests float requests ≡ done (some s)) × Tells requests s
  unfolding from_requests
  from_requests-Tells [] ieee some_there few = absurd (omega arith)
  from_requests-Tells (r ∷ rest) ieee some_there few =
      let all : List LlmRequest = r ∷ rest in
      let h = collect-Collects all (no_requests float) in
      let (a, got_a, prompt) =
        field_Describes (λ q. q.prompt_tokens) all _ ieee some_there few h.prompt in
      let (b, got_b, new_prompt) =
        field_Describes (λ q. q.new_prompt_tokens) all _ ieee some_there few h.new_prompt in
      let (c, got_c, reused) =
        field_Describes reused_prefix_tokens all _ ieee some_there few h.reused in
      let (d, got_d, output) =
        field_Describes (λ q. q.output_tokens) all _ ieee some_there few h.output in
      (
        trace_stats_of float all (collect float (no_requests float) all) a b c d,
        rw (got_a, got_b, got_c, got_d) refl,
        record {
          counted = refl;
          sessions = add_all-Numbers (map (λ (q : LlmRequest). q.session_id) all) _ h.sessions;
          turns = add_all-Numbers (map turn_of all) _ h.turns;
          fewer = fewer all (collect float (no_requests float) all) h.sessions h.turns;
          prompt = prompt;
          new_prompt = new_prompt;
          reused = reused;
          output = output;
        },
      )
