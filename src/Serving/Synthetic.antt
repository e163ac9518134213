-- ===== src/Serving/Synthetic.antt =====
-- The traces of src/trace/synthetic.rs as what the runners of src/serving are given.
use kvflow_sim.Base.{
  ℕ, zero, suc, nat_eq, ◌+◌, ◌*◌, ◌≤◌, ◌≡◌, refl, subst, ◌∙◌, ◌&&◌, leb, ltb, List, [], ◌∷◌, ◌++◌,
  arith, u64_max, wrap_add, wrap_add_exact, sat_add, length, some,
}
use kvflow_sim.Base.Sort.{Sorted}
use kvflow_sim.Serving.Engine.{sooner}
use kvflow_sim.Panic.{done}
use kvflow_sim.Trace.Request.{LlmRequest, reused_prefix_tokens}
use kvflow_sim.Trace.Synthetic.{
  SyntheticTraceConfig, u32_max, request_at, turn_requests, turns_from, generate_synthetic_trace,
}
use kvflow_sim.Serving.Engine.Sound.{is, completed}
use kvflow_sim.Serving.Engine.Load.{Fresh, asked}
use kvflow_sim.Transfer.Model.{TransferModel}
use kvflow_sim.Policy.Interface.{PlacementPolicy}
use kvflow_sim.Serving.Runner.{RequestResult}
use kvflow_sim.Serving.CacheRunner.{CacheAwareRunner}
use kvflow_sim.Serving.CacheRunner.Handlers.{run}
use kvflow_sim.Serving.CacheRunner.Complete.{cache_run_finishes, IsCounted}

abbrev between : ℕ → ℕ → ℕ → ℕ
between low n k = is (leb low k && ltb k (low + n))

asked-append : (k : ℕ) (l m : List LlmRequest) → asked k (l ++ m) ≡ asked k l + asked k m
asked-append k [] m = omega arith
asked-append k (r ∷ l) m = omega (arith, asked-append k l m)

turn_requests-asked :
    (c : SyntheticTraceConfig) (turn_id left session_id request_id arrival_ns : ℕ)
    → request_id + left ≤ u64_max
    → ((k : ℕ)
        → asked k (turn_requests c turn_id left session_id request_id arrival_ns).0
          ≡ between request_id left k)
      × ((turn_requests c turn_id left session_id request_id arrival_ns).1 ≡ request_id + left)
unfolding turn_requests
turn_requests-asked c turn_id zero session_id request_id arrival_ns fits =
    ((λ k. ground arith), omega arith)
turn_requests-asked c turn_id (suc left) session_id request_id arrival_ns fits =
    let next : wrap_add request_id 1 ≡ request_id + 1 = wrap_add_exact request_id 1 (omega arith) in
    let (rest, last) =
      turn_requests-asked c turn_id left (session_id + 1) (wrap_add request_id 1) _ (omega arith) in
    ((λ k. ground (arith, rest k, next)), last ∙ omega (arith, next))

turn_requests-length :
    (c : SyntheticTraceConfig) (turn_id left session_id request_id arrival_ns : ℕ)
    → length (turn_requests c turn_id left session_id request_id arrival_ns).0 ≡ left
unfolding turn_requests
turn_requests-length c turn_id zero session_id request_id arrival_ns = refl
turn_requests-length c turn_id (suc left) session_id request_id arrival_ns = omega (
  arith,
  turn_requests-length c turn_id left (session_id + 1) (wrap_add request_id 1)
      (sat_add arrival_ns c.inter_arrival_ns),
)

length-append : (l m : List LlmRequest) → length (l ++ m) ≡ length l + length m
length-append [] m = omega arith
length-append (r ∷ l) m = omega (arith, length-append l m)

-- The ids of a trace are the numbers from the first on, once each.
turns_from-asked :
    (c : SyntheticTraceConfig) (left turn_id request_id arrival_ns : ℕ)
    → request_id + left * c.sessions ≤ u64_max
    → ((k : ℕ)
        → asked k (turns_from c left turn_id request_id arrival_ns)
          ≡ between request_id (left * c.sessions) k)
      × (length (turns_from c left turn_id request_id arrival_ns) ≡ left * c.sessions)
unfolding turns_from
turns_from-asked c zero turn_id request_id arrival_ns fits = ((λ k. ground arith), omega arith)
turns_from-asked c (suc left) turn_id request_id arrival_ns fits =
    let t = turn_requests c turn_id c.sessions 0 request_id arrival_ns in
    let more : suc left * c.sessions ≡ c.sessions + left * c.sessions = grind arith in
    let (ids, last) =
      turn_requests-asked c turn_id c.sessions 0 request_id arrival_ns
        (omega (arith, fits, more)) in
    let (rest, many) =
      turns_from-asked c left (turn_id + 1) t.1 t.2 (omega (arith, fits, more, last)) in
    (
      (λ k.
          asked-append k t.0 (turns_from c left (turn_id + 1) t.1 t.2)
          ∙ joins k (ids k) (rest k) last more),
      length-append t.0 (turns_from c left (turn_id + 1) t.1 t.2)
          ∙ omega (
            arith,
            many,
            more,
            turn_requests-length c turn_id c.sessions 0 request_id arrival_ns,
          ),
    )
  where
    joins :
        (k : ℕ) {a b next : ℕ}
        → a ≡ between request_id c.sessions k
        → b ≡ between next (left * c.sessions) k
        → next ≡ request_id + c.sessions
        → suc left * c.sessions ≡ c.sessions + left * c.sessions
        → a + b ≡ between request_id (suc left * c.sessions) k
    joins k p q r m = ground (arith, p, q, r, m)

-- A synthetic trace of no more requests than a word counts has as many requests as sessions times
-- turns, with each id below that number once.
pub generate_synthetic_trace-once :
    (c : SyntheticTraceConfig)
    → c.turns_per_session * c.sessions ≤ u64_max
    → ((k : ℕ)
        → asked k (generate_synthetic_trace c) ≡ is (ltb k (c.turns_per_session * c.sessions)))
      × (length (generate_synthetic_trace c) ≡ c.turns_per_session * c.sessions)
unfolding generate_synthetic_trace
generate_synthetic_trace-once c fits =
    let (ids, many) = turns_from-asked c c.turns_per_session 0 0 c.start_ns (omega (arith, fits)) in
    ((λ k. ids k ∙ ground arith), many)

-- On a cluster of distinct node ids with an idle GPU for each role and no GPU at work, a run of
-- `CacheAwareRunner` on a synthetic trace of no more requests than a word counts ends without a
-- panic and gives one result for each id below the number of sessions times turns, and no other, in
-- order, with each request counted once.
pub synthetic_run_finishes :
    {P T : Type 0} (model : TransferModel T) (policy : PlacementPolicy P T)
    (s : CacheAwareRunner P T) (c : SyntheticTraceConfig)
    → Fresh (s.engine).cluster
    → c.turns_per_session * c.sessions ≤ u64_max
    → (s' : CacheAwareRunner P T) × (results : List RequestResult) × (run model policy s
          (generate_synthetic_trace c)
        ≡ done (some (s', results)))
      × ((k : ℕ) → completed k results ≡ is (ltb k (c.turns_per_session * c.sessions)))
      × Sorted sooner results
      × IsCounted (c.turns_per_session * c.sessions) s'.hits
synthetic_run_finishes model policy s c fresh fits =
    let (ids, many) = generate_synthetic_trace-once c fits in
    let (s', results, ran, all, sorted, counted, _, _, _) =
      cache_run_finishes model policy s (generate_synthetic_trace c) fresh
        (λ k. ground (arith, ids k)) (omega (arith, fits, many)) in
    (s', results, ran, (λ k. all k ∙ ids k), sorted, subst (λ n. IsCounted n s'.hits) many counted)

-- Where the prompts stay within 32 bits, the prefix that a later turn of a synthetic trace reuses
-- is as long as the prompt of the turn before.
pub reuses_the_turn_before :
    (c : SyntheticTraceConfig) (turn_id session_id : ℕ) (id id' at at' : ℕ)
    → c.initial_prompt_tokens + suc turn_id * c.tokens_added_per_turn ≤ u32_max
    → reused_prefix_tokens (request_at c (suc turn_id) session_id id' at')
      ≡ (request_at c turn_id session_id id at).prompt_tokens
unfolding reused_prefix_tokens
reuses_the_turn_before c turn_id session_id id id' at at' fits =
    let more : suc turn_id * c.tokens_added_per_turn
        ≡ c.tokens_added_per_turn + turn_id * c.tokens_added_per_turn =
      grind arith in
    ground (arith, fits, more)
