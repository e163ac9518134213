-- ===== src/Trace/Stats.antt =====
-- src/trace/stats.rs, for any floating-point arithmetic. A `BTreeSet` of which only the size is read is
-- a list without duplicates.
pub mod Fields
pub mod Counts
use kvflow_sim.Base.{
  ℕ, ◌-◌, ◌%◌, min, ltb, Bool, false, ◌||◌, List, [], ◌∷◌, ◌++◌, Option, none, some, if◌then◌else◌,
  length, get_elem?, sum_by, u64_mod, EqKey, ◌==◌, nat_eq, pair_eq,
}
use kvflow_sim.Base.Sort.{sort}
use kvflow_sim.Float.{Float}
use kvflow_sim.Panic.{Outcome, done, ◌>>=◌, unwrap}
use kvflow_sim.Trace.Request.{LlmRequest, reused_prefix_tokens}

pub record FieldStats (F : Type 0) : Type 0 where
  pub min : ℕ
  pub max : ℕ
  pub mean : F
  pub p50 : ℕ
  pub p95 : ℕ
  pub p99 : ℕ

pub record TraceStats (F : Type 0) : Type 0 where
  pub requests : ℕ
  pub sessions : ℕ
  pub turns : ℕ
  pub prompt_tokens : FieldStats F
  pub new_prompt_tokens : FieldStats F
  pub reused_prefix_tokens : FieldStats F
  pub output_tokens : FieldStats F
  pub reuse_ratio_mean : F

module _ {K : Type 0} ⦃e : EqKey K⦄ where
  abbrev pub contains : K → List K → Bool
  contains k [] = false
  contains k (x ∷ l) = x == k || contains k l

  -- `BTreeSet::insert`.
  abbrev pub add : K → List K → List K
  add k l = if contains k l then l else k ∷ l

-- What the loop collects.
pub record Collected (F : Type 0) : Type 0 where
  pub sessions : List ℕ
  pub turns : List (ℕ × ℕ)
  pub prompt_tokens : List ℕ
  pub new_prompt_tokens : List ℕ
  pub reused_tokens : List ℕ
  pub output_tokens : List ℕ
  pub reuse_ratio_sum : F

module _ {F : Type 0} (float : Float F) where
  unfoldable pub percentile : List ℕ → F → Outcome ℕ
  percentile sorted_values q =
      let idx = float.ceil (float.◌*◌ (float.of_nat (length sorted_values - 1)) q) in
      unwrap (get_elem? sorted_values (min idx (length sorted_values - 1)))

  -- Behind the sort; the sum is a `u64`.
  abbrev pub stats_of : List ℕ → Outcome (FieldStats F)
  stats_of values = do
    first ← unwrap (get_elem? values 0)
    last ← unwrap (get_elem? values (length values - 1))
    half ← percentile values float.p50
    most ← percentile values float.p95
    nearly ← percentile values float.p99
    done (record {
      min = first;
      max = last;
      mean =
          float.◌/◌ (float.of_nat (sum_by (λ v. v) values % u64_mod))
            (float.of_nat (length values));
      p50 = half;
      p95 = most;
      p99 = nearly;
    })

  unfoldable pub from_values : List ℕ → Outcome (Option (FieldStats F))
  unfolding percentile sort
  from_values [] = done none
  from_values (v ∷ values) = stats_of (sort ltb (v ∷ values)) >>= (λ s. done (some s))

  abbrev pub no_requests : Collected F
  no_requests = record {
    sessions = [];
    turns = [];
    prompt_tokens = [];
    new_prompt_tokens = [];
    reused_tokens = [];
    output_tokens = [];
    reuse_ratio_sum = float.of_nat 0;
  }

  -- The body of the loop.
  abbrev pub collect_one : Collected F → LlmRequest → Collected F
  collect_one c req =
      let reused = reused_prefix_tokens req in
      record {
        sessions = add req.session_id c.sessions;
        turns = add (req.session_id, req.turn_id) c.turns;
        prompt_tokens = c.prompt_tokens ++ req.prompt_tokens ∷ [];
        new_prompt_tokens = c.new_prompt_tokens ++ req.new_prompt_tokens ∷ [];
        reused_tokens = c.reused_tokens ++ reused ∷ [];
        output_tokens = c.output_tokens ++ req.output_tokens ∷ [];
        reuse_ratio_sum =
            if ltb 0 req.prompt_tokens
            then float.◌+◌ c.reuse_ratio_sum
                (float.◌/◌ (float.of_nat reused) (float.of_nat req.prompt_tokens))
            else c.reuse_ratio_sum;
      }

  abbrev pub collect : Collected F → List LlmRequest → Collected F
  collect c [] = c
  collect c (req ∷ rest) = collect (collect_one c req) rest

  -- The statistics, from what the loop has collected.
  abbrev pub trace_stats_of :
      List LlmRequest
      → Collected F
      → (prompt new_prompt reused output : FieldStats F) → TraceStats F
  trace_stats_of requests c prompt new_prompt reused output = record {
    requests = length requests;
    sessions = length c.sessions;
    turns = length c.turns;
    prompt_tokens = prompt;
    new_prompt_tokens = new_prompt;
    reused_prefix_tokens = reused;
    output_tokens = output;
    reuse_ratio_mean = float.◌/◌ c.reuse_ratio_sum (float.of_nat (length requests));
  }

  unfoldable pub from_requests : List LlmRequest → Outcome (Option (TraceStats F))
  unfolding from_values
  from_requests [] = done none
  from_requests (r ∷ rest) = do
    let requests = r ∷ rest
    let c = collect no_requests requests
    prompt ← from_values c.prompt_tokens
    new_prompt ← from_values c.new_prompt_tokens
    reused ← from_values c.reused_tokens
    output ← from_values c.output_tokens
    prompt ← unwrap prompt
    new_prompt ← unwrap new_prompt
    reused ← unwrap reused
    output ← unwrap output
    done (some (trace_stats_of requests c prompt new_prompt reused output))
