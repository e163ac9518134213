-- ===== src/Serving/Runner.antt =====
-- src/serving/runner.rs. Indexing a worker that is not there would panic.
use kvflow_sim.Base.{
  ℕ, suc, zero, ◌-◌, ◌/◌, ◌==◌, nat_eq, Bool, ◌&&◌, ◌||◌, List, [], ◌∷◌, Option, none, some, max,
  if◌then◌else◌, leb, ltb, sat_add, sat_mul, get_elem?, set,
}
use kvflow_sim.Base.Select.{enumerate_from, min_by_key}
use kvflow_sim.Base.Sort.{sort}
use kvflow_sim.Panic.{Outcome, done, ◌>>=◌, unwrap}
use kvflow_sim.Model.Compute.{ComputeModel}
use kvflow_sim.Trace.Request.{LlmRequest}

pub record ServingConfig : Type 0 where
  pub prefill_workers : ℕ
  pub decode_workers : ℕ
  pub decode_batch_size : ℕ

pub record RequestResult : Type 0 where
  pub request_id : ℕ
  pub session_id : ℕ
  pub turn_id : ℕ
  pub arrival_ns : ℕ
  pub prefill_start_ns : ℕ
  pub prefill_done_ns : ℕ
  pub decode_start_ns : ℕ
  pub first_token_ns : ℕ
  pub finish_ns : ℕ
  pub prompt_tokens : ℕ
  pub output_tokens : ℕ

unfoldable pub ttft_ns : RequestResult → ℕ
ttft_ns r = r.first_token_ns - r.arrival_ns

unfoldable pub jct_ns : RequestResult → ℕ
jct_ns r = r.finish_ns - r.arrival_ns

-- The divisor is positive.
unfoldable pub mean_tbt_ns : RequestResult → ℕ
mean_tbt_ns r =
    if leb r.output_tokens 1 then 0 else (r.finish_ns - r.first_token_ns) / (r.output_tokens - 1)

pub record NoReuseRunner : Type 0 where
  pub config : ServingConfig
  pub compute : ComputeModel
  pub prefill_busy_until : List ℕ
  pub decode_busy_until : List ℕ

abbrev pub zeros : ℕ → List ℕ
zeros zero = []
zeros (suc n) = 0 ∷ zeros n

unfoldable pub new : ServingConfig → ComputeModel → NoReuseRunner
new config compute =
    let prefill_workers = max config.prefill_workers 1 in
    let decode_workers = max config.decode_workers 1 in
    record {
      config = record {
        prefill_workers = prefill_workers;
        decode_workers = decode_workers;
        decode_batch_size = max config.decode_batch_size 1;
      };
      compute = compute;
      prefill_busy_until = zeros prefill_workers;
      decode_busy_until = zeros decode_workers;
    }

abbrev pub index_or_zero : Option (ℕ × ℕ) → ℕ
index_or_zero none = 0
index_or_zero (some (idx, _)) = idx

unfoldable pub earliest_worker : List ℕ → ℕ
unfolding enumerate_from
earliest_worker workers = index_or_zero (min_by_key (λ e. e.1) (enumerate_from 0 workers))

-- The result of a request once the two workers' times are read.
abbrev pub result_of : NoReuseRunner → LlmRequest → (prefill_busy decode_busy : ℕ) → RequestResult
result_of self req prefill_busy decode_busy =
    let prefill_start_ns = max req.arrival_ns prefill_busy in
    let prefill_done_ns =
      sat_add prefill_start_ns ((self.compute).prefill_time_ns req.prompt_tokens) in
    let decode_start_ns = max prefill_done_ns decode_busy in
    let decode_step_ns =
      (self.compute).decode_step_time_ns (self.config).decode_batch_size req.prompt_tokens in
    record {
      request_id = req.request_id;
      session_id = req.session_id;
      turn_id = req.turn_id;
      arrival_ns = req.arrival_ns;
      prefill_start_ns = prefill_start_ns;
      prefill_done_ns = prefill_done_ns;
      decode_start_ns = decode_start_ns;
      first_token_ns = sat_add decode_start_ns decode_step_ns;
      finish_ns = sat_add decode_start_ns (sat_mul decode_step_ns req.output_tokens);
      prompt_tokens = req.prompt_tokens;
      output_tokens = req.output_tokens;
    }

unfoldable pub run_one : NoReuseRunner → LlmRequest → Outcome (NoReuseRunner × RequestResult)
unfolding earliest_worker
run_one self req = do
  let prefill_idx = earliest_worker self.prefill_busy_until
  prefill_busy ← unwrap (get_elem? self.prefill_busy_until prefill_idx)
  let decode_idx = earliest_worker self.decode_busy_until
  decode_busy ← unwrap (get_elem? self.decode_busy_until decode_idx)
  let r = result_of self req prefill_busy decode_busy
  done (
    record self {
      prefill_busy_until = set self.prefill_busy_until prefill_idx r.prefill_done_ns;
      decode_busy_until = set self.decode_busy_until decode_idx r.finish_ns;
    },
    r,
  )

-- `(r.arrival_ns, r.request_id)`, compared as a pair.
abbrev pub earlier : LlmRequest → LlmRequest → Bool
earlier a b =
    ltb a.arrival_ns b.arrival_ns || (a.arrival_ns == b.arrival_ns && ltb a.request_id b.request_id)

unfoldable pub run_all :
    NoReuseRunner → List LlmRequest → Outcome (NoReuseRunner × List RequestResult)
unfolding run_one
run_all self [] = done (self, [])
run_all self (req ∷ rest) = do
  one ← run_one self req
  others ← run_all one.0 rest
  done (others.0, one.1 ∷ others.1)

unfoldable pub run : NoReuseRunner → List LlmRequest → Outcome (NoReuseRunner × List RequestResult)
unfolding run_all sort
run self requests = run_all self (sort earlier requests)
