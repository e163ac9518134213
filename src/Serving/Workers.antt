-- ===== src/Serving/Workers.antt =====
-- How the runner of src/serving/runner.rs hands its requests to the workers.
use kvflow_sim.Base.{
  ℕ, zero, suc, ◌≤◌, ◌<◌, ◌≡◌, refl, ap, subst, inl, inr, List, [], ◌∷◌, some, arith, max, length,
  get_elem?, set, Option-cases, In,
}
use kvflow_sim.Base.Select.{
  enumerate_from, enumerate-get, get-enumerate, min_by_key, min_by_key-In, min_by_key-le,
  min_by_key-none,
}
use kvflow_sim.Base.Sort.{sort}
use kvflow_sim.Panic.{Outcome, done}
use kvflow_sim.Model.Compute.{ComputeModel}
use kvflow_sim.Trace.Request.{LlmRequest}
use kvflow_sim.Serving.Runner.{
  NoReuseRunner, RequestResult, earliest_worker, result_of, run_one, run_all, run, earlier, new,
  ServingConfig, zeros,
}

-- A worker of a pool takes a piece of work that is ready at `ready` from `start` to `finish`: one of
-- those that fall free first, as soon as the work is ready and the worker is free.
pub record Assigned (before after : List ℕ) (ready start finish : ℕ) : Type 0 where
  pub worker : ℕ
  pub free_at : ℕ
  pub there : get_elem? before worker ≡ some free_at
  pub first_free : (j b : ℕ) → get_elem? before j ≡ some b → free_at ≤ b
  pub starts : start ≡ max ready free_at
  pub busy : after ≡ set before worker finish

abbrev Least : List ℕ → ℕ → Type 0
Least l i = (b : ℕ) × (get_elem? l i ≡ some b) × ((j c : ℕ) → get_elem? l j ≡ some c → b ≤ c)

earliest_worker-Least : (l : List ℕ) → 0 < length l → Least l (earliest_worker l)
unfolding earliest_worker
earliest_worker-Least l h =
    elim (Option-cases (min_by_key (λ (e : ℕ × ℕ). e.1) (enumerate_from 0 l))) [
      | inl e ↦ absurd (none_there l h (min_by_key-none _ (enumerate_from 0 l) e))
      | inr ((i, b), e) ↦
          let (m, at, got) = enumerate-get 0 i b l (min_by_key-In _ (enumerate_from 0 l) e) in
          rw (e, earliest_worker)
            (
              b,
              subst (λ n. get_elem? l n ≡ some b) (omega (arith, at)) got,
              λ j c g.
                  min_by_key-le _ (enumerate_from 0 l) (j, c) e
                    (subst (λ n. In (n, c) (enumerate_from 0 l)) (omega arith)
                      (get-enumerate 0 j c l g)),
            )
    ]
  where
    none_there : (l : List ℕ) → 0 < length l → enumerate_from 0 l ≡ [] → ⊥
    none_there [] h e = omega arith
    none_there (x ∷ l) h e = cc

length-set : (l : List ℕ) (i v : ℕ) → length (set l i v) ≡ length l
length-set [] i v = refl
length-set (x ∷ l) zero v = refl
length-set (x ∷ l) (suc i) v = ap suc (length-set l i v)

-- Both pools have a worker.
abbrev pub HasWorkers : NoReuseRunner → Type 0
HasWorkers s = (0 < length s.prefill_busy_until) × (0 < length s.decode_busy_until)

-- The request is prefilled by one pool from its arrival on, and then decoded by the other.
abbrev pub ServesOne : NoReuseRunner → LlmRequest → NoReuseRunner → RequestResult → Type 0
ServesOne s req s' r =
    (r.request_id ≡ req.request_id)
    × Assigned s.prefill_busy_until s'.prefill_busy_until req.arrival_ns r.prefill_start_ns
        r.prefill_done_ns
    × Assigned s.decode_busy_until s'.decode_busy_until r.prefill_done_ns r.decode_start_ns
        r.finish_ns

-- One result for each request, in order, each served by the workers as the last one left them.
abbrev pub Serves : NoReuseRunner → List LlmRequest → List RequestResult → Type 0
Serves s [] [] = Unit
Serves s (req ∷ reqs) (r ∷ rs) = (s' : NoReuseRunner) × ServesOne s req s' r × Serves s' reqs rs
Serves s _ _ = ⊥

length-zeros : (n : ℕ) → 1 ≤ n → 0 < length (zeros n)
length-zeros zero h = omega arith
length-zeros (suc n) h = omega arith

-- A new runner has them, whatever the configuration says.
pub new-HasWorkers :
    (config : ServingConfig) (compute : ComputeModel) → HasWorkers (new config compute)
unfolding new
new-HasWorkers config compute = (length-zeros _ (omega arith), length-zeros _ (omega arith))

abbrev Ends : NoReuseRunner → LlmRequest → Type 0
Ends s req =
    (s' : NoReuseRunner) × (r : RequestResult) × (run_one s req ≡ done (s', r))
    × ServesOne s req s' r
    × HasWorkers s'

run_one-Ends : (s : NoReuseRunner) (req : LlmRequest) → HasWorkers s → Ends s req
unfolding run_one
run_one-Ends s req h =
    let (b, there, least) = earliest_worker-Least s.prefill_busy_until h.0 in
    let (d, there', least') = earliest_worker-Least s.decode_busy_until h.1 in
    let r = result_of s req b d in
    (
      record s {
        prefill_busy_until =
            set s.prefill_busy_until (earliest_worker s.prefill_busy_until) r.prefill_done_ns;
        decode_busy_until =
            set s.decode_busy_until (earliest_worker s.decode_busy_until) r.finish_ns;
      },
      r,
      rw (there, run_one) (rw (there', run_one) refl),
      (
        refl,
        record {
          worker = earliest_worker s.prefill_busy_until;
          free_at = b;
          there = there;
          first_free = least;
          starts = refl;
          busy = refl;
        },
        record {
          worker = earliest_worker s.decode_busy_until;
          free_at = d;
          there = there';
          first_free = least';
          starts = refl;
          busy = refl;
        },
      ),
      (
        omega (
          arith,
          length-set s.prefill_busy_until (earliest_worker s.prefill_busy_until) r.prefill_done_ns,
        ),
        omega (
          arith,
          length-set s.decode_busy_until (earliest_worker s.decode_busy_until) r.finish_ns,
        ),
      ),
    )

abbrev pub Completes :
    NoReuseRunner → List LlmRequest → Outcome (NoReuseRunner × List RequestResult) → Type 0
Completes s reqs o = (q : NoReuseRunner × List RequestResult) × (o ≡ done q) × Serves s reqs q.1

run_all-Completes :
    (s : NoReuseRunner) (reqs : List LlmRequest) → HasWorkers s → Completes s reqs (run_all s reqs)
unfolding run_all
run_all-Completes s [] h = ((s, []), refl, tt)
run_all-Completes s (req ∷ reqs) h =
    let (s', r, e, served, workers) = run_one-Ends s req h in
    let (q, f, rest) = run_all-Completes s' reqs workers in
    ((q.0, r ∷ q.1), rw (e, run_all) (rw (f, run_all) refl), (s', served, rest))

-- Where both worker pools have a worker, `NoReuseRunner::run` never panics and returns one result
-- for each request, in order of arrival and then of id; each request is prefilled by a worker that
-- is free first, as soon as it has arrived and the worker is free, and is then decoded in the same
-- way by the other pool.
pub run-Completes :
    (s : NoReuseRunner) (reqs : List LlmRequest)
    → HasWorkers s
    → Completes s (sort earlier reqs) (run s reqs)
unfolding run
run-Completes s reqs h = run_all-Completes s (sort earlier reqs) h
