-- ===== src/Decision/Saved.antt =====
-- The decision of src/decision.rs against the time that it saves.
use kvflow_sim.Base.{ℕ, ◌≤◌, ◌≡◌, ◌↔◌, refl, arith, min, u64_max, ltb, true, if◌then◌else◌}
use kvflow_sim.Base.Int.{pos, ltb_ℤ}
use kvflow_sim.Error.{Result, ok, err, ◌>>=◌}
use kvflow_sim.Model.Profile.{ModelProfile, kv_bytes}
use kvflow_sim.Model.Compute.{ComputeModel}
use kvflow_sim.Transfer.Path.{TransferPath, TransferEstimate, duration_ns}
use kvflow_sim.Transfer.Analytical
use kvflow_sim.Transfer.Analytical.{AnalyticalTransferModel}
use kvflow_sim.Decision.{KvDecision, FetchVsRecompute, evaluate, saved_ns, recompute_prefill}

-- The smaller of two times, by whichever decision.
abbrev pub cost : FetchVsRecompute → ℕ
cost r = elim r.decision [ recompute_prefill ↦ r.recompute_ns | KvDecision.fetch e ↦ duration_ns e ]

-- What an evaluation promises: it is of the prompt, reuses what is asked for but no more than the
-- prompt, is about the bytes of that and a fetch of just these over the path, takes the cheaper of
-- the two ways, recomputing where they cost the same, and reports a positive saving exactly where it
-- decides to fetch.
pub record IsBest (p : ModelProfile) (c : ComputeModel) (t : AnalyticalTransferModel)
    (path : TransferPath) (prompt reused : ℕ) (r : FetchVsRecompute) : Type 0 where
  pub asked : r.prompt_tokens ≡ prompt
  pub cut : r.reused_prefix_tokens ≡ min reused prompt
  pub sized : r.kv_bytes ≡ kv_bytes p (min reused prompt)
  pub timed : r.recompute_ns ≡ c.prefill_time_ns (min reused prompt)
  pub estimated : Analytical.estimate t 0 path (kv_bytes p (min reused prompt)) ≡ ok r.fetch
  pub carries : ((r.fetch).path ≡ path) × ((r.fetch).bytes ≡ r.kv_bytes) × ((r.fetch).start_ns ≡ 0)
  pub cheapest : cost r ≡ min (duration_ns r.fetch) r.recompute_ns
  pub fetches : (r.decision ≡ KvDecision.fetch r.fetch) ↔ (ltb_ℤ (pos 0) (saved_ns r) ≡ true)

-- An evaluation fails with the error of the transfer model, and for nothing else.
abbrev pub Judges :
    ModelProfile
    → ComputeModel
    → AnalyticalTransferModel
    → TransferPath
    → (prompt reused : ℕ) → Result FetchVsRecompute
    → Type 0
Judges p c t path prompt reused (ok r) = IsBest p c t path prompt reused r
Judges p c t path prompt reused (err e) =
    Analytical.estimate t 0 path (kv_bytes p (min reused prompt)) ≡ err e

estimate_words :
    (t : AnalyticalTransferModel) (now_ns : ℕ) (path : TransferPath) (bytes : ℕ)
    (e : TransferEstimate)
    → Analytical.estimate t now_ns path bytes ≡ ok e
    → e.finish_ns ≤ u64_max
unfolding Analytical.estimate
estimate_words t now_ns path bytes e h = ground arith

estimate_carries :
    (t : AnalyticalTransferModel) (path : TransferPath) (bytes : ℕ) (e : TransferEstimate)
    → Analytical.estimate t 0 path bytes ≡ ok e
    → (e.path ≡ path) × (e.bytes ≡ bytes) × (e.start_ns ≡ 0)
unfolding Analytical.estimate
estimate_carries t path bytes e h = (ground arith, ground arith, ground arith)

module _ (p : ModelProfile) (c : ComputeModel) (t : AnalyticalTransferModel) (path : TransferPath)
    (prompt reused : ℕ) where
  abbrev built : TransferEstimate → FetchVsRecompute
  built est = record {
    prompt_tokens = prompt;
    reused_prefix_tokens = min reused prompt;
    kv_bytes = kv_bytes p (min reused prompt);
    recompute_ns = c.prefill_time_ns (min reused prompt);
    fetch = est;
    decision =
        if ltb (duration_ns est) (c.prefill_time_ns (min reused prompt))
        then KvDecision.fetch est
        else recompute_prefill;
  }

  built-IsBest :
      (est : TransferEstimate)
      → Analytical.estimate t 0 path (kv_bytes p (min reused prompt)) ≡ ok est
      → c.prefill_time_ns (min reused prompt) ≤ u64_max
      → IsBest p c t path prompt reused (built est)
  unfolding saved_ns
  built-IsBest est found w =
      let h = estimate_words t 0 path _ est found in
      record {
        asked = refl;
        cut = refl;
        sized = refl;
        timed = refl;
        estimated = found;
        carries = estimate_carries t path _ est found;
        cheapest = ground arith;
        fetches = ground arith;
      }

  -- For a compute time of 64 bits, an evaluation fails with the error of the transfer model and for
  -- nothing else; one that succeeds is of the prompt asked for, times the recompute and sizes the
  -- bytes of the reused prefix cut to the prompt, estimates the fetch of just these bytes over the
  -- path from time 0, costs by its decision the smaller of the two times, and decides to fetch
  -- exactly if the saved time is positive.
  pub evaluate-Judges :
      c.prefill_time_ns (min reused prompt) ≤ u64_max
      → Judges p c t path prompt reused (evaluate p c t path prompt reused)
  unfolding evaluate
  evaluate-Judges w = by (Analytical.estimate t 0 path (kv_bytes p (min reused prompt))) refl
    where
      by :
          (m : Result TransferEstimate)
          → Analytical.estimate t 0 path (kv_bytes p (min reused prompt)) ≡ m
          → Judges p c t path prompt reused (m >>= (λ e. ok (built e)))
      by (err e) found = found
      by (ok est) found = built-IsBest est found w
