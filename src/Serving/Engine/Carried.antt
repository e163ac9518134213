-- ===== src/Serving/Engine/Carried.antt =====
-- The requests that the engine of src/serving has in flight, and its results, are of the requests of
-- the run, through every function of the engine.
use kvflow_sim.Base.{
  ℕ, nat_eq, ◌≡◌, refl, sym, subst, ◌∙◌, inl, inr, ◌⊎◌, ◌==◌, List, [], ◌∷◌, ◌++◌, In, Option, none,
  some, arith, Option-cases, Bool-cases,
}
use mathlib.Core.Option.{some-injective}
use kvflow_sim.Base.Map
use kvflow_sim.Base.Map.{Map, get-insert, get-erase}
use kvflow_sim.Panic.{Outcome, done, panic, ◌>>=◌}
use kvflow_sim.Cluster.Gpu.{WorkerRole}
use kvflow_sim.Cluster.Topology.{ClusterTopology, find_idle_gpu_for, set_busy}
use kvflow_sim.Trace.Request.{LlmRequest}
use kvflow_sim.Serving.Drive.{After}
use kvflow_sim.Serving.Inflight
use kvflow_sim.Serving.Inflight.{InFlightRequest, into_result}
use kvflow_sim.Serving.Runner.{RequestResult}
use kvflow_sim.Serving.Engine.{
  Engine, Started, put, push_prefill, push_decode, prefill_if_there, decode_if_there, start_prefill,
  start_decode, prefill_or_queue, decode_or_queue, assign_prefill, assign_decode,
  try_assign_prefill, try_assign_decode, release, finalize, on_decode_done, load, clear_state,
}

-- The result is one of the request: it has its ids, its arrival and its tokens.
pub record IsOf (q : LlmRequest) (r : RequestResult) : Type 0 where
  pub request_id : r.request_id ≡ q.request_id
  pub session_id : r.session_id ≡ q.session_id
  pub turn_id : r.turn_id ≡ q.turn_id
  pub arrival_ns : r.arrival_ns ≡ q.arrival_ns
  pub prompt_tokens : r.prompt_tokens ≡ q.prompt_tokens
  pub output_tokens : r.output_tokens ≡ q.output_tokens

into_result-IsOf : (f : InFlightRequest) → IsOf f.request (into_result f)
into_result-IsOf f = record {
  request_id = refl;
  session_id = refl;
  turn_id = refl;
  arrival_ns = refl;
  prompt_tokens = refl;
  output_tokens = refl;
}

module _ (requests : List LlmRequest) where
  -- The result is of some request of the run.
  abbrev pub Answers : RequestResult → Type 0
  Answers r = (q : LlmRequest) × In q requests × IsOf q r

  abbrev pub Carries : Map ℕ InFlightRequest → List RequestResult → Type 0
  Carries flying results =
      ((k : ℕ) (f : InFlightRequest) → Map.get k flying ≡ some f → In f.request requests)
      × ((r : RequestResult) → In r results → Answers r)

  -- What the engine is left with, if it does not panic.
  abbrev pub Stays : Outcome Engine → Type 0
  Stays = After (λ (e : Engine). Carries e.in_flight e.results)

  pub then-Stays :
      (o : Outcome Engine) (f : Engine → Outcome Engine)
      → Stays o
      → ((e : Engine) → Carries e.in_flight e.results → Stays (f e))
      → Stays (o >>= f)
  then-Stays panic f h g = tt
  then-Stays (done e) f h g = g e h

  pub idle-Stays :
      (o : Outcome (Option (ℕ × ℕ))) (f : ℕ × ℕ → Outcome Engine) (y : Outcome Engine)
      → ((gpu : ℕ × ℕ) → Stays (f gpu))
      → Stays y
      → Stays (o >>= (λ idle. elim idle [ some gpu ↦ f gpu | none ↦ y ]))
  idle-Stays panic f y g h = tt
  idle-Stays (done none) f y g h = h
  idle-Stays (done (some gpu)) f y g h = g gpu

  pub insert-Carries :
      (k : ℕ) (f : InFlightRequest) (m : Map ℕ InFlightRequest) (l : List RequestResult)
      → In f.request requests
      → Carries m l
      → Carries (Map.insert k f m) l
  insert-Carries k f m l known (flying, finished) = (
    λ j g got. elim (Bool-cases (k == j)) [
      | inl e ↦
          subst (λ (x : InFlightRequest). In x.request requests)
            (some-injective _ _ (sym (rw e at (get-insert j k f m)) ∙ got)) known
      | inr e ↦ flying j g (ground (arith, got, get-insert j k f m))
    ],
    finished,
  )

  -- A write to a request on a GPU.
  pub started-Stays :
      (e : Engine) (id : ℕ) (o : Outcome ClusterTopology) (f : ClusterTopology → Started)
      → ((c : ClusterTopology) → In (f c).2.request requests)
      → Carries e.in_flight e.results
      → Stays ((o >>= (λ c. done (f c))) >>= (λ s. done (put e id s)))
  started-Stays e id panic f known h = tt
  started-Stays e id (done c) f known h =
      insert-Carries id (f c).2 e.in_flight e.results (known c) h

  prefill_if_there-Stays :
      (e : Engine) (id : ℕ) (gpu : ℕ × ℕ) (t : ℕ)
      → Carries e.in_flight e.results
      → Stays (prefill_if_there e id gpu t)
  unfolding prefill_if_there start_prefill
  prefill_if_there-Stays e id gpu t h = elim (Option-cases (Map.get id e.in_flight)) [
    | inl gone ↦ rw (gone, prefill_if_there) h
    | inr (f, there) ↦ rw (there, prefill_if_there) (started-Stays e id _ _ (λ c. h.0 id f there) h)
  ]

  decode_if_there-Stays :
      (e : Engine) (id : ℕ) (gpu : ℕ × ℕ) (t : ℕ)
      → Carries e.in_flight e.results
      → Stays (decode_if_there e id gpu t)
  unfolding decode_if_there start_decode
  decode_if_there-Stays e id gpu t h = elim (Option-cases (Map.get id e.in_flight)) [
    | inl gone ↦ rw (gone, decode_if_there) h
    | inr (f, there) ↦ rw (there, decode_if_there) (started-Stays e id _ _ (λ c. h.0 id f there) h)
  ]

  pub prefill_or_queue-Stays :
      (e : Engine) (id t : ℕ) → Carries e.in_flight e.results → Stays (prefill_or_queue e id t)
  unfolding prefill_or_queue
  prefill_or_queue-Stays e id t h =
      idle-Stays (find_idle_gpu_for e.cluster t WorkerRole.prefill) _ (done (push_prefill e id))
        (λ gpu. prefill_if_there-Stays e id gpu t h) h

  pub decode_or_queue-Stays :
      (e : Engine) (id t : ℕ) → Carries e.in_flight e.results → Stays (decode_or_queue e id t)
  unfolding decode_or_queue
  decode_or_queue-Stays e id t h =
      idle-Stays (find_idle_gpu_for e.cluster t WorkerRole.decode) _ (done (push_decode e id))
        (λ gpu. decode_if_there-Stays e id gpu t h) h

  assign_prefill-Stays :
      (queue : List ℕ) (e : Engine) (t : ℕ)
      → Carries e.in_flight e.results
      → Stays (assign_prefill queue e t)
  unfolding assign_prefill
  assign_prefill-Stays [] e t h = h
  assign_prefill-Stays (id ∷ queue) e t h =
      let e1 : Engine = record e { prefill_queue = queue } in
      idle-Stays (find_idle_gpu_for e.cluster t WorkerRole.prefill) _ (done e)
        (λ gpu.
          then-Stays (prefill_if_there e1 id gpu t) (λ x. assign_prefill queue x t)
            (prefill_if_there-Stays e1 id gpu t h) (λ x g. assign_prefill-Stays queue x t g))
        h

  assign_decode-Stays :
      (queue : List ℕ) (e : Engine) (t : ℕ)
      → Carries e.in_flight e.results
      → Stays (assign_decode queue e t)
  unfolding assign_decode
  assign_decode-Stays [] e t h = h
  assign_decode-Stays (id ∷ queue) e t h =
      let e1 : Engine = record e { decode_queue = queue } in
      idle-Stays (find_idle_gpu_for e.cluster t WorkerRole.decode) _ (done e)
        (λ gpu.
          then-Stays (decode_if_there e1 id gpu t) (λ x. assign_decode queue x t)
            (decode_if_there-Stays e1 id gpu t h) (λ x g. assign_decode-Stays queue x t g))
        h

  pub try_assign_prefill-Stays :
      (e : Engine) (t : ℕ) → Carries e.in_flight e.results → Stays (try_assign_prefill e t)
  unfolding try_assign_prefill
  try_assign_prefill-Stays e t h = assign_prefill-Stays e.prefill_queue e t h

  pub try_assign_decode-Stays :
      (e : Engine) (t : ℕ) → Carries e.in_flight e.results → Stays (try_assign_decode e t)
  unfolding try_assign_decode
  try_assign_decode-Stays e t h = assign_decode-Stays e.decode_queue e t h

  pub release-Stays :
      (e : Engine) (n i t : ℕ) → Carries e.in_flight e.results → Stays (release e n i t)
  unfolding release
  release-Stays e n i t h = freed (set_busy e.cluster n i t)
    where
      freed : (o : Outcome ClusterTopology) → Stays (o >>= (λ c. done (record e { cluster = c })))
      freed panic = tt
      freed (done c) = h

  In-append : (r : RequestResult) (l m : List RequestResult) → In r (l ++ m) → In r l ⊎ In r m
  In-append r [] m i = inr i
  In-append r (x ∷ l) m (inl q) = inl (inl q)
  In-append r (x ∷ l) m (inr i) = elim (In-append r l m i) [ inl j ↦ inl (inr j) | inr k ↦ inr k ]

  finalize-Carries :
      (e : Engine) (id : ℕ)
      → Carries e.in_flight e.results
      → Carries (finalize e id).in_flight (finalize e id).results
  unfolding finalize
  finalize-Carries e id h = elim (Option-cases (Map.get id e.in_flight)) [
    | inl gone ↦ rw (gone, finalize) h
    | inr (f, there) ↦
        rw (there, finalize)
          (
            λ k g got. h.0 k g (ground (arith, got, get-erase k id e.in_flight)),
            λ r i. elim (In-append r e.results (into_result f ∷ []) i) [
              | inl old ↦ h.1 r old
              | inr (inl q) ↦
                  (f.request, h.0 id f there, subst (IsOf f.request) (sym q) (into_result-IsOf f))
              | inr (inr x) ↦ absurd x
            ],
          )
  ]

  pub on_decode_done-Stays :
      (e : Engine) (t id n i : ℕ)
      → Carries e.in_flight e.results
      → Stays (on_decode_done e t id n i)
  unfolding on_decode_done
  on_decode_done-Stays e t id n i h =
      then-Stays (release e n i t) _ (release-Stays e n i t h) (λ x g.
        then-Stays (try_assign_decode (finalize x id) t) _
          (try_assign_decode-Stays (finalize x id) t (finalize-Carries x id g))
          (λ y k. try_assign_prefill-Stays y t k))

  pub load-Carries :
      (l : List LlmRequest) (e : Engine)
      → ((q : LlmRequest) → In q l → In q requests)
      → Carries e.in_flight e.results
      → Carries (load e l).in_flight (load e l).results
  unfolding load
  load-Carries [] e known h = h
  load-Carries (q ∷ l) e known h =
      load-Carries l _ (λ x i. known x (inr i))
        (insert-Carries q.request_id (Inflight.new q) e.in_flight e.results (known q (inl refl)) h)

  pub clear_state-Carries : (e : Engine) → Carries (clear_state e).in_flight (clear_state e).results
  unfolding clear_state Map.get
  clear_state-Carries e = (λ k f got. cc, λ r i. absurd i)
