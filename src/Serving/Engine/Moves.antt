-- ===== src/Serving/Engine/Moves.antt =====
-- The writes of src/serving to the engine, one by one, against what it keeps true.
use kvflow_sim.Base.{
  ℕ, ◌+◌, ◌≤◌, ◌≡◌, sym, ap, ◌∙◌, ◌⊎◌, inl, inr, List, [], ◌∷◌, ◌++◌, Option, none, some, arith,
  nat_eq, Option-cases, Bool-cases,
}
use kvflow_sim.Base.Map
use kvflow_sim.Base.Map.{Map, get-insert, get-erase}
use kvflow_sim.Panic.{done}
use kvflow_sim.Core.Simulator
use kvflow_sim.Core.Simulator.{Simulator}
use kvflow_sim.Cluster.Gpu.{GpuResource, WorkerRole}
use kvflow_sim.Cluster.Topology.{ClusterTopology, gpu_at}
use kvflow_sim.Cluster.Busy.{Sets, Sets-Capable, same_gpu}
use kvflow_sim.Trace.Request.{LlmRequest}
use kvflow_sim.Serving.Event.{ServingEvent}
use kvflow_sim.Serving.Inflight.{InFlightRequest, into_result}
use kvflow_sim.Serving.Engine.{Engine, put, push_prefill, push_decode, finalize}
use kvflow_sim.Serving.Engine.Pending.{pending, pending-schedule}
use kvflow_sim.Serving.Engine.Sound.{
  Sound, subject, gpu_of, about, frees, frees_at, misplaced, count, some_one, held, count-append,
  completed-append, pending-misplaced-Sets,
}

present-insert :
    (k id : ℕ) (f f' : InFlightRequest) (m : Map ℕ InFlightRequest)
    → Map.get id m ≡ some f
    → some_one (Map.get k (Map.insert id f' m)) ≡ some_one (Map.get k m)
present-insert k id f f' m h = ground (arith, get-insert k id f' m)

module _ {total : ℕ → ℕ} {now_ns : ℕ} (e : Engine) where
  -- A request in flight may be written to, where the request itself stays.
  pub rewrites-Sound :
      {hand : Option ℕ} (id : ℕ) (f f' : InFlightRequest)
      → Map.get id e.in_flight ≡ some f
      → f'.request ≡ f.request
      → Sound hand total now_ns e
      → Sound hand total now_ns (record e { in_flight = Map.insert id f' e.in_flight })
  rewrites-Sound {hand} id f f' h same s = record {
    distinct = s.distinct;
    prefills = s.prefills;
    decodes = s.decodes;
    keyed = λ k x got. ground (
      arith,
      get-insert k id f' e.in_flight,
      s.keyed k x,
      s.keyed id f h,
      ap (λ (r : LlmRequest). r.request_id) same,
    );
    listed = λ k. omega (arith, s.listed k, present-insert k id f f' e.in_flight h);
    whole = λ k. omega (arith, s.whole k, present-insert k id f f' e.in_flight h);
    placed = s.placed;
    covered = s.covered;
  }

  -- A GPU takes the request in hand, and an event is to come that frees it.
  pub begins-Sound :
      (id : ℕ) (f f' : InFlightRequest) (ev : ServingEvent) (t n i : ℕ) (g : GpuResource)
      (c' : ClusterTopology)
      → Map.get id e.in_flight ≡ some f
      → f'.request ≡ f.request
      → subject ev ≡ id
      → gpu_of ev ≡ some (n, i)
      → gpu_at e.cluster n i ≡ done g
      → Sets e.cluster n i g t c'
      → Sound (some id) total now_ns e
      → Sound none total now_ns (put e id (Simulator.schedule e.sim t ev, c', f'))
  begins-Sound id f f' ev t n i g c' h same about_id place at sets s = record {
    distinct = sets.distinct;
    prefills = Sets-Capable WorkerRole.prefill at sets s.prefills;
    decodes = Sets-Capable WorkerRole.decode at sets s.decodes;
    keyed = (rewrites-Sound id f f' h same s).keyed;
    listed = λ k.
        rw (pending-schedule (about k) e.sim t ev, about_id)
          (omega (arith, (rewrites-Sound id f f' h same s).listed k));
    whole = (rewrites-Sound id f f' h same s).whole;
    placed =
        rw (pending-schedule (misplaced c') e.sim t ev)
          (omega (arith, s.placed, pending-misplaced-Sets e.sim at sets, placed_event));
    covered = λ m j k got. rw (pending-schedule (frees m j) e.sim t ev, place) (taken m j k got);
  }
    where
      placed_event : misplaced c' ev ≡ 0
      placed_event = rw place (ground (arith, sets.at n i))

      taken :
          (m j : ℕ) (k : GpuResource)
          → gpu_at c' m j ≡ done k
          → (k.busy_until_ns ≤ now_ns)
            ⊎ (1 ≤ frees_at m j (some (n, i)) + pending (frees m j) e.sim)
      taken m j k got = elim (Bool-cases (same_gpu n i m j)) [
        | inl here ↦ inr (rw here (omega arith))
        | inr other ↦ elim (s.covered m j k (rw other at (sym (sets.at m j) ∙ got))) [
          | inl idle ↦ inl idle
          | inr busy ↦ inr (omega arith)
        ]
      ]

  -- What goes into the queues and out of them comes out of the hand and goes into it.
  requeues-Sound :
      {hand hand' : Option ℕ} (prefills decodes : List ℕ)
      → ((k : ℕ)
          → count k prefills + count k decodes + held hand' k
            ≡ count k e.prefill_queue + count k e.decode_queue + held hand k)
      → Sound hand total now_ns e
      → Sound hand' total now_ns (record e { prefill_queue = prefills; decode_queue = decodes })
  requeues-Sound prefills decodes same s = record {
    distinct = s.distinct;
    prefills = s.prefills;
    decodes = s.decodes;
    keyed = s.keyed;
    listed = λ k. omega (arith, s.listed k, same k);
    whole = s.whole;
    placed = s.placed;
    covered = s.covered;
  }

  pub push_prefill-Sound :
      (id : ℕ) → Sound (some id) total now_ns e → Sound none total now_ns (push_prefill e id)
  push_prefill-Sound id =
      requeues-Sound (e.prefill_queue ++ id ∷ []) e.decode_queue
        (λ k. omega (arith, count-append k e.prefill_queue id))

  pub push_decode-Sound :
      (id : ℕ) → Sound (some id) total now_ns e → Sound none total now_ns (push_decode e id)
  push_decode-Sound id =
      requeues-Sound e.prefill_queue (e.decode_queue ++ id ∷ [])
        (λ k. omega (arith, count-append k e.decode_queue id))

  -- The front of a queue is taken in hand.
  pub pop_prefill-Sound :
      (id : ℕ) (queue : List ℕ)
      → e.prefill_queue ≡ id ∷ queue
      → Sound none total now_ns e
      → Sound (some id) total now_ns (record e { prefill_queue = queue })
  pop_prefill-Sound id queue h =
      requeues-Sound queue e.decode_queue (λ k. omega (arith, ap (count k) h))

  pub pop_decode-Sound :
      (id : ℕ) (queue : List ℕ)
      → e.decode_queue ≡ id ∷ queue
      → Sound none total now_ns e
      → Sound (some id) total now_ns (record e { decode_queue = queue })
  pop_decode-Sound id queue h =
      requeues-Sound e.prefill_queue queue (λ k. omega (arith, ap (count k) h))

  -- The request in hand waits for an event that frees no GPU.
  pub awaits-Sound :
      (id t : ℕ) (ev : ServingEvent)
      → subject ev ≡ id
      → gpu_of ev ≡ none
      → Sound (some id) total now_ns e
      → Sound none total now_ns (record e { sim = Simulator.schedule e.sim t ev })
  awaits-Sound id t ev about_id place s = record {
    distinct = s.distinct;
    prefills = s.prefills;
    decodes = s.decodes;
    keyed = s.keyed;
    listed = λ k. rw (pending-schedule (about k) e.sim t ev, about_id) (omega (arith, s.listed k));
    whole = s.whole;
    placed =
        rw (pending-schedule (misplaced e.cluster) e.sim t ev, place) (omega (arith, s.placed));
    covered = λ m j k got.
        rw (pending-schedule (frees m j) e.sim t ev, place)
          (elim (s.covered m j k got) [ inl idle ↦ inl idle | inr busy ↦ inr (omega arith) ]);
  }

  -- The request in hand has its result.
  pub finalize-Sound :
      (id : ℕ) → Sound (some id) total now_ns e → Sound none total now_ns (finalize e id)
  unfolding finalize
  finalize-Sound id s = elim (Option-cases (Map.get id e.in_flight)) [
    | inl gone ↦ absurd (ground (arith, s.listed id))
    | inr (f, h) ↦
        rw (h, finalize)
          (record {
            distinct = s.distinct;
            prefills = s.prefills;
            decodes = s.decodes;
            keyed = λ k x got. ground (arith, get-erase k id e.in_flight, s.keyed k x);
            listed = λ k. ground (arith, s.listed k, get-erase k id e.in_flight);
            whole = λ k. ground (
              arith,
              s.whole k,
              get-erase k id e.in_flight,
              completed-append k e.results (into_result f),
              s.keyed id f,
            );
            placed = s.placed;
            covered = s.covered;
          })
  ]
