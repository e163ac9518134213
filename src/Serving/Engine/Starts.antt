-- ===== src/Serving/Engine/Starts.antt =====
-- The starts of src/serving: a GPU found for a request, or a place in a queue.
use kvflow_sim.Base.{
  ℕ, ◌+◌, ◌≤◌, ◌≡◌, refl, subst, inl, inr, List, [], ◌∷◌, ◌++◌, some, arith, nat_eq, length,
  Option-cases,
}
use kvflow_sim.Base.Map
use kvflow_sim.Base.Map.{get-insert}
use kvflow_sim.Panic.{done}
use kvflow_sim.Core.Simulator
use kvflow_sim.Core.Simulator.{Simulator}
use kvflow_sim.Cluster.Gpu.{GpuResource, WorkerRole}
use kvflow_sim.Cluster.Topology.{ClusterTopology, gpu_at}
use kvflow_sim.Cluster.Idle.{Finds, find_idle_gpu_for-Finds}
use kvflow_sim.Cluster.Busy.{Sets, set_busy-Sets, Finds-BusyAt}
use kvflow_sim.Serving.Event.{ServingEvent, prefill_done, decode_done}
use kvflow_sim.Serving.Inflight.{InFlightRequest}
use kvflow_sim.Serving.Engine.{
  Engine, put, push_prefill, push_decode, start_prefill, start_decode, prefilling, prefill_until,
  decoding, decode_step, decode_until, prefill_if_there, decode_if_there, prefill_or_queue,
  decode_or_queue,
}
use kvflow_sim.Serving.Engine.Pending.{pending-schedule}
use kvflow_sim.Serving.Engine.Sound.{Sound, subject, gpu_of, frees_some}
use kvflow_sim.Serving.Engine.Moves.{begins-Sound, push_prefill-Sound, push_decode-Sound}
use kvflow_sim.Serving.Engine.Weight.{weigh, freeing, After, Begun, Runs, busy_freeing, slacken}

length-append : (l : List ℕ) (x : ℕ) → length (l ++ x ∷ []) ≡ length l + 1
length-append [] x = omega arith
length-append (y ∷ l) x = omega (arith, length-append l x)

module _ {total : ℕ → ℕ} {now_ns : ℕ} where
  begins-Begun :
      (e : Engine) (id : ℕ) (f f' : InFlightRequest) (ev : ServingEvent) (t n i : ℕ)
      (g : GpuResource) (c' : ClusterTopology)
      → Map.get id e.in_flight ≡ some f
      → f'.request ≡ f.request
      → f'.pending_fetch_tier ≡ f.pending_fetch_tier
      → subject ev ≡ id
      → gpu_of ev ≡ some (n, i)
      → gpu_at e.cluster n i ≡ done g
      → Sets e.cluster n i g t c'
      → Sound (some id) total now_ns e
      → Begun total now_ns e (weigh ev) (put e id (Simulator.schedule e.sim t ev, c', f'))
  unfolding Simulator.schedule
  begins-Begun e id f f' ev t n i g c' h same same_tier about_id place at sets s = record {
    after = record {
      sound = begins-Sound e id f f' ev t n i g c' h same about_id place at sets s;
      same_now = refl;
      more = omega (arith, pending-schedule frees_some e.sim t ev);
      lighter = omega (arith, pending-schedule weigh e.sim t ev);
      others = λ count no. omega (arith, pending-schedule count e.sim t ev, no ev (n, i) place);
      flags = λ k. ground (arith, get-insert k id f' e.in_flight, same_tier);
    };
    frees_one = rw (pending-schedule frees_some e.sim t ev, place) (omega arith);
    prefills = refl;
    decodes = refl;
  }

  pub prefill_if_there-Begun :
      (e : Engine) (id n i : ℕ) (g : GpuResource)
      → gpu_at e.cluster n i ≡ done g
      → Sound (some id) total now_ns e
      → Runs (Begun total now_ns e 3) (prefill_if_there e id (n, i) now_ns)
  unfolding prefill_if_there start_prefill
  prefill_if_there-Begun e id n i g at s = elim (Option-cases (Map.get id e.in_flight)) [
    | inl gone ↦ absurd (ground (arith, s.listed id))
    | inr (f, h) ↦
        let t = prefill_until e.compute f now_ns in
        let (c', set, sets) = set_busy-Sets e.cluster n i g t s.distinct at in
        (
          put e id (
            Simulator.schedule e.sim t (prefill_done (f.request).request_id n i),
            c',
            prefilling f n i now_ns t,
          ),
          rw (h, prefill_if_there) (rw set refl),
          begins-Begun e id f (prefilling f n i now_ns t) (prefill_done (f.request).request_id n i)
              t n i g c' h refl refl (s.keyed id f h) refl at sets s,
        )
  ]

  pub decode_if_there-Begun :
      (e : Engine) (id n i : ℕ) (g : GpuResource)
      → gpu_at e.cluster n i ≡ done g
      → Sound (some id) total now_ns e
      → Runs (Begun total now_ns e 1) (decode_if_there e id (n, i) now_ns)
  unfolding decode_if_there start_decode
  decode_if_there-Begun e id n i g at s = elim (Option-cases (Map.get id e.in_flight)) [
    | inl gone ↦ absurd (ground (arith, s.listed id))
    | inr (f, h) ↦
        let t = decode_until e.compute e.config f now_ns in
        let f' = decoding f n i now_ns (decode_step e.compute e.config f) t in
        let (c', set, sets) = set_busy-Sets e.cluster n i g t s.distinct at in
        (
          put e id (Simulator.schedule e.sim t (decode_done (f.request).request_id n i), c', f'),
          rw (h, decode_if_there) (rw set refl),
          begins-Begun e id f f' (decode_done (f.request).request_id n i) t n i g c' h refl refl
              (s.keyed id f h) refl at sets s,
        )
  ]

  -- The request in hand is prefilled or waits for that, and either way a GPU is to be freed.
  pub prefill_or_queue-After :
      (e : Engine) (id : ℕ)
      → Sound (some id) total now_ns e
      → Runs (λ e'. After total now_ns e 4 e' × (1 ≤ freeing e')) (prefill_or_queue e id now_ns)
  unfolding prefill_or_queue
  prefill_or_queue-After e id s =
      let (r, searched, finds) =
        find_idle_gpu_for-Finds e.cluster now_ns WorkerRole.prefill s.distinct in
      elim (Option-cases r) [
        | inl nothing ↦
            let all_busy =
              Finds-BusyAt e.cluster now_ns WorkerRole.prefill s.prefills
                (subst (Finds e.cluster now_ns WorkerRole.prefill) nothing finds) in
            (
              push_prefill e id,
              rw searched (rw nothing refl),
              (
                record {
                  sound = push_prefill-Sound e id s;
                  same_now = refl;
                  more = omega arith;
                  lighter = omega (arith, length-append e.prefill_queue id);
                  others = λ _ _. refl;
                  flags = λ _. refl;
                },
                busy_freeing e s all_busy,
              ),
            )
        | inr ((n, i), found) ↦
            let (g, at, _, _) = subst (Finds e.cluster now_ns WorkerRole.prefill) found finds in
            let (e', began, b) = prefill_if_there-Begun e id n i g at s in
            (e', rw searched (rw found began), (slacken b.after (omega arith), b.frees_one))
      ]

  -- The request in hand is decoded or waits for that, and either way a GPU is to be freed.
  pub decode_or_queue-After :
      (e : Engine) (id : ℕ)
      → Sound (some id) total now_ns e
      → Runs (λ e'. After total now_ns e 2 e' × (1 ≤ freeing e')) (decode_or_queue e id now_ns)
  unfolding decode_or_queue
  decode_or_queue-After e id s =
      let (r, searched, finds) =
        find_idle_gpu_for-Finds e.cluster now_ns WorkerRole.decode s.distinct in
      elim (Option-cases r) [
        | inl nothing ↦
            let all_busy =
              Finds-BusyAt e.cluster now_ns WorkerRole.decode s.decodes
                (subst (Finds e.cluster now_ns WorkerRole.decode) nothing finds) in
            (
              push_decode e id,
              rw searched (rw nothing refl),
              (
                record {
                  sound = push_decode-Sound e id s;
                  same_now = refl;
                  more = omega arith;
                  lighter = omega (arith, length-append e.decode_queue id);
                  others = λ _ _. refl;
                  flags = λ _. refl;
                },
                busy_freeing e s all_busy,
              ),
            )
        | inr ((n, i), found) ↦
            let (g, at, _, _) = subst (Finds e.cluster now_ns WorkerRole.decode) found finds in
            let (e', began, b) = decode_if_there-Begun e id n i g at s in
            (e', rw searched (rw found began), (slacken b.after (omega arith), b.frees_one))
      ]
