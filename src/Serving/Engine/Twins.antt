-- ===== src/Serving/Engine/Twins.antt =====
-- Two engines of src/serving that differ only in how their requests in flight are kept: each function
-- takes such a pair to such a pair.
use kvflow_sim.Base.{
  ℕ, Bool, true, false, sat_add, sat_mul, nat_eq, ◌≡◌, refl, sym, ap, subst, ◌==◌, Option, none,
  some, if◌then◌else◌,
}
use kvflow_sim.Base.Map
use kvflow_sim.Base.Map.{Map, get-insert, get-erase}
use kvflow_sim.Panic.{Outcome, done, panic, ◌>>=◌}
use kvflow_sim.Core.Simulator
use kvflow_sim.Cluster.Gpu.{WorkerRole}
use kvflow_sim.Cluster.Topology.{ClusterTopology, find_idle_gpu_for, set_busy}
use kvflow_sim.Trace.Request.{LlmRequest, reused_prefix_tokens}
use kvflow_sim.Serving.Event.{ServingEvent, prefill_done, decode_done}
use kvflow_sim.Serving.Inflight.{InFlightRequest}
use kvflow_sim.Serving.Engine.{
  Engine, Started, put, tokens_to_prefill, prefilling, decoding, start_prefill, start_decode,
  push_prefill, push_decode, prefill_if_there, decode_if_there, prefill_or_queue, decode_or_queue,
}

-- The request without its tokens to prefill and the mark of a fetch.
abbrev pub norm : InFlightRequest → InFlightRequest
norm f = record f { prefill_tokens = 0; pending_fetch_tier = none }

-- A prefill takes the whole prompt.
abbrev pub Whole : InFlightRequest → Type 0
Whole f = tokens_to_prefill f ≡ (f.request).prompt_tokens

-- What does not tell two entries apart.
abbrev pub Alike : Option InFlightRequest → Option InFlightRequest → Type 0
Alike none none = Unit
Alike (some f) (some g) =
    (norm f ≡ norm g) × (reused_prefix_tokens f.request ≡ 0) × Whole f × Whole g
Alike _ _ = ⊥

-- No request reuses a prefix.
abbrev pub Same : Map ℕ InFlightRequest → Map ℕ InFlightRequest → Type 0
Same m m' = (k : ℕ) → Alike (Map.get k m) (Map.get k m')

abbrev pub with_flight : Engine → Map ℕ InFlightRequest → Engine
with_flight e m = record e { in_flight = m }

abbrev pub Twins : Engine → Engine → Type 0
Twins e e' = (m : Map ℕ InFlightRequest) × (e' ≡ with_flight e m) × Same e.in_flight m

abbrev pub Both : Outcome Engine → Outcome Engine → Type 0
Both (done e) (done e') = Twins e e'
Both panic panic = Unit
Both _ _ = ⊥

pub insert-Same :
    (id : ℕ) (f g : InFlightRequest) (m m' : Map ℕ InFlightRequest)
    → Alike (some f) (some g)
    → Same m m'
    → Same (Map.insert id f m) (Map.insert id g m')
insert-Same id f g m m' alike same k = rw (get-insert k id f m, get-insert k id g m') (of (id == k))
  where
    of : (b : Bool) → Alike (if b then some f else Map.get k m) (if b then some g else Map.get k m')
    of true = alike
    of false = same k

prefilling-Alike :
    (f g : InFlightRequest) (n i t u : ℕ)
    → Alike (some f) (some g)
    → Alike (some (prefilling f n i t u)) (some (prefilling g n i t u))
prefilling-Alike f g n i t u (h, r, v, w) = (ap (λ x. prefilling x n i t u) h, r, v, w)

decoding-Alike :
    (f g : InFlightRequest) (n i t s u : ℕ)
    → Alike (some f) (some g)
    → Alike (some (decoding f n i t s u)) (some (decoding g n i t s u))
decoding-Alike f g n i t s u (h, r, v, w) = (ap (λ x. decoding x n i t s u) h, r, v, w)

module _ (e : Engine) (m : Map ℕ InFlightRequest) (same : Same e.in_flight m) where
  abbrev ended : Engine → ℕ → Outcome Started → Outcome Engine
  ended x id o = o >>= (λ s. done (put x id s))

  -- The two starts have this form.
  begin : (ℕ → ServingEvent) → (id n i until rid : ℕ) → InFlightRequest → Engine → Outcome Engine
  begin ev id n i until rid f x =
      ended x id (
        set_busy x.cluster n i until
        >>= (λ c. done (Simulator.schedule x.sim until (ev rid), c, f)))

  begin-Both :
      (ev : ℕ → ServingEvent) (id n i until rid : ℕ) (f g : InFlightRequest)
      → Alike (some f) (some g)
      → Both (begin ev id n i until rid f e) (begin ev id n i until rid g (with_flight e m))
  unfolding begin
  begin-Both ev id n i until rid f g alike = of (set_busy e.cluster n i until)
    where
      of :
          (o : Outcome ClusterTopology)
          → Both (ended e id (o >>= (λ c. done (Simulator.schedule e.sim until (ev rid), c, f)))) (
              ended
                (with_flight e m)
                id
                (o >>= (λ c. done (Simulator.schedule e.sim until (ev rid), c, g))))
      of panic = tt
      of (done c) = (Map.insert id g m, refl, insert-Same id f g e.in_flight m alike same)

  pub prefill_if_there-Both :
      (id n i t : ℕ)
      → Both (prefill_if_there e id (n, i) t) (prefill_if_there (with_flight e m) id (n, i) t)
  unfolding prefill_if_there start_prefill begin
  prefill_if_there-Both id n i t = of (Map.get id e.in_flight) (Map.get id m) (same id)
    where
      ev : ℕ → ServingEvent
      ev rid = prefill_done rid n i

      until : ℕ → ℕ
      until tokens = sat_add t ((e.compute).prefill_time_ns tokens)

      started : InFlightRequest → ℕ → LlmRequest → Engine → Outcome Engine
      started f tokens x =
          begin ev id n i (until tokens) x.request_id (prefilling f n i t (until tokens))

      of :
          (o o' : Option InFlightRequest)
          → Alike o o'
          → Both
              (elim o [
                | none ↦ done e
                | some f ↦
                    start_prefill e.sim e.cluster e.compute f n i t >>= (λ s. done (put e id s))
              ])
              (elim o' [
                | none ↦ done (with_flight e m)
                | some f ↦
                    start_prefill e.sim e.cluster e.compute f n i t
                    >>= (λ s. done (put (with_flight e m) id s))
              ])
      of none none h = (m, refl, same)
      of none (some g) h = elim h [ ]
      of (some f) none h = elim h [ ]
      of (some f) (some g) (h, r, v, w) =
          subst
            (λ a.
              Both (started f a f.request e)
                (started g (tokens_to_prefill g) g.request (with_flight e m)))
            (sym v)
            (subst
              (λ b.
                Both (started f (f.request).prompt_tokens f.request e)
                  (started g b g.request (with_flight e m)))
              (sym w)
              (subst
                (λ (x : LlmRequest).
                  Both (started f (f.request).prompt_tokens f.request e)
                    (started g x.prompt_tokens x (with_flight e m)))
                (ap (λ (x : InFlightRequest). x.request) h)
                (begin-Both ev id n i (until (f.request).prompt_tokens) (f.request).request_id _ _
                  (prefilling-Alike f g n i t (until (f.request).prompt_tokens) (h, r, v, w)))))

  pub decode_if_there-Both :
      (id n i t : ℕ)
      → Both (decode_if_there e id (n, i) t) (decode_if_there (with_flight e m) id (n, i) t)
  unfolding decode_if_there start_decode begin
  decode_if_there-Both id n i t = of (Map.get id e.in_flight) (Map.get id m) (same id)
    where
      ev : ℕ → ServingEvent
      ev rid = decode_done rid n i

      step : LlmRequest → ℕ
      step r = (e.compute).decode_step_time_ns (e.config).decode_batch_size r.prompt_tokens

      until : LlmRequest → ℕ
      until r = sat_add t (sat_mul (step r) r.output_tokens)

      of :
          (o o' : Option InFlightRequest)
          → Alike o o'
          → Both
              (elim o [
                | none ↦ done e
                | some f ↦
                    start_decode e.sim e.cluster e.compute e.config f n i t
                    >>= (λ s. done (put e id s))
              ])
              (elim o' [
                | none ↦ done (with_flight e m)
                | some f ↦
                    start_decode e.sim e.cluster e.compute e.config f n i t
                    >>= (λ s. done (put (with_flight e m) id s))
              ])
      of none none h = (m, refl, same)
      of none (some g) h = elim h [ ]
      of (some f) none h = elim h [ ]
      of (some f) (some g) (h, r, v, w) =
          subst
            (λ (x : LlmRequest).
              Both
                (begin ev id n i (until f.request) (f.request).request_id
                  (decoding f n i t (step f.request) (until f.request)) e)
                (begin ev id n i (until x) x.request_id (decoding g n i t (step x) (until x))
                  (with_flight e m)))
            (ap (λ (x : InFlightRequest). x.request) h)
            (begin-Both ev id n i (until f.request) (f.request).request_id _ _
              (decoding-Alike f g n i t (step f.request) (until f.request) (h, r, v, w)))

  pub prefill_or_queue-Both :
      (id t : ℕ) → Both (prefill_or_queue e id t) (prefill_or_queue (with_flight e m) id t)
  unfolding prefill_or_queue
  prefill_or_queue-Both id t = of (find_idle_gpu_for e.cluster t WorkerRole.prefill)
    where
      of :
          (o : Outcome (Option (ℕ × ℕ)))
          → Both
              (o >>= (λ idle. elim idle [
                | some gpu ↦ prefill_if_there e id gpu t
                | none ↦ done (push_prefill e id)
              ]))
              (o >>= (λ idle. elim idle [
                | some gpu ↦ prefill_if_there (with_flight e m) id gpu t
                | none ↦ done (push_prefill (with_flight e m) id)
              ]))
      of panic = tt
      of (done none) = (m, refl, same)
      of (done (some (n, i))) = prefill_if_there-Both id n i t

  pub decode_or_queue-Both :
      (id t : ℕ) → Both (decode_or_queue e id t) (decode_or_queue (with_flight e m) id t)
  unfolding decode_or_queue
  decode_or_queue-Both id t = of (find_idle_gpu_for e.cluster t WorkerRole.decode)
    where
      of :
          (o : Outcome (Option (ℕ × ℕ)))
          → Both
              (o >>= (λ idle. elim idle [
                | some gpu ↦ decode_if_there e id gpu t
                | none ↦ done (push_decode e id)
              ]))
              (o >>= (λ idle. elim idle [
                | some gpu ↦ decode_if_there (with_flight e m) id gpu t
                | none ↦ done (push_decode (with_flight e m) id)
              ]))
      of panic = tt
      of (done none) = (m, refl, same)
      of (done (some (n, i))) = decode_if_there-Both id n i t
