-- ===== src/Serving/Engine/TwinQueues.antt =====
-- The loops over the queues of src/serving, and the end of a request, on two engines that differ only in
-- how their requests in flight are kept.
use kvflow_sim.Base.{
  ℕ, Bool, true, false, nat_eq, refl, sym, ap, subst, ◌==◌, List, [], ◌∷◌, ◌++◌, Option, none, some,
  if◌then◌else◌,
}
use kvflow_sim.Base.Map
use kvflow_sim.Base.Map.{Map, get-insert, get-erase}
use kvflow_sim.Panic.{Outcome, done, panic, ◌>>=◌}
use kvflow_sim.Cluster.Gpu.{WorkerRole}
use kvflow_sim.Cluster.Topology.{ClusterTopology, find_idle_gpu_for, set_busy}
use kvflow_sim.Serving.Inflight.{InFlightRequest, into_result}
use kvflow_sim.Serving.Engine.{
  Engine, prefill_if_there, decode_if_there, assign_prefill, assign_decode, try_assign_prefill,
  try_assign_decode, release, finalize, on_decode_done,
}
use kvflow_sim.Serving.Engine.Twins.{
  Alike, Same, with_flight, Twins, Both, prefill_if_there-Both, decode_if_there-Both,
}

-- What follows a pair is a pair.
pub then-Both :
    (o o' : Outcome Engine) (next next' : Engine → Outcome Engine)
    → Both o o'
    → ((e : Engine) (m : Map ℕ InFlightRequest)
        → Same e.in_flight m
        → Both (next e) (next' (with_flight e m)))
    → Both (o >>= next) (o' >>= next')
then-Both (done e) (done e') next next' (m, q, same) h =
    subst (λ x. Both (next e) (next' x)) (sym q) (h e m same)
then-Both panic panic next next' b h = tt
then-Both (done e) panic next next' b h = elim b [ ]
then-Both panic (done e) next next' b h = elim b [ ]

assign_prefill-Both :
    (queue : List ℕ) (t : ℕ) (e : Engine) (m : Map ℕ InFlightRequest)
    → Same e.in_flight m
    → Both (assign_prefill queue e t) (assign_prefill queue (with_flight e m) t)
unfolding assign_prefill
assign_prefill-Both [] t e m same = (m, refl, same)
assign_prefill-Both (id ∷ queue) t e m same =
    of (assign_prefill-Both queue t) (find_idle_gpu_for e.cluster t WorkerRole.prefill)
  where
    of :
        ((x : Engine) (m' : Map ℕ InFlightRequest)
          → Same x.in_flight m'
          → Both (assign_prefill queue x t) (assign_prefill queue (with_flight x m') t))
        → (o : Outcome (Option (ℕ × ℕ)))
        → Both
            (o >>= (λ idle. elim idle [
              | some gpu ↦
                  prefill_if_there (record e { prefill_queue = queue }) id gpu t
                  >>= (λ x. assign_prefill queue x t)
              | none ↦ done e
            ]))
            (o >>= (λ idle. elim idle [
              | some gpu ↦
                  prefill_if_there (record e { prefill_queue = queue; in_flight = m }) id gpu t
                  >>= (λ x. assign_prefill queue x t)
              | none ↦ done (with_flight e m)
            ]))
    of rest panic = tt
    of rest (done none) = (m, refl, same)
    of rest (done (some (n, i))) =
        then-Both _ _ _ _
          (prefill_if_there-Both (record e { prefill_queue = queue }) m same id n i t) rest

assign_decode-Both :
    (queue : List ℕ) (t : ℕ) (e : Engine) (m : Map ℕ InFlightRequest)
    → Same e.in_flight m
    → Both (assign_decode queue e t) (assign_decode queue (with_flight e m) t)
unfolding assign_decode
assign_decode-Both [] t e m same = (m, refl, same)
assign_decode-Both (id ∷ queue) t e m same =
    of (assign_decode-Both queue t) (find_idle_gpu_for e.cluster t WorkerRole.decode)
  where
    of :
        ((x : Engine) (m' : Map ℕ InFlightRequest)
          → Same x.in_flight m'
          → Both (assign_decode queue x t) (assign_decode queue (with_flight x m') t))
        → (o : Outcome (Option (ℕ × ℕ)))
        → Both
            (o >>= (λ idle. elim idle [
              | some gpu ↦
                  decode_if_there (record e { decode_queue = queue }) id gpu t
                  >>= (λ x. assign_decode queue x t)
              | none ↦ done e
            ]))
            (o >>= (λ idle. elim idle [
              | some gpu ↦
                  decode_if_there (record e { decode_queue = queue; in_flight = m }) id gpu t
                  >>= (λ x. assign_decode queue x t)
              | none ↦ done (with_flight e m)
            ]))
    of rest panic = tt
    of rest (done none) = (m, refl, same)
    of rest (done (some (n, i))) =
        then-Both _ _ _ _ (decode_if_there-Both (record e { decode_queue = queue }) m same id n i t)
          rest

module _ (e : Engine) (m : Map ℕ InFlightRequest) (same : Same e.in_flight m) where
  pub prefill_then_decode-Both :
      (t : ℕ)
      → Both
          (try_assign_prefill e t >>= (λ a. try_assign_decode a t))
          (try_assign_prefill (with_flight e m) t >>= (λ a. try_assign_decode a t))
  unfolding try_assign_prefill try_assign_decode
  prefill_then_decode-Both t =
      then-Both _ _ _ _ (assign_prefill-Both e.prefill_queue t e m same)
        (λ a. assign_decode-Both a.decode_queue t a)

  decode_then_prefill-Both :
      (t : ℕ)
      → Both
          (try_assign_decode e t >>= (λ a. try_assign_prefill a t))
          (try_assign_decode (with_flight e m) t >>= (λ a. try_assign_prefill a t))
  unfolding try_assign_prefill try_assign_decode
  decode_then_prefill-Both t =
      then-Both _ _ _ _ (assign_decode-Both e.decode_queue t e m same)
        (λ a. assign_prefill-Both a.prefill_queue t a)

  pub release-Both : (n i t : ℕ) → Both (release e n i t) (release (with_flight e m) n i t)
  unfolding release
  release-Both n i t = of (set_busy e.cluster n i t)
    where
      of :
          (o : Outcome ClusterTopology)
          → Both
              (o >>= (λ c. done (record e { cluster = c })))
              (o >>= (λ c. done (record e { cluster = c; in_flight = m })))
      of panic = tt
      of (done c) = (m, refl, same)

  finalize-Twins : (id : ℕ) → Twins (finalize e id) (finalize (with_flight e m) id)
  unfolding finalize
  finalize-Twins id = of (Map.get id e.in_flight) (Map.get id m) (same id)
    where
      ended : Option InFlightRequest → Engine → Engine
      ended none x = x
      ended (some f) x = record x {
        in_flight = Map.erase id x.in_flight;
        results = x.results ++ into_result f ∷ [];
      }

      erased : Same (Map.erase id e.in_flight) (Map.erase id m)
      erased k = rw (get-erase k id e.in_flight, get-erase k id m) (at (id == k))
        where
          at :
              (b : Bool)
              → Alike (if b then none else Map.get k e.in_flight) (if b then none else Map.get k m)
          at true = tt
          at false = same k

      of :
          (o o' : Option InFlightRequest)
          → Alike o o'
          → Twins
              (elim o [ none ↦ e | some f ↦ ended (some f) e ])
              (elim o' [ none ↦ with_flight e m | some f ↦ ended (some f) (with_flight e m) ])
      of none none h = (m, refl, same)
      of none (some g) h = elim h [ ]
      of (some f) none h = elim h [ ]
      of (some f) (some g) (h, _, _, _) = (
        Map.erase id m,
        ap (λ x. record e { in_flight = Map.erase id m; results = e.results ++ x ∷ [] })
            (sym (ap into_result h)),
        erased,
      )

pub on_decode_done-Both :
    (e : Engine) (m : Map ℕ InFlightRequest) (t id n i : ℕ)
    → Same e.in_flight m
    → Both (on_decode_done e t id n i) (on_decode_done (with_flight e m) t id n i)
unfolding on_decode_done
on_decode_done-Both e m t id n i same = then-Both _ _ _ _ (release-Both e m same n i t) (λ x y s.
    let (z, q, s') = finalize-Twins x y s id in
    subst
      (λ w.
        Both (try_assign_decode (finalize x id) t >>= (λ a. try_assign_prefill a t))
          (try_assign_decode w t >>= (λ a. try_assign_prefill a t)))
      (sym q) (decode_then_prefill-Both (finalize x id) z s' t))
