-- ===== src/Serving/Engine/Load.antt =====
-- The start of `run` in both runners of src/serving: the state is cleared and every arrival scheduled.
use kvflow_sim.Base.{
  true, false, ℕ, suc, nat_eq, ◌+◌, ◌*◌, ◌≤◌, ◌≡◌, refl, ap, inl, inr, List, [], ◌∷◌, none, arith,
  ◌==◌, length, sum_by,
}
use kvflow_sim.Base.Map
use kvflow_sim.Base.Sort.{sort, Sorted, sort-Sorted}
use kvflow_sim.Serving.Runner.{RequestResult}
use kvflow_sim.Base.Map.{get-insert}
use kvflow_sim.Panic.{done}
use kvflow_sim.Core.Event
use kvflow_sim.Core.Simulator
use kvflow_sim.Core.Simulator.{Simulator}
use kvflow_sim.Cluster.Gpu.{GpuResource, WorkerRole}
use kvflow_sim.Cluster.Topology.{ClusterTopology, gpu_at}
use kvflow_sim.Cluster.Idle.{DistinctIds}
use kvflow_sim.Cluster.Busy.{Capable}
use kvflow_sim.Trace.Request.{LlmRequest}
use kvflow_sim.Serving.Event.{request_arrival}
use kvflow_sim.Serving.Inflight
use kvflow_sim.Serving.Inflight.{InFlightRequest}
use kvflow_sim.Serving.Engine.{Engine, load, clear_state, sooner}
use kvflow_sim.Serving.Engine.Pending.{pending, pending-schedule, pending-none}
use kvflow_sim.Serving.Engine.Sound.{
  Sound, is, about, frees, misplaced, completed, count, some_one, frees_some, Sound-total,
}
use kvflow_sim.Serving.Engine.Weight.{weigh, weight, is_arrival, is_fetch, fetch_of, flag}
use kvflow_sim.Serving.Engine.Take.{Ready}

-- How many of the requests have the id.
abbrev pub asked : ℕ → List LlmRequest → ℕ
asked k l = sum_by (λ (r : LlmRequest). is (r.request_id == k)) l

-- The nodes' ids are distinct, some GPU prefills and some GPU decodes, and none has work.
pub record Fresh (c : ClusterTopology) : Type 0 where
  pub distinct : DistinctIds c.nodes
  pub prefills : Capable WorkerRole.prefill c
  pub decodes : Capable WorkerRole.decode c
  pub idle : (n i : ℕ) (g : GpuResource) → gpu_at c n i ≡ done g → g.busy_until_ns ≡ 0

-- Behind the arrivals of some requests.
pub record Loaded (total : ℕ → ℕ) (events : ℕ) (e : Engine) : Type 0 where
  pub sound : Sound none total 0 e
  pub clock : (e.sim).now_ns ≡ 0
  pub weighs : weight e ≡ 6 * events
  pub arrivals : pending is_arrival e.sim ≡ events
  pub fetches : pending is_fetch e.sim ≡ 0
  pub fetch : (k : ℕ) → pending (fetch_of k) e.sim ≡ 0
  pub flags : (k : ℕ) → flag k e ≡ none
  pub prefills : e.prefill_queue ≡ []
  pub decodes : e.decode_queue ≡ []

clear_state-Loaded : (e : Engine) → Fresh e.cluster → Loaded (λ _. 0) 0 (clear_state e)
unfolding clear_state Simulator.new Map.get Event.new
clear_state-Loaded e h = record {
  sound = record {
    distinct = h.distinct;
    prefills = h.prefills;
    decodes = h.decodes;
    keyed = λ k f got. cc;
    listed = λ k. refl;
    whole = λ k. refl;
    placed = refl;
    covered = λ n i g at. inl (omega (arith, h.idle n i g at));
  };
  clock = refl;
  weighs = refl;
  arrivals = refl;
  fetches = refl;
  fetch = λ k. refl;
  flags = λ k. refl;
  prefills = refl;
  decodes = refl;
}

abbrev arriving : Engine → LlmRequest → Engine
arriving e r = record e {
  sim = Simulator.schedule e.sim r.arrival_ns (request_arrival r.request_id);
  in_flight = Map.insert r.request_id (Inflight.new r) e.in_flight;
}

arriving-Loaded :
    {total total' : ℕ → ℕ} {events : ℕ} (e : Engine) (r : LlmRequest)
    → ((k : ℕ) → total' k ≡ is (r.request_id == k) + total k)
    → total r.request_id ≡ 0
    → Loaded total events e
    → Loaded total' (suc events) (arriving e r)
unfolding Simulator.schedule
arriving-Loaded {total} e r one_more new h = record {
  sound = record {
    distinct = (h.sound).distinct;
    prefills = (h.sound).prefills;
    decodes = (h.sound).decodes;
    keyed = λ k f got.
        ground (arith, get-insert k r.request_id (Inflight.new r) e.in_flight, (h.sound).keyed k f);
    listed = λ k. ground (
      arith,
      pending-schedule (about k) e.sim r.arrival_ns (request_arrival r.request_id),
      get-insert k r.request_id (Inflight.new r) e.in_flight,
      (h.sound).listed k,
      (h.sound).whole k,
    );
    whole = λ k. ground (
      arith,
      one_more k,
      get-insert k r.request_id (Inflight.new r) e.in_flight,
      (h.sound).whole k,
    );
    placed = omega (
      arith,
      pending-schedule (misplaced e.cluster) e.sim r.arrival_ns (request_arrival r.request_id),
      (h.sound).placed,
    );
    covered = λ n i g at. elim ((h.sound).covered n i g at) [
      | inl idle ↦ inl idle
      | inr busy ↦ inr (
          omega
            (arith, pending-schedule (frees n i) e.sim r.arrival_ns (request_arrival r.request_id)))
    ];
  };
  clock = h.clock;
  weighs =
      omega
        (arith, pending-schedule weigh e.sim r.arrival_ns (request_arrival r.request_id), h.weighs);
  arrivals = omega (
    arith,
    pending-schedule is_arrival e.sim r.arrival_ns (request_arrival r.request_id),
    h.arrivals,
  );
  fetches = omega (
    arith,
    pending-schedule is_fetch e.sim r.arrival_ns (request_arrival r.request_id),
    h.fetches,
  );
  fetch = λ k. omega (
    arith,
    pending-schedule (fetch_of k) e.sim r.arrival_ns (request_arrival r.request_id),
    h.fetch k,
  );
  flags = λ k. ground (arith, get-insert k r.request_id (Inflight.new r) e.in_flight, h.flags k);
  prefills = h.prefills;
  decodes = h.decodes;
}

Loaded-total :
    {total total' : ℕ → ℕ} {events events' : ℕ} {e : Engine}
    → ((k : ℕ) → total k ≡ total' k)
    → events ≡ events'
    → Loaded total events e
    → Loaded total' events' e
Loaded-total same more h = record {
  sound = Sound-total same h.sound;
  clock = h.clock;
  weighs = omega (arith, h.weighs);
  arrivals = omega (arith, h.arrivals);
  fetches = h.fetches;
  fetch = h.fetch;
  flags = h.flags;
  prefills = h.prefills;
  decodes = h.decodes;
}

load-Loaded :
    (requests : List LlmRequest) (e : Engine) {total : ℕ → ℕ} {events : ℕ}
    → ((k : ℕ) → asked k requests + total k ≤ 1)
    → Loaded total events e
    → Loaded (λ k. asked k requests + total k) (length requests + events) (load e requests)
unfolding load
load-Loaded [] e once h = Loaded-total (λ k. omega arith) (omega arith) h
load-Loaded (r ∷ rest) e {total} {events} once h =
    let first : Loaded (λ k. is (r.request_id == k) + total k) (suc events) (arriving e r) =
      arriving-Loaded e r (λ k. refl) (ground (arith, once r.request_id)) h in
    let all = load-Loaded rest (arriving e r) (λ k. omega (arith, once k)) first in
    Loaded-total (λ k. omega arith) (omega arith) all

-- Every request waits for its arrival.
pub load-Loaded_all :
    (e : Engine) (requests : List LlmRequest)
    → Fresh e.cluster
    → ((k : ℕ) → asked k requests ≤ 1)
    → Loaded (λ k. asked k requests) (length requests) (load (clear_state e) requests)
load-Loaded_all e requests fresh once =
    Loaded-total (λ k. omega arith) (omega arith)
      (load-Loaded requests (clear_state e) (λ k. omega (arith, once k))
        (clear_state-Loaded e fresh))

pub Loaded-Ready :
    {total : ℕ → ℕ} {events : ℕ} (e : Engine) → Loaded total events e → Ready total 0 e
Loaded-Ready e h = record {
  sound = h.sound;
  clock = h.clock;
  waits = (inl (ap length h.prefills), inl (ap length h.decodes));
}

-- With no event to come, no queue holds a request, and each request has its result.
pub Ready-finished :
    {total : ℕ → ℕ} {now_ns : ℕ} (e : Engine)
    → Ready total now_ns e
    → Simulator.step e.sim ≡ none
    → ((k : ℕ) → completed k e.results ≡ total k)
      × ((k : ℕ) → Map.get k e.in_flight ≡ none)
      × (e.prefill_queue ≡ [])
      × (e.decode_queue ≡ [])
Ready-finished e h ended =
    let none_frees = pending-none frees_some e.sim ended in
    let prefills : length e.prefill_queue ≡ 0 = elim (h.waits).0 [
      | inl q ↦ q
      | inr l ↦ absurd (omega arith)
    ] in
    let decodes : length e.decode_queue ≡ 0 = elim (h.waits).1 [
      | inl q ↦ q
      | inr l ↦ absurd (omega arith)
    ] in
    let gone = λ (k : ℕ). absent k (pending-none (about k) e.sim ended) prefills decodes in
    (
      (λ k. omega (arith, (h.sound).whole k, ap some_one (gone k))),
      gone,
      length-zero e.prefill_queue prefills,
      length-zero e.decode_queue decodes,
    )
  where
    length-zero : (l : List ℕ) → length l ≡ 0 → l ≡ []
    length-zero [] q = refl
    length-zero (x ∷ l) q = absurd (omega arith)

    absent :
        (k : ℕ)
        → pending (about k) e.sim ≡ 0
        → length e.prefill_queue ≡ 0
        → length e.decode_queue ≡ 0
        → Map.get k e.in_flight ≡ none
    absent k events prefills decodes = ground (
      arith,
      (h.sound).listed k,
      ap (count k) (length-zero e.prefill_queue prefills),
      ap (count k) (length-zero e.decode_queue decodes),
    )

-- The results are put in order of arrival, and of their ids at one time.
pub results-Sorted : (l : List RequestResult) → Sorted sooner (sort sooner l)
results-Sorted = sort-Sorted sooner asym weak
  where
    asym : (a b : RequestResult) → sooner a b ≡ true → sooner b a ≡ false
    asym a b h = ground arith

    weak : (a b c : RequestResult) → sooner c b ≡ false → sooner b a ≡ false → sooner c a ≡ false
    weak a b c h k = ground arith
