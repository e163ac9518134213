-- ===== src/Serving/Engine.antt =====
-- What src/serving/scheduler.rs and src/serving/cache_runner.rs have in common: the fields that both
-- runners keep, the two functions that the one takes from the other, and the code that both repeat.
-- A hash map is an association list, a `VecDeque` a list with its front first.
pub mod Pending
pub mod Sound
pub mod Moves
pub mod Releases
pub mod Weight
pub mod Starts
pub mod Queues
pub mod Take
pub mod Finish
pub mod Load
pub mod Twins
pub mod TwinQueues
pub mod Carried
use kvflow_sim.Base.{
  ℕ, Bool, ◌&&◌, ◌||◌, ltb, ◌==◌, nat_eq, List, [], ◌∷◌, ◌++◌, Option, none, some, if◌then◌else◌,
  sat_add, sat_mul, max,
}
use kvflow_sim.Base.Map
use kvflow_sim.Base.Map.{Map}
use kvflow_sim.Panic.{Outcome, done, ◌>>=◌}
use kvflow_sim.Core.Simulator
use kvflow_sim.Core.Simulator.{Simulator}
use kvflow_sim.Cluster.Gpu.{WorkerRole}
use kvflow_sim.Cluster.Topology.{ClusterTopology, find_idle_gpu_for, set_busy}
use kvflow_sim.Model.Compute.{ComputeModel}
use kvflow_sim.Trace.Request.{LlmRequest}
use kvflow_sim.Serving.Event.{ServingEvent, request_arrival, prefill_done, decode_done}
use kvflow_sim.Serving.Inflight
use kvflow_sim.Serving.Inflight.{InFlightRequest, into_result}
use kvflow_sim.Serving.Runner.{RequestResult, ServingConfig}

pub record Engine : Type 0 where
  pub sim : Simulator ServingEvent
  pub cluster : ClusterTopology
  pub compute : ComputeModel
  pub config : ServingConfig
  pub in_flight : Map ℕ InFlightRequest
  pub prefill_queue : List ℕ
  pub decode_queue : List ℕ
  pub results : List RequestResult

abbrev pub at_least_one : ServingConfig → ServingConfig
at_least_one config = record {
  prefill_workers = max config.prefill_workers 1;
  decode_workers = max config.decode_workers 1;
  decode_batch_size = max config.decode_batch_size 1;
}

-- What the three `&mut` arguments of the two functions below become.
abbrev pub Started : Type 0
Started = Simulator ServingEvent × ClusterTopology × InFlightRequest

abbrev pub tokens_to_prefill : InFlightRequest → ℕ
tokens_to_prefill f = if f.prefill_tokens == 0 then (f.request).prompt_tokens else f.prefill_tokens

-- The writes to the request, and when the GPU is done with it.
abbrev pub prefilling : InFlightRequest → ℕ → ℕ → ℕ → ℕ → InFlightRequest
prefilling f node_id gpu_idx now_ns done_ns = record f {
  prefill_start_ns = some now_ns;
  prefill_done_ns = some done_ns;
  prefill_node = some node_id;
  prefill_gpu = some gpu_idx;
}

abbrev pub prefill_until : ComputeModel → InFlightRequest → ℕ → ℕ
prefill_until compute f now_ns = sat_add now_ns (compute.prefill_time_ns (tokens_to_prefill f))

unfoldable pub start_prefill :
    Simulator ServingEvent
    → ClusterTopology
    → ComputeModel
    → InFlightRequest
    → ℕ
    → ℕ
    → ℕ
    → Outcome Started
start_prefill sim cluster compute f node_id gpu_idx now_ns = do
  let done_ns = prefill_until compute f now_ns
  cluster' ← set_busy cluster node_id gpu_idx done_ns
  done (
    Simulator.schedule sim done_ns (prefill_done (f.request).request_id node_id gpu_idx),
    cluster',
    prefilling f node_id gpu_idx now_ns done_ns,
  )

abbrev pub decoding : InFlightRequest → ℕ → ℕ → ℕ → ℕ → ℕ → InFlightRequest
decoding f node_id gpu_idx now_ns step_ns finish_ns = record f {
  decode_start_ns = some now_ns;
  first_token_ns = some (sat_add now_ns step_ns);
  finish_ns = some finish_ns;
  decode_node = some node_id;
  decode_gpu = some gpu_idx;
}

abbrev pub decode_step : ComputeModel → ServingConfig → InFlightRequest → ℕ
decode_step compute config f =
    compute.decode_step_time_ns config.decode_batch_size (f.request).prompt_tokens

abbrev pub decode_until : ComputeModel → ServingConfig → InFlightRequest → ℕ → ℕ
decode_until compute config f now_ns =
    sat_add now_ns (sat_mul (decode_step compute config f) (f.request).output_tokens)

unfoldable pub start_decode :
    Simulator ServingEvent
    → ClusterTopology
    → ComputeModel
    → ServingConfig
    → InFlightRequest
    → ℕ
    → ℕ
    → ℕ
    → Outcome Started
start_decode sim cluster compute config f node_id gpu_idx now_ns = do
  let finish_ns = decode_until compute config f now_ns
  cluster' ← set_busy cluster node_id gpu_idx finish_ns
  done (
    Simulator.schedule sim finish_ns (decode_done (f.request).request_id node_id gpu_idx),
    cluster',
    decoding f node_id gpu_idx now_ns (decode_step compute config f) finish_ns,
  )

abbrev pub put : Engine → ℕ → Started → Engine
put e request_id (sim, cluster, f) = record e {
  sim = sim;
  cluster = cluster;
  in_flight = Map.insert request_id f e.in_flight;
}

-- `if let Some(inflight) = self.in_flight.get_mut(&request_id) { start_prefill(..) }`.
unfoldable pub prefill_if_there : Engine → ℕ → ℕ × ℕ → ℕ → Outcome Engine
prefill_if_there e request_id gpu now_ns = elim (Map.get request_id e.in_flight) [
  | none ↦ done e
  | some f ↦ do
    s ← start_prefill e.sim e.cluster e.compute f gpu.0 gpu.1 now_ns
    done (put e request_id s)
]

-- The same with `start_decode`.
unfoldable pub decode_if_there : Engine → ℕ → ℕ × ℕ → ℕ → Outcome Engine
decode_if_there e request_id gpu now_ns = elim (Map.get request_id e.in_flight) [
  | none ↦ done e
  | some f ↦ do
    s ← start_decode e.sim e.cluster e.compute e.config f gpu.0 gpu.1 now_ns
    done (put e request_id s)
]

abbrev pub push_prefill : Engine → ℕ → Engine
push_prefill e request_id = record e { prefill_queue = e.prefill_queue ++ request_id ∷ [] }

abbrev pub push_decode : Engine → ℕ → Engine
push_decode e request_id = record e { decode_queue = e.decode_queue ++ request_id ∷ [] }

-- Prefill on an idle GPU, or wait for one.
unfoldable pub prefill_or_queue : Engine → ℕ → ℕ → Outcome Engine
prefill_or_queue e request_id now_ns = do
  idle ← find_idle_gpu_for e.cluster now_ns WorkerRole.prefill
  elim idle [
    | some gpu ↦ prefill_if_there e request_id gpu now_ns
    | none ↦ done (push_prefill e request_id)
  ]

unfoldable pub decode_or_queue : Engine → ℕ → ℕ → Outcome Engine
decode_or_queue e request_id now_ns = do
  idle ← find_idle_gpu_for e.cluster now_ns WorkerRole.decode
  elim idle [
    | some gpu ↦ decode_if_there e request_id gpu now_ns
    | none ↦ done (push_decode e request_id)
  ]

-- The loops over the queues take off the front while an idle GPU is found. The first argument is the
-- queue.
unfoldable pub assign_prefill : List ℕ → Engine → ℕ → Outcome Engine
assign_prefill [] e now_ns = done e
assign_prefill (request_id ∷ queue) e now_ns = do
  idle ← find_idle_gpu_for e.cluster now_ns WorkerRole.prefill
  elim idle [
    | some gpu ↦ do
      e' ← prefill_if_there (record e { prefill_queue = queue }) request_id gpu now_ns
      assign_prefill queue e' now_ns
    | none ↦ done e
  ]

unfoldable pub assign_decode : List ℕ → Engine → ℕ → Outcome Engine
assign_decode [] e now_ns = done e
assign_decode (request_id ∷ queue) e now_ns = do
  idle ← find_idle_gpu_for e.cluster now_ns WorkerRole.decode
  elim idle [
    | some gpu ↦ do
      e' ← decode_if_there (record e { decode_queue = queue }) request_id gpu now_ns
      assign_decode queue e' now_ns
    | none ↦ done e
  ]

unfoldable pub try_assign_prefill : Engine → ℕ → Outcome Engine
try_assign_prefill e now_ns = assign_prefill e.prefill_queue e now_ns

unfoldable pub try_assign_decode : Engine → ℕ → Outcome Engine
try_assign_decode e now_ns = assign_decode e.decode_queue e now_ns

-- `if let Some(node) = self.cluster.node_mut(node_id) { node.gpus[gpu_idx].busy_until_ns = now_ns; }`.
unfoldable pub release : Engine → ℕ → ℕ → ℕ → Outcome Engine
release e node_id gpu_idx now_ns = do
  cluster' ← set_busy e.cluster node_id gpu_idx now_ns
  done (record e { cluster = cluster' })

-- `if let Some(inflight) = self.in_flight.remove(&id) { self.results.push(inflight.into_result()); }`.
unfoldable pub finalize : Engine → ℕ → Engine
finalize e request_id = elim (Map.get request_id e.in_flight) [
  | none ↦ e
  | some f ↦ record e {
    in_flight = Map.erase request_id e.in_flight;
    results = e.results ++ into_result f ∷ [];
  }
]

unfoldable pub on_decode_done : Engine → ℕ → ℕ → ℕ → ℕ → Outcome Engine
unfolding release finalize
on_decode_done e now_ns request_id node_id gpu_idx = do
  released ← release e node_id gpu_idx now_ns
  assigned ← try_assign_decode (finalize released request_id) now_ns
  try_assign_prefill assigned now_ns

-- The loop of `run` that schedules the arrivals, over the sorted requests.
unfoldable pub load : Engine → List LlmRequest → Engine
load e [] = e
load e (r ∷ rest) =
    load
      (record e {
        sim = Simulator.schedule e.sim r.arrival_ns (request_arrival r.request_id);
        in_flight = Map.insert r.request_id (Inflight.new r) e.in_flight;
      })
      rest

unfoldable pub clear_state : Engine → Engine
clear_state e = record e {
  sim = Simulator.new;
  in_flight = [];
  prefill_queue = [];
  decode_queue = [];
  results = [];
}

-- `sort_by_key(|r| (r.arrival_ns, r.request_id))` of the results.
abbrev pub sooner : RequestResult → RequestResult → Bool
sooner a b =
    ltb a.arrival_ns b.arrival_ns || (a.arrival_ns == b.arrival_ns && ltb a.request_id b.request_id)
