-- ===== src/Serving/Scheduler.antt =====
-- src/serving/scheduler.rs: `EventDrivenRunner`, whose fields are those of the engine.
use kvflow_sim.Base.{ℕ, nat_eq, ◌+◌, ◌*◌, List, [], Option, none, some, length}
use kvflow_sim.Base.Sort.{sort}
use kvflow_sim.Panic.{Outcome, done, panic, ◌>>=◌}
use kvflow_sim.Base.Map
use kvflow_sim.Core.Simulator
use kvflow_sim.Core.Simulator.{Simulator}
use kvflow_sim.Cluster.Topology.{ClusterTopology}
use kvflow_sim.Model.Compute.{ComputeModel}
use kvflow_sim.Trace.Request.{LlmRequest}
use kvflow_sim.Serving.Event.{ServingEvent, request_arrival, prefill_done, fetch_done, decode_done}
use kvflow_sim.Serving.Drive.{drive}
use kvflow_sim.Serving.Runner.{RequestResult, ServingConfig, earlier}
use kvflow_sim.Serving.Engine.{
  Engine, at_least_one, prefill_or_queue, decode_or_queue, try_assign_prefill, try_assign_decode,
  release, on_decode_done, load, clear_state, sooner,
}

unfoldable pub new : ServingConfig → ClusterTopology → ComputeModel → Engine
new config cluster compute = record {
  sim = Simulator.new;
  cluster = cluster;
  compute = compute;
  config = at_least_one config;
  in_flight = [];
  prefill_queue = [];
  decode_queue = [];
  results = [];
}

-- `if let Some(inflight) = self.in_flight.get_mut(&request_id) { .. }` around the start of a decode.
unfoldable pub decode_next : Engine → ℕ → ℕ → Outcome Engine
decode_next e request_id now_ns = elim (Map.get request_id e.in_flight) [
  | none ↦ done e
  | some _ ↦ decode_or_queue e request_id now_ns
]

unfoldable pub on_prefill_done : Engine → ℕ → ℕ → ℕ → ℕ → Outcome Engine
unfolding decode_next
on_prefill_done e now_ns request_id node_id gpu_idx = do
  released ← release e node_id gpu_idx now_ns
  decoding ← decode_next released request_id now_ns
  assigned ← try_assign_prefill decoding now_ns
  try_assign_decode assigned now_ns

unfoldable pub handle_event : Engine → ℕ → ServingEvent → Outcome Engine
unfolding on_prefill_done
handle_event e now_ns (request_arrival request_id) = prefill_or_queue e request_id now_ns
handle_event e now_ns (prefill_done request_id node_id gpu_idx) =
    on_prefill_done e now_ns request_id node_id gpu_idx
handle_event e now_ns (fetch_done request_id) = panic
handle_event e now_ns (decode_done request_id node_id gpu_idx) =
    on_decode_done e now_ns request_id node_id gpu_idx

unfoldable pub event_loop : ℕ → Engine → Outcome (Option Engine)
unfolding handle_event
event_loop = drive (λ e. e.sim) (λ e sim. record e { sim = sim }) handle_event

-- `std::mem::take(&mut self.results)` behind the last sort.
abbrev pub take_results : Option Engine → Option (Engine × List RequestResult)
take_results none = none
take_results (some e) = some (record e { results = [] }, sort sooner e.results)

-- A request is behind at most six events and places in queues.
unfoldable pub run : Engine → List LlmRequest → Outcome (Option (Engine × List RequestResult))
unfolding event_loop
run e requests = do
  r ← event_loop (6 * length requests + 1) (load (clear_state e) (sort earlier requests))
  done (take_results r)
