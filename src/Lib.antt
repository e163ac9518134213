-- ===== src/Lib.antt =====
-- A model of kvflow-sim, a discrete-event simulator of LLM serving with key-value caches in several
-- storage tiers, and what holds of it. Paths are from the repository's root.
--
-- The program's parts. `src/core` keeps the pending events and the clock. `src/cluster` keeps nodes
-- and their GPUs. `src/model` sizes the keys and values of a prompt and says how long compute takes.
-- `src/transfer` says how long bytes take to a GPU, by three models behind one trait.
-- `src/decision.rs` compares a fetch with a recompute. `src/cache` keeps the cached objects, an index
-- of them by session and prefix, and the capacity and usage of every tier of every node.
-- `src/policy` decides where a new object goes: a policy reads the cluster, evicts from the cache and
-- inserts into it, and the network-aware one also asks the compute and the transfer model.
-- `src/serving` runs requests: the simplest runner keeps two pools of workers, the event-driven one
-- handles the events of a simulator on the GPUs of a cluster, and the cache-aware one also looks up
-- what earlier turns of a session have left in the cache, fetches it by a transfer model and stores
-- what it has computed by a placement policy. `src/trace` has the requests, and generates some.
--
-- Which file models which. Each module has the name of its Rust module, each operation its Rust name;
-- a method that writes to `self` or to a `&mut` argument returns it beside its result.
--   Core/Event, Core/Simulator          src/core/event.rs, src/core/simulator.rs
--   Core/Agenda, Core/Clock             the order in which events come out; the clock
--   Cluster/Gpu, Node, Topology         src/cluster; Cluster/Offers and Idle are on the search for an
--                                       idle GPU, Earliest on that for the first
--                                       one free, Busy on the writes to one
--   Model/Profile, Compute              src/model; Model/Sizing is on sizes and latencies
--   Transfer/Path, Analytical           src/transfer/analytical.rs
--   Transfer/Queued, Table, Model       src/transfer/queued.rs, table.rs, mod.rs
--   Transfer/Units                      src/transfer/units.rs
--   Transfer/Durations, Nic             the two estimates against each other; the shared NIC
--   Decision                            src/decision.rs; Decision/Saved is on the choice
--   Cache/Tier, Object, State           src/cache/tier.rs, object.rs, state.rs
--   Cache/Eviction                      src/cache/eviction.rs
--   Cache/State/Accounting              what exact bookkeeping is, with its lemmas in Preserve
--   Cache/State/Invariant, Relocate     insert and remove; relocate and its rollback
--   Cache/State/Lookup, Sane            the index by session and prefix; all that the cache keeps true
--   Policy/Placement, Evict             src/policy/placement.rs, and what the policies share
--   Policy/LocalGpuLru, CpuOffloadLru   src/policy/local_gpu_lru.rs, cpu_offload_lru.rs
--   Policy/Baselines, NetworkAware      src/policy/baselines.rs, network_aware.rs
--   Policy/Fetch                        src/policy/fetch.rs
--   Policy/Lru, Room                    the eviction loop as a relation; the room that it makes
--   Policy/Outcome, Offload, Best       what the policies promise of `place`
--   Policy/Utility                      the score of the network-aware policy, and its order
--   Policy/Interface, Contract          the trait of src/policy/placement.rs, and its five instances; what
--                                       each of them may do to the cache
--   Trace/Request, Synthetic            src/trace/request.rs, synthetic.rs
--   Trace/Stats                         src/trace/stats.rs (Fields and Counts are on what it tells)
--   Trace/Jsonl                         src/trace/jsonl.rs (Laws, Reads and RoundTrip are on it)
--   Serving/Runner                      src/serving/runner.rs; Serving/Workers is on its worker pools
--   Serving/Metrics                     src/serving/metrics.rs (Latency, Results and Slos are on it)
--   Serving/Summary                     `run_summary` of the three runners
--   Serving/Event, Inflight             src/serving/event.rs, inflight.rs
--   Serving/Engine, Drive               the fields, the functions and the loop that the two event-driven
--                                       runners of src/serving have in common
--   Serving/Scheduler, CacheRunner      src/serving/scheduler.rs, cache_runner.rs (its functions are in
--                                       CacheRunner/Parts and Handlers)
--   Serving/Engine/Pending, Sound       what is to come for a request; what the engine keeps true
--   Serving/Engine/Moves, Releases      its single writes; an event in hand, a GPU freed
--   Serving/Engine/Starts               the start of a prefill and of a decode
--   Serving/Engine/Weight, Queues       how far the end is; the loops over the two queues
--   Serving/Engine/Take, Finish, Load   an event taken; a request finished; the start of a run
--   Serving/Complete, Synthetic         whole runs, and runs on synthetic traces
--   Serving/Engine/Carried; Belongs     each result is one of the requests
--   Serving/Engine/Twins, TwinQueues    engines that differ in how they keep the requests in flight
--   Serving/NoReuseEvents, NoReuse      the two event-driven runners against each other
--   Serving/CacheRunner/Tally, Counters the counters of hits against the events to come
--   Serving/CacheRunner/Steps, Arrival  a request in hand; an arrival and its fetch
--   Serving/CacheRunner/Storing, Events a placement; each event handled; Complete is on whole runs
--   Serving/CacheRunner/Cached, Initial what a handler does to the cache; a new cache
--   Serving/CacheRunner/Consistent      the cache through a whole run
--   Serving/CacheRunner/Kept, Belongs   each result is one of the requests
--   Float                               the arithmetic of `f64`
--   Error, Panic                        src/error.rs; code that may panic
--   Base                                numbers, lists, maps and their lemmas
-- The modules called Tests, and those whose name ends in it, run the definitions, on the source's own tests among others, and give for
-- the theorems with conditions an input at which these hold.
--
-- Choices. Machine integers are natural numbers with the wrap-around or the saturation of each
-- operation written out; plain products, sums and differences wrap, as in a release build. A hash map
-- is an association list. The order in which it lists its values is a parameter, `HashOrder`, of
-- which only this is known, that it lists the values of the map and no others. The binary heap is a
-- list from which `pop` takes the greatest element. A formatted message is kept as what it is
-- formatted from. The eviction loop runs on fuel, one more than there are objects; each round but the
-- last removes one, so the fuel does not run out. The event loop has fuel for six events a request and
-- one more: an arrival, a fetch, a place in a queue, a prefill, a second place and a decode. Indexing
-- and `unwrap` give `panic` where Rust does.
--
-- Parameters. `f64` is any arithmetic with a record of what IEEE 754 says of it, the
-- order of three literals between 0 and 1, the monotony of the product of a 64-bit number with a
-- number from 0 to 1, and that of rounding up; an arithmetic of hundredths meets it. The file system is four operations
-- on an unknown state, and serde_json two functions, each with a record of what is documented; a disk of
-- one file whose writer holds all back until the flush and a format in unary meet them.
--
-- Not modelled: the messages on standard error; `Display`, which is derived; running out of memory,
-- and the panic of `Vec::with_capacity` in trace/synthetic.rs for a trace of more bytes than an address
-- space has; the programs under examples.
pub mod Base
pub mod Error
pub mod Float
pub mod Panic
pub mod Core
pub mod Cluster
pub mod Model
pub mod Transfer
pub mod Decision
pub mod Policy
pub mod Cache
pub mod Trace
pub mod Serving
