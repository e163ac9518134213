-- ===== src/Serving/Engine/Sound.antt =====
-- What the runners of src/serving keep true of their events, queues and GPUs: every request that is
-- not finished is in just one place, and every GPU at work has an event to come that frees it.
use kvflow_sim.Base.{
  ℕ, ◌+◌, ◌≤◌, ◌≡◌, refl, ◌∙◌, ◌⊎◌, Bool, List, [], ◌∷◌, ◌++◌, Option, none, some, arith, sum_by,
  if◌then◌else◌, ◌==◌, nat_eq,
}
use kvflow_sim.Base.Map
use kvflow_sim.Base.Map.{Map, get-insert, get-erase}
use kvflow_sim.Panic.{Outcome, done, panic}
use kvflow_sim.Core.Simulator.{Simulator}
use kvflow_sim.Cluster.Gpu.{GpuResource, WorkerRole}
use kvflow_sim.Cluster.Topology.{ClusterTopology, gpu_at}
use kvflow_sim.Cluster.Idle.{DistinctIds}
use kvflow_sim.Cluster.Busy.{Capable, Sets, same_gpu}
use kvflow_sim.Serving.Event.{ServingEvent, request_arrival, prefill_done, fetch_done, decode_done}
use kvflow_sim.Serving.Inflight.{InFlightRequest}
use kvflow_sim.Serving.Runner.{RequestResult}
use kvflow_sim.Serving.Engine.{Engine}
use kvflow_sim.Serving.Engine.Pending.{pending}

abbrev pub subject : ServingEvent → ℕ
subject (request_arrival k) = k
subject (prefill_done k _ _) = k
subject (fetch_done k) = k
subject (decode_done k _ _) = k

-- The GPU that an event frees.
abbrev pub gpu_of : ServingEvent → Option (ℕ × ℕ)
gpu_of (prefill_done _ n i) = some (n, i)
gpu_of (decode_done _ n i) = some (n, i)
gpu_of _ = none

abbrev pub is : Bool → ℕ
is b = if b then 1 else 0

abbrev pub about : ℕ → ServingEvent → ℕ
about k ev = is (subject ev == k)

abbrev pub frees_at : ℕ → ℕ → Option (ℕ × ℕ) → ℕ
frees_at n i none = 0
frees_at n i (some (m, j)) = is (same_gpu m j n i)

abbrev pub frees : ℕ → ℕ → ServingEvent → ℕ
frees n i ev = frees_at n i (gpu_of ev)

abbrev pub one_for : Option (ℕ × ℕ) → ℕ
one_for none = 0
one_for (some _) = 1

abbrev pub frees_some : ServingEvent → ℕ
frees_some ev = one_for (gpu_of ev)

abbrev absent : Outcome GpuResource → ℕ
absent (done _) = 0
absent panic = 1

abbrev misplaced_at : ClusterTopology → Option (ℕ × ℕ) → ℕ
misplaced_at c none = 0
misplaced_at c (some (n, i)) = absent (gpu_at c n i)

-- 1 for an event of a GPU that is not there.
abbrev pub misplaced : ClusterTopology → ServingEvent → ℕ
misplaced c ev = misplaced_at c (gpu_of ev)

abbrev pub count : ℕ → List ℕ → ℕ
count k l = sum_by (λ j. is (j == k)) l

-- The events and the places in queues that a request has.
abbrev pub places : ℕ → Engine → ℕ
places k e = pending (about k) e.sim + count k e.prefill_queue + count k e.decode_queue

abbrev pub some_one : Option InFlightRequest → ℕ
some_one none = 0
some_one (some _) = 1

abbrev pub present : ℕ → Engine → ℕ
present k e = some_one (Map.get k e.in_flight)

abbrev pub completed : ℕ → List RequestResult → ℕ
completed k l = sum_by (λ (r : RequestResult). is (r.request_id == k)) l

-- A request that a handler has in hand.
abbrev pub held : Option ℕ → ℕ → ℕ
held none k = 0
held (some j) k = is (j == k)

-- `total` says how often each request was asked for.
pub record Sound (hand : Option ℕ) (total : ℕ → ℕ) (now_ns : ℕ) (e : Engine) : Type 0 where
  pub distinct : DistinctIds (e.cluster).nodes
  pub prefills : Capable WorkerRole.prefill e.cluster
  pub decodes : Capable WorkerRole.decode e.cluster
  pub keyed :
      (k : ℕ) (f : InFlightRequest) → Map.get k e.in_flight ≡ some f → (f.request).request_id ≡ k
  pub listed : (k : ℕ) → places k e + held hand k ≡ present k e
  pub whole : (k : ℕ) → present k e + completed k e.results ≡ total k
  pub placed : pending (misplaced e.cluster) e.sim ≡ 0
  pub covered :
      (n i : ℕ) (g : GpuResource)
      → gpu_at e.cluster n i ≡ done g
      → (g.busy_until_ns ≤ now_ns) ⊎ (1 ≤ pending (frees n i) e.sim)

sum-ext : {A : Type 0} (f g : A → ℕ) (l : List A) → ((x : A) → f x ≡ g x) → sum_by f l ≡ sum_by g l
sum-ext f g [] h = refl
sum-ext f g (x ∷ l) h = omega (arith, h x, sum-ext f g l h)

pub count-append : (k : ℕ) (l : List ℕ) (j : ℕ) → count k (l ++ j ∷ []) ≡ count k l + is (j == k)
count-append k [] j = omega arith
count-append k (x ∷ l) j = omega (arith, count-append k l j)

pub completed-append :
    (k : ℕ) (l : List RequestResult) (r : RequestResult)
    → completed k (l ++ r ∷ []) ≡ completed k l + is (r.request_id == k)
completed-append k [] r = omega arith
completed-append k (x ∷ l) r = omega (arith, completed-append k l r)

-- The cluster has the same GPUs behind a write to one.
pub misplaced-Sets :
    {c c' : ClusterTopology} {n i until : ℕ} {g : GpuResource} (ev : ServingEvent)
    → gpu_at c n i ≡ done g
    → Sets c n i g until c'
    → misplaced c' ev ≡ misplaced c ev
misplaced-Sets {c} {c'} {n} {i} ev h s = of_gpu (gpu_of ev)
  where
    of_gpu : (o : Option (ℕ × ℕ)) → misplaced_at c' o ≡ misplaced_at c o
    of_gpu none = refl
    of_gpu (some (m, j)) = ground (arith, s.at m j)

pub pending-misplaced-Sets :
    {c c' : ClusterTopology} {n i until : ℕ} {g : GpuResource} (sim : Simulator ServingEvent)
    → gpu_at c n i ≡ done g
    → Sets c n i g until c'
    → pending (misplaced c') sim ≡ pending (misplaced c) sim
pending-misplaced-Sets sim h s = sum-ext _ _ _ (λ ev. misplaced-Sets ev.kind h s)

pub Sound-total :
    {hand : Option ℕ} {total total' : ℕ → ℕ} {now_ns : ℕ} {e : Engine}
    → ((k : ℕ) → total k ≡ total' k)
    → Sound hand total now_ns e
    → Sound hand total' now_ns e
Sound-total same s = record {
  distinct = s.distinct;
  prefills = s.prefills;
  decodes = s.decodes;
  keyed = s.keyed;
  listed = s.listed;
  whole = λ k. s.whole k ∙ same k;
  placed = s.placed;
  covered = s.covered;
}
