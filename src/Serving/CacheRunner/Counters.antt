-- ===== src/Serving/CacheRunner/Counters.antt =====
-- Each change to the counters of `CacheHitStats` in src/serving/cache_runner.rs.
use kvflow_sim.Base.{ℕ, nat_eq, ◌+◌, ◌≤◌, ◌≡◌, true, some, arith, u64_max, wrap_add_exact}
use kvflow_sim.Core.Simulator
use kvflow_sim.Core.Simulator.{Simulator}
use kvflow_sim.Cache.Tier.{TierKind}
use kvflow_sim.Serving.Event.{fetch_done}
use kvflow_sim.Serving.Engine.{Engine}
use kvflow_sim.Serving.Engine.Pending.{pending, pending-schedule}
use kvflow_sim.Serving.Engine.Weight.{is_arrival, is_fetch}
use kvflow_sim.Serving.CacheRunner.{
  CacheHitStats, missed, fetch_failed, fetch_started, hit_gpu, credited,
}
use kvflow_sim.Serving.CacheRunner.Parts.{no_longer_pending}
use kvflow_sim.Serving.CacheRunner.Tally.{Tally, fetchable}

-- The counters, where no more requests are counted than the word holds.
module _ {requests owed : ℕ} {h : CacheHitStats} {e : Engine} (fits : requests ≤ u64_max) where
  pub missed-Tally : Tally requests (1 + owed) h e → Tally requests owed (missed h) e
  missed-Tally y = record {
    all = omega (arith, y.all, wrap_add_exact h.misses 1);
    fetches = y.fetches;
  }

  pub hit_gpu-Tally : Tally requests (1 + owed) h e → Tally requests owed (hit_gpu h) e
  hit_gpu-Tally y = record {
    all = omega (arith, y.all, wrap_add_exact h.hits_gpu 1);
    fetches = y.fetches;
  }

-- A fetch that did not start leaves no trace but in the errors.
pub fetch_started-Tally :
    {requests : ℕ} {h : CacheHitStats} {e : Engine} (tier : TierKind)
    → requests ≤ u64_max
    → Tally requests 1 h e
    → Tally requests 1 (no_longer_pending (some tier) (fetch_failed (fetch_started h))) e
fetch_started-Tally {h = h} tier fits y = record {
  all = omega (arith, y.all, wrap_add_exact h.pending_fetches 1);
  fetches = omega (arith, y.all, y.fetches, wrap_add_exact h.pending_fetches 1);
}

-- The fetch is to come.
pub fetching-Tally :
    {requests : ℕ} {h : CacheHitStats} {e : Engine} (id t : ℕ)
    → requests ≤ u64_max
    → Tally requests 1 h e
    → Tally requests 0
        (fetch_started h)
        (record e { sim = Simulator.schedule e.sim t (fetch_done id) })
fetching-Tally {h = h} {e} id t fits y = record {
  all = omega (
    arith,
    y.all,
    wrap_add_exact h.pending_fetches 1,
    pending-schedule is_arrival e.sim t (fetch_done id),
  );
  fetches = omega (
    arith,
    y.all,
    y.fetches,
    wrap_add_exact h.pending_fetches 1,
    pending-schedule is_fetch e.sim t (fetch_done id),
  );
}

-- The fetch has come.
pub credited-Tally :
    {requests : ℕ} {h : CacheHitStats} {e e1 : Engine} (tier : TierKind)
    → requests ≤ u64_max
    → fetchable tier ≡ true
    → Tally requests 0 h e
    → pending is_arrival e.sim ≡ pending is_arrival e1.sim
    → pending is_fetch e.sim ≡ 1 + pending is_fetch e1.sim
    → Tally requests 0 (credited (some tier) h) e1
credited-Tally {h = h} TierKind.gpu fits able y arrivals fetches = cc
credited-Tally {h = h} TierKind.local_ssd fits able y arrivals fetches = cc
credited-Tally {h = h} TierKind.cpu fits able y arrivals fetches = record {
  all = omega (arith, y.all, y.fetches, wrap_add_exact h.hits_cpu 1);
  fetches = omega (arith, y.fetches);
}
credited-Tally {h = h} TierKind.remote_memory fits able y arrivals fetches = record {
  all = omega (arith, y.all, y.fetches, wrap_add_exact h.hits_remote 1);
  fetches = omega (arith, y.fetches);
}
credited-Tally {h = h} TierKind.remote_ssd fits able y arrivals fetches = record {
  all = omega (arith, y.all, y.fetches, wrap_add_exact h.hits_remote 1);
  fetches = omega (arith, y.fetches);
}
