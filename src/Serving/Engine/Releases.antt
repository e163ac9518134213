-- ===== src/Serving/Engine/Releases.antt =====
-- The front event of src/serving taken in hand, and its GPU freed, against what the engine keeps true.
use kvflow_sim.Base.{
  ℕ, ◌≤◌, ◌≡◌, refl, sym, ap, ◌∙◌, ◌⊎◌, inl, inr, none, some, arith, nat_eq, Bool-cases,
}
use kvflow_sim.Panic.{Outcome, done, panic}
use kvflow_sim.Core.Simulator
use kvflow_sim.Core.Simulator.{Simulator}
use kvflow_sim.Cluster.Gpu.{GpuResource, WorkerRole}
use kvflow_sim.Cluster.Topology.{ClusterTopology, gpu_at}
use kvflow_sim.Cluster.Idle.{done-injective}
use kvflow_sim.Cluster.Busy.{Sets, Sets-Capable, same_gpu, busied}
use kvflow_sim.Serving.Event.{ServingEvent}
use kvflow_sim.Serving.Engine.{Engine}
use kvflow_sim.Serving.Engine.Pending.{pending, pending-step}
use kvflow_sim.Serving.Engine.Sound.{
  Sound, subject, gpu_of, is, about, frees, frees_at, misplaced, pending-misplaced-Sets,
}

module _ {total : ℕ → ℕ} {now_ns : ℕ} (e : Engine) where
  -- The next event is taken in hand. It frees no GPU.
  pub steps-Sound :
      (t : ℕ) (ev : ServingEvent) (sim : Simulator ServingEvent)
      → Simulator.step e.sim ≡ some ((t, ev), sim)
      → gpu_of ev ≡ none
      → now_ns ≤ t
      → Sound none total now_ns e
      → Sound (some (subject ev)) total t (record e { sim = sim })
  steps-Sound t ev sim h place later s = record {
    distinct = s.distinct;
    prefills = s.prefills;
    decodes = s.decodes;
    keyed = s.keyed;
    listed = λ k. omega (arith, s.listed k, (pending-step (about k) e.sim sim t ev h).0);
    whole = s.whole;
    placed = omega (arith, s.placed, (pending-step (misplaced e.cluster) e.sim sim t ev h).0);
    covered = λ m j k got. elim (s.covered m j k got) [
      | inl idle ↦ inl (omega arith)
      | inr busy ↦
          inr
            (omega (arith, (pending-step (frees m j) e.sim sim t ev h).0, ap (frees_at m j) place))
    ];
  }

  -- An event's GPU is there.
  pub event_gpu :
      (t n i : ℕ) (ev : ServingEvent) (sim : Simulator ServingEvent)
      → Simulator.step e.sim ≡ some ((t, ev), sim)
      → gpu_of ev ≡ some (n, i)
      → Sound none total now_ns e
      → (g : GpuResource) × (gpu_at e.cluster n i ≡ done g)
  event_gpu t n i ev sim h place s =
      there (gpu_at e.cluster n i) refl
        (omega (arith, s.placed, (pending-step (misplaced e.cluster) e.sim sim t ev h).0))
    where
      there :
          (o : Outcome GpuResource)
          → gpu_at e.cluster n i ≡ o
          → misplaced e.cluster ev ≡ 0
          → (g : GpuResource) × (gpu_at e.cluster n i ≡ done g)
      there (done g) at zero = (g, at)
      there panic at zero = absurd (omega (arith, rw (place, at) at zero))

  -- The next event is taken in hand, and its GPU is freed.
  pub releases-Sound :
      (t n i : ℕ) (ev : ServingEvent) (sim : Simulator ServingEvent) (g : GpuResource)
      (c' : ClusterTopology)
      → Simulator.step e.sim ≡ some ((t, ev), sim)
      → gpu_of ev ≡ some (n, i)
      → now_ns ≤ t
      → gpu_at e.cluster n i ≡ done g
      → Sets e.cluster n i g t c'
      → Sound none total now_ns e
      → Sound (some (subject ev)) total t (record e { sim = sim; cluster = c' })
  releases-Sound t n i ev sim g c' h place later at sets s = record {
    distinct = sets.distinct;
    prefills = Sets-Capable WorkerRole.prefill at sets s.prefills;
    decodes = Sets-Capable WorkerRole.decode at sets s.decodes;
    keyed = s.keyed;
    listed = λ k. omega (arith, s.listed k, (pending-step (about k) e.sim sim t ev h).0);
    whole = s.whole;
    placed = omega (
      arith,
      s.placed,
      (pending-step (misplaced e.cluster) e.sim sim t ev h).0,
      pending-misplaced-Sets sim at sets,
    );
    covered = λ m j k got. freed m j k got;
  }
    where
      freed :
          (m j : ℕ) (k : GpuResource)
          → gpu_at c' m j ≡ done k
          → (k.busy_until_ns ≤ t) ⊎ (1 ≤ pending (frees m j) sim)
      freed m j k got = elim (Bool-cases (same_gpu n i m j)) [
        | inl here ↦ inl (free_now (done-injective (rw here at (sym (sets.at m j) ∙ got))))
        | inr other ↦ elim (s.covered m j k (rw other at (sym (sets.at m j) ∙ got))) [
          | inl idle ↦ inl (omega arith)
          | inr busy ↦ inr (
              omega (
                arith,
                (pending-step (frees m j) e.sim sim t ev h).0,
                ap (frees_at m j) place,
                ap is other,
              ))
        ]
      ]
        where
          free_now : busied g t ≡ k → k.busy_until_ns ≤ t
          free_now q = omega (arith, ap (λ (x : GpuResource). x.busy_until_ns) q)
