-- ===== src/Serving/Engine/Queues.antt =====
-- The loops over the two queues of src/serving.
use kvflow_sim.Base.{
  ℕ, ◌≤◌, ◌≡◌, refl, ap, subst, ◌∙◌, ◌⊎◌, inl, inr, List, [], ◌∷◌, none, arith, nat_eq, length,
  Option-cases,
}
use kvflow_sim.Panic.{◌>>=◌}
use kvflow_sim.Cluster.Gpu.{WorkerRole}
use kvflow_sim.Cluster.Idle.{Finds, find_idle_gpu_for-Finds}
use kvflow_sim.Cluster.Busy.{Finds-BusyAt}
use kvflow_sim.Serving.Engine.{
  Engine, assign_prefill, assign_decode, try_assign_prefill, try_assign_decode,
}
use kvflow_sim.Serving.Engine.Sound.{Sound}
use kvflow_sim.Serving.Engine.Moves.{pop_prefill-Sound, pop_decode-Sound}
use kvflow_sim.Serving.Engine.Weight.{freeing, After, Settled, Runs, busy_freeing, follows, Waits}
use kvflow_sim.Serving.Engine.Starts.{prefill_if_there-Begun, decode_if_there-Begun}

module _ {total : ℕ → ℕ} {now_ns : ℕ} where
  unmoved :
      {own other : Engine → List ℕ} {e : Engine}
      → Sound none total now_ns e
      → (length (own e) ≡ 0) ⊎ (1 ≤ freeing e)
      → Settled total now_ns own other e e
  unmoved s w = record {
    after = record {
      sound = s;
      same_now = refl;
      more = omega arith;
      lighter = omega arith;
      others = λ _ _. refl;
      flags = λ _. refl;
    };
    settled = w;
    kept = refl;
  }

  -- The loop over the queue ends with the queue empty or some GPU to be freed.
  assign_prefill-Settled :
      (queue : List ℕ) (e : Engine)
      → e.prefill_queue ≡ queue
      → Sound none total now_ns e
      → Runs
          (Settled total now_ns (λ e'. e'.prefill_queue) (λ e'. e'.decode_queue) e)
          (assign_prefill queue e now_ns)
  unfolding assign_prefill
  assign_prefill-Settled [] e q s = (e, refl, unmoved s (inl (omega (arith, ap length q))))
  assign_prefill-Settled (id ∷ queue) e q s =
      let (r, searched, finds) =
        find_idle_gpu_for-Finds e.cluster now_ns WorkerRole.prefill s.distinct in
      elim (Option-cases r) [
        | inl nothing ↦
            let all_busy =
              Finds-BusyAt e.cluster now_ns WorkerRole.prefill s.prefills
                (subst (Finds e.cluster now_ns WorkerRole.prefill) nothing finds) in
            (e, rw searched (rw nothing refl), unmoved s (inr (busy_freeing e s all_busy)))
        | inr ((n, i), found) ↦
            let (g, at, _, _) = subst (Finds e.cluster now_ns WorkerRole.prefill) found finds in
            let popped = record e { prefill_queue = queue } in
            let (e', began, b) =
              prefill_if_there-Begun popped id n i g at (pop_prefill-Sound e id queue q s) in
            let (e'', assigned, h) = assign_prefill-Settled queue e' b.prefills b.after.sound in
            (
              e'',
              rw searched (rw found (rw began assigned)),
              record {
                after = record {
                  sound = h.after.sound;
                  same_now = h.after.same_now ∙ b.after.same_now;
                  more = omega (arith, h.after.more, b.after.more);
                  lighter = omega (arith, h.after.lighter, b.after.lighter, ap length q);
                  others = λ f no. h.after.others f no ∙ b.after.others f no;
                  flags = λ k. h.after.flags k ∙ b.after.flags k;
                };
                settled = h.settled;
                kept = h.kept ∙ b.decodes;
              },
            )
      ]

  -- The loop over the queue ends with the queue empty or some GPU to be freed.
  assign_decode-Settled :
      (queue : List ℕ) (e : Engine)
      → e.decode_queue ≡ queue
      → Sound none total now_ns e
      → Runs
          (Settled total now_ns (λ e'. e'.decode_queue) (λ e'. e'.prefill_queue) e)
          (assign_decode queue e now_ns)
  unfolding assign_decode
  assign_decode-Settled [] e q s = (e, refl, unmoved s (inl (omega (arith, ap length q))))
  assign_decode-Settled (id ∷ queue) e q s =
      let (r, searched, finds) =
        find_idle_gpu_for-Finds e.cluster now_ns WorkerRole.decode s.distinct in
      elim (Option-cases r) [
        | inl nothing ↦
            let all_busy =
              Finds-BusyAt e.cluster now_ns WorkerRole.decode s.decodes
                (subst (Finds e.cluster now_ns WorkerRole.decode) nothing finds) in
            (e, rw searched (rw nothing refl), unmoved s (inr (busy_freeing e s all_busy)))
        | inr ((n, i), found) ↦
            let (g, at, _, _) = subst (Finds e.cluster now_ns WorkerRole.decode) found finds in
            let popped = record e { decode_queue = queue } in
            let (e', began, b) =
              decode_if_there-Begun popped id n i g at (pop_decode-Sound e id queue q s) in
            let (e'', assigned, h) = assign_decode-Settled queue e' b.decodes b.after.sound in
            (
              e'',
              rw searched (rw found (rw began assigned)),
              record {
                after = record {
                  sound = h.after.sound;
                  same_now = h.after.same_now ∙ b.after.same_now;
                  more = omega (arith, h.after.more, b.after.more);
                  lighter = omega (arith, h.after.lighter, b.after.lighter, ap length q);
                  others = λ f no. h.after.others f no ∙ b.after.others f no;
                  flags = λ k. h.after.flags k ∙ b.after.flags k;
                };
                settled = h.settled;
                kept = h.kept ∙ b.prefills;
              },
            )
      ]

  -- No request waits in a queue where nothing is to come that frees a GPU.
  pub decode_then_prefill-Waits :
      (e : Engine)
      → Sound none total now_ns e
      → Runs
          (λ e'. After total now_ns e 0 e' × Waits e')
          (try_assign_decode e now_ns >>= (λ a. try_assign_prefill a now_ns))
  unfolding try_assign_decode try_assign_prefill
  decode_then_prefill-Waits e s =
      let (a, first, d) = assign_decode-Settled e.decode_queue e refl s in
      let (b, second, p) = assign_prefill-Settled a.prefill_queue a refl d.after.sound in
      (
        b,
        rw first second,
        (
          follows d.after p.after,
          (
            p.settled,
            elim d.settled [
              | inl empty ↦ inl (omega (arith, ap length p.kept))
              | inr freed ↦ inr (omega (arith, p.after.more))
            ],
          ),
        ),
      )

  pub prefill_then_decode-Waits :
      (e : Engine)
      → Sound none total now_ns e
      → Runs
          (λ e'. After total now_ns e 0 e' × Waits e')
          (try_assign_prefill e now_ns >>= (λ a. try_assign_decode a now_ns))
  unfolding try_assign_decode try_assign_prefill
  prefill_then_decode-Waits e s =
      let (a, first, p) = assign_prefill-Settled e.prefill_queue e refl s in
      let (b, second, d) = assign_decode-Settled a.decode_queue a refl p.after.sound in
      (
        b,
        rw first second,
        (
          follows p.after d.after,
          (
            elim p.settled [
              | inl empty ↦ inl (omega (arith, ap length d.kept))
              | inr freed ↦ inr (omega (arith, d.after.more))
            ],
            d.settled,
          ),
        ),
      )
