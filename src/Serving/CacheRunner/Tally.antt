-- ===== src/Serving/CacheRunner/Tally.antt =====
-- The counters of `CacheHitStats` in src/serving/cache_runner.rs against the events to come.
use kvflow_sim.Base.{
  ℕ, nat_eq, ◌+◌, ◌≤◌, ◌≡◌, sym, subst, ◌∙◌, ap, Bool, true, false, inl, inr, ◌==◌, List, [], ◌∷◌,
  Option, none, some, arith, sum_by, Bool-cases, length,
}
use kvflow_sim.Base.Map
use kvflow_sim.Base.Map.{get-insert}
use kvflow_sim.Core.Event.{Event}
use kvflow_sim.Cache.Tier.{TierKind}
use kvflow_sim.Serving.Event.{ServingEvent}
use kvflow_sim.Serving.Inflight.{InFlightRequest, tier_of}
use kvflow_sim.Serving.Engine.{Engine}
use kvflow_sim.Serving.Engine.Pending.{pending}
use kvflow_sim.Serving.Engine.Sound.{Sound, frees_some, one_for, subject, gpu_of, about}
use kvflow_sim.Serving.Engine.Moves.{rewrites-Sound}
use kvflow_sim.Serving.Engine.Weight.{
  flag, is_arrival, is_fetch, fetch_of, is_arrival-NoGpu, is_fetch-NoGpu, fetch_of-NoGpu, After,
  Waits,
}
use kvflow_sim.Serving.Engine.Take.{Ready, Taken}
use kvflow_sim.Serving.CacheRunner.{CacheHitStats}

-- The requests that a counter has.
abbrev pub counted : CacheHitStats → ℕ
counted h = h.hits_gpu + h.hits_cpu + h.hits_remote + h.misses + h.pending_fetches

-- Every request has yet to arrive or has a counter, but for those owed.
pub record Tally (requests owed : ℕ) (h : CacheHitStats) (e : Engine) : Type 0 where
  pub all : counted h + pending is_arrival e.sim + owed ≡ requests
  pub fetches : h.pending_fetches ≡ pending is_fetch e.sim

abbrev pub one : Option TierKind → ℕ
one none = 0
one (some _) = 1

-- What is fetched.
abbrev pub fetchable : TierKind → Bool
fetchable TierKind.gpu = false
fetchable TierKind.local_ssd = false
fetchable _ = true

-- What the loop of the cache-aware runner keeps true between two events.
pub record Keeps (total : ℕ → ℕ) (requests now_ns : ℕ) (e : Engine) (h : CacheHitStats)
    : Type 0 where
  pub ready : Ready total now_ns e
  pub flagged : (k : ℕ) → one (flag k e) ≡ pending (fetch_of k) e.sim
  pub from : (k : ℕ) (tier : TierKind) → flag k e ≡ some tier → fetchable tier ≡ true
  pub tally : Tally requests 0 h e

-- The same with the request in hand, whatever tier it is marked with.
pub record InHand (total : ℕ → ℕ) (t id : ℕ) (e : Engine) : Type 0 where
  pub sound : Sound (some id) total t e
  pub clock : (e.sim).now_ns ≡ t
  pub waits : Waits e
  pub quiet : pending (fetch_of id) e.sim ≡ 0
  pub flagged : (k : ℕ) → (id == k) ≡ false → one (flag k e) ≡ pending (fetch_of k) e.sim
  pub from :
      (k : ℕ) (tier : TierKind) → (id == k) ≡ false → flag k e ≡ some tier → fetchable tier ≡ true

fetch_of-le :
    (k : ℕ) (l : List (Event ServingEvent))
    → sum_by (λ (ev : Event ServingEvent). fetch_of k ev.kind) l
      ≤ sum_by (λ (ev : Event ServingEvent). about k ev.kind) l
fetch_of-le k [] = omega arith
fetch_of-le k (ev ∷ l) = ground (arith, fetch_of-le k l)

module _ {total : ℕ → ℕ} {t id : ℕ} where
  -- A request in hand has no other event.
  pub in_hand-quiet : (e : Engine) → Sound (some id) total t e → pending (fetch_of id) e.sim ≡ 0
  in_hand-quiet e s = ground (arith, s.listed id, fetch_of-le id ((e.sim).queue).queue)

  pub Taken-InHand :
      {requests now_ns : ℕ} {event : ServingEvent} {e e1 : Engine} {h : CacheHitStats}
      → gpu_of event ≡ none
      → subject event ≡ id
      → Keeps total requests now_ns e h
      → Taken total t event e e1
      → InHand total t id e1
  Taken-InHand {event = event} {e} {e1} {h} place about_id keeps taken = record {
    sound = in_hand;
    clock = taken.clock;
    waits = ground (
      arith,
      (keeps.ready).waits,
      taken.counts frees_some,
      ap one_for place,
      ap length taken.prefills,
      ap length taken.decodes,
    );
    quiet = in_hand-quiet e1 in_hand;
    flagged = λ k other. other_flag k other;
    from = λ k tier other h.
        keeps.from k tier (ap (λ m. tier_of (Map.get k m)) (sym taken.flight) ∙ h);
  }
    where
      in_hand : Sound (some id) total t e1
      in_hand = subst (λ k. Sound (some k) total t e1) about_id taken.in_hand

      not_for : (ev : ServingEvent) (k : ℕ) → (subject ev == k) ≡ false → fetch_of k ev ≡ 0
      not_for ev k h = ground arith

      other_flag : (k : ℕ) → (id == k) ≡ false → one (flag k e1) ≡ pending (fetch_of k) e1.sim
      other_flag k other = omega (
        arith,
        keeps.flagged k,
        taken.counts (fetch_of k),
        not_for event k (ap (λ j. j == k) about_id ∙ other),
        ap (λ m. one (tier_of (Map.get k m))) taken.flight,
      )

  -- A request in hand may be written to.
  pub write-InHand :
      (e : Engine) (f f' : InFlightRequest)
      → Map.get id e.in_flight ≡ some f
      → f'.request ≡ f.request
      → InHand total t id e
      → InHand total t id (record e { in_flight = Map.insert id f' e.in_flight })
  write-InHand e f f' there same h = record {
    sound = rewrites-Sound e id f f' there same h.sound;
    clock = h.clock;
    waits = h.waits;
    quiet = h.quiet;
    flagged = λ k other. ground (arith, h.flagged k other, get-insert k id f' e.in_flight);
    from = λ k tier other q. ground (arith, h.from k tier other, get-insert k id f' e.in_flight);
  }

  -- Work begins, or the request is queued.
  pub InHand-Keeps :
      {e e' : Engine} {h : CacheHitStats} {requests slack : ℕ}
      → InHand total t id e
      → flag id e ≡ none
      → Tally requests 0 h e
      → After total t e slack e'
      → Waits e'
      → Keeps total requests t e' h
  InHand-Keeps {e} {e'} {h} hand unmarked tally after waits = record {
    ready = record { sound = after.sound; clock = after.same_now ∙ hand.clock; waits = waits };
    flagged = λ k. elim (Bool-cases (id == k)) [
      | inl own ↦
          ground (arith, after.flags k, after.others (fetch_of k) (fetch_of-NoGpu k), hand.quiet)
      | inr other ↦ omega (
        arith,
        ap one (after.flags k),
        after.others (fetch_of k) (fetch_of-NoGpu k),
        hand.flagged k other,
      )
    ];
    from = λ k tier q. elim (Bool-cases (id == k)) [
      | inl own ↦ ground (arith, after.flags k)
      | inr other ↦ hand.from k tier other (sym (after.flags k) ∙ q)
    ];
    tally = record {
      all = omega (arith, tally.all, after.others is_arrival is_arrival-NoGpu);
      fetches = omega (arith, tally.fetches, after.others is_fetch is_fetch-NoGpu);
    };
  }

pub After-Keeps :
    {total : ℕ → ℕ} {t requests slack : ℕ} {e e' : Engine} {h : CacheHitStats}
    → Keeps total requests t e h
    → After total t e slack e'
    → Waits e'
    → Keeps total requests t e' h
After-Keeps {e} {e'} {h} keeps after waits = record {
  ready = record {
    sound = after.sound;
    clock = after.same_now ∙ (keeps.ready).clock;
    waits = waits;
  };
  flagged = λ k. omega (
    arith,
    ap one (after.flags k),
    after.others (fetch_of k) (fetch_of-NoGpu k),
    keeps.flagged k,
  );
  from = λ k tier q. keeps.from k tier (sym (after.flags k) ∙ q);
  tally = record {
    all = omega (arith, (keeps.tally).all, after.others is_arrival is_arrival-NoGpu);
    fetches = omega (arith, (keeps.tally).fetches, after.others is_fetch is_fetch-NoGpu);
  };
}
