-- ===== src/Serving/Engine/Weight.antt =====
-- How far the work of src/serving still is from its end, and what one step of it leaves.
use kvflow_sim.Base.{
  ℕ, ◌+◌, ◌*◌, ◌≤◌, ◌≡◌, ◌∙◌, ◌⊎◌, inl, inr, List, [], ◌∷◌, Option, none, some, arith, sum_by, ◌==◌,
  nat_eq, length,
}
use kvflow_sim.Base.Map
use kvflow_sim.Panic.{Outcome, done}
use kvflow_sim.Core.Event.{Event}
use kvflow_sim.Cache.Tier.{TierKind}
use kvflow_sim.Cluster.Busy.{BusyAt}
use kvflow_sim.Serving.Event.{ServingEvent, request_arrival, prefill_done, fetch_done, decode_done}
use kvflow_sim.Serving.Inflight.{tier_of}
use kvflow_sim.Serving.Engine.{Engine}
use kvflow_sim.Serving.Engine.Pending.{pending}
use kvflow_sim.Serving.Engine.Sound.{Sound, gpu_of, is, frees, frees_some}

-- At most so many events and places in queues are still to come for a request at this event.
abbrev pub weigh : ServingEvent → ℕ
weigh (request_arrival _) = 6
weigh (fetch_done _) = 5
weigh (prefill_done _ _ _) = 3
weigh (decode_done _ _ _) = 1

abbrev pub weight : Engine → ℕ
weight e = pending weigh e.sim + 4 * length e.prefill_queue + 2 * length e.decode_queue

-- A count that passes over the events of GPUs.
abbrev pub NoGpu : (ServingEvent → ℕ) → Type 0
NoGpu f = (ev : ServingEvent) (gpu : ℕ × ℕ) → gpu_of ev ≡ some gpu → f ev ≡ 0

abbrev pub is_arrival : ServingEvent → ℕ
is_arrival (request_arrival _) = 1
is_arrival _ = 0

abbrev pub is_fetch : ServingEvent → ℕ
is_fetch (fetch_done _) = 1
is_fetch _ = 0

abbrev pub fetch_of : ℕ → ServingEvent → ℕ
fetch_of k (fetch_done id) = is (id == k)
fetch_of k _ = 0

pub is_arrival-NoGpu : NoGpu is_arrival
is_arrival-NoGpu ev gpu h = ground arith

pub is_fetch-NoGpu : NoGpu is_fetch
is_fetch-NoGpu ev gpu h = ground arith

pub fetch_of-NoGpu : (k : ℕ) → NoGpu (fetch_of k)
fetch_of-NoGpu k ev gpu h = ground arith

-- The tier that a request is fetched from.
abbrev pub flag : ℕ → Engine → Option TierKind
flag k e = tier_of (Map.get k e.in_flight)

-- The pending events that free a GPU.
abbrev pub freeing : Engine → ℕ
freeing e = pending frees_some e.sim

pub record After (total : ℕ → ℕ) (now_ns : ℕ) (e : Engine) (slack : ℕ) (e' : Engine) : Type 0 where
  pub sound : Sound none total now_ns e'
  pub same_now : (e'.sim).now_ns ≡ (e.sim).now_ns
  pub more : freeing e ≤ freeing e'
  pub lighter : weight e' ≤ weight e + slack
  pub others : (f : ServingEvent → ℕ) → NoGpu f → pending f e'.sim ≡ pending f e.sim
  pub flags : (k : ℕ) → flag k e' ≡ flag k e

abbrev pub Runs {ℓ} : {A : Type ℓ} → (A → Type 0) → Outcome A → Type ℓ
Runs {A} P o = (e : A) × (o ≡ done e) × P e

frees-le :
    (n i : ℕ) (l : List (Event ServingEvent))
    → sum_by (λ (ev : Event ServingEvent). frees n i ev.kind) l
      ≤ sum_by (λ (ev : Event ServingEvent). frees_some ev.kind) l
frees-le n i [] = omega arith
frees-le n i (ev ∷ l) = ground (arith, frees-le n i l)

-- Where every capable GPU is busy, an event is to come that frees one.
pub busy_freeing :
    {hand : Option ℕ} {total : ℕ → ℕ} {now_ns : ℕ} (e : Engine)
    → Sound hand total now_ns e
    → BusyAt e.cluster now_ns
    → 1 ≤ freeing e
busy_freeing e s (n, i, g, at, late) = elim (s.covered n i g at) [
  | inl idle ↦ absurd (omega arith)
  | inr to_come ↦ omega (arith, frees-le n i ((e.sim).queue).queue)
]

-- Work began on the request in hand: some GPU will be freed, and no queue changed.
pub record Begun (total : ℕ → ℕ) (now_ns : ℕ) (e : Engine) (slack : ℕ) (e' : Engine) : Type 0 where
  pub after : After total now_ns e slack e'
  pub frees_one : 1 ≤ freeing e'
  pub prefills : e'.prefill_queue ≡ e.prefill_queue
  pub decodes : e'.decode_queue ≡ e.decode_queue

-- A queue is dealt with as far as can be, and the other is as it was.
pub record Settled (total : ℕ → ℕ) (now_ns : ℕ) (own other : Engine → List ℕ) (e e' : Engine)
    : Type 0 where
  pub after : After total now_ns e 0 e'
  pub settled : (length (own e') ≡ 0) ⊎ (1 ≤ freeing e')
  pub kept : other e' ≡ other e

module _ {total : ℕ → ℕ} {now_ns : ℕ} where
  pub slacken :
      {e e' : Engine} {a b : ℕ} → After total now_ns e a e' → a ≤ b → After total now_ns e b e'
  slacken h le = record {
    sound = h.sound;
    same_now = h.same_now;
    more = h.more;
    lighter = omega (arith, h.lighter);
    others = h.others;
    flags = h.flags;
  }

  pub follows :
      {e e' e'' : Engine} {a : ℕ}
      → After total now_ns e a e'
      → After total now_ns e' 0 e''
      → After total now_ns e a e''
  follows h k = record {
    sound = k.sound;
    same_now = k.same_now ∙ h.same_now;
    more = omega (arith, h.more, k.more);
    lighter = omega (arith, h.lighter, k.lighter);
    others = λ f no. k.others f no ∙ h.others f no;
    flags = λ id. k.flags id ∙ h.flags id;
  }

-- No request waits in a queue where nothing is to come that frees a GPU.
abbrev pub Waits : Engine → Type 0
Waits e =
    ((length e.prefill_queue ≡ 0) ⊎ (1 ≤ freeing e))
    × ((length e.decode_queue ≡ 0) ⊎ (1 ≤ freeing e))
