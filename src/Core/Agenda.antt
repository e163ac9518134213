-- ===== src/Core/Agenda.antt =====
-- What the event queue promises: an agenda in order of time, first in first out at equal times.
-- `schedule` and `pop` refine it.
use kvflow_sim.Base.{
  ℕ, ◌≤◌, ◌<◌, ◌+◌, ◌≡◌, refl, ap, sym, subst, true, false, List, [], ◌∷◌, Option, none, some, map,
  arith, ◌∙◌, leb, ltb, Bool, ◌||◌, ◌&&◌, ◌==◌, nat_eq, if◌then◌else◌, u64_max, Bool-cases, inl,
  inr,
}
use kvflow_sim.Core.Event.{Event, EventQueue, is_less, split_max, schedule, pop}

module _ {ℓ} {T : Type ℓ} where
  -- Due before the other, or scheduled before it for the same time.
  abbrev is_earlier : Event T → Event T → Bool
  is_earlier e f = ltb e.time_ns f.time_ns || (e.time_ns == f.time_ns && ltb e.seq f.seq)

  -- The heap holds an event that is less to come out later.
  is_less-earlier : (e f : Event T) → is_less e f ≡ is_earlier f e
  unfolding is_less
  is_less-earlier e f = ground arith

  -- Into a list in order of time and then of scheduling.
  place : Event T → List (Event T) → List (Event T)
  place e [] = e ∷ []
  place e (f ∷ l) = if is_earlier f e then f ∷ place e l else e ∷ f ∷ l

  in_order : List (Event T) → List (Event T)
  unfolding place
  in_order [] = []
  in_order (e ∷ l) = place e (in_order l)

  abbrev Leads : Event T → List (Event T) → Type 0
  Leads e [] = Unit
  Leads e (f ∷ l) = is_earlier f e ≡ false

  abbrev IsOrdered : List (Event T) → Type 0
  IsOrdered [] = Unit
  IsOrdered (e ∷ l) = Leads e l × IsOrdered l

  is_earlier-asymm : (e f : Event T) → is_earlier f e ≡ true → is_earlier e f ≡ false
  is_earlier-asymm e f h = ground arith

  Leads-place :
      (m e : Event T) (l : List (Event T))
      → is_earlier e m ≡ false
      → Leads m l
      → Leads m (place e l)
  unfolding place
  Leads-place m e [] h k = h
  Leads-place m e (f ∷ l) h k = ground arith

  place-IsOrdered : (e : Event T) (l : List (Event T)) → IsOrdered l → IsOrdered (place e l)
  unfolding place
  place-IsOrdered e [] o = (tt, tt)
  place-IsOrdered e (f ∷ l) o = elim (Bool-cases (is_earlier f e)) [
    | inl h ↦ rw h (Leads-place f e l (is_earlier-asymm e f h) o.0, place-IsOrdered e l o.1)
    | inr h ↦ rw h (h, o)
  ]

  in_order-IsOrdered : (l : List (Event T)) → IsOrdered (in_order l)
  unfolding in_order
  in_order-IsOrdered [] = tt
  in_order-IsOrdered (e ∷ l) = place-IsOrdered e (in_order l) (in_order-IsOrdered l)

  place-Leads : (e : Event T) (l : List (Event T)) → Leads e l → place e l ≡ e ∷ l
  unfolding place
  place-Leads e [] h = refl
  place-Leads e (f ∷ l) h = rw h

  split_max-in_order :
      (e : Event T) (l : List (Event T))
      → in_order (e ∷ l) ≡ (split_max e l).0 ∷ in_order (split_max e l).1
  unfolding split_max in_order
  split_max-in_order e [] = refl
  split_max-in_order e (f ∷ l) =
      let ih = split_max-in_order f l in
      let leads = (subst IsOrdered ih (in_order-IsOrdered (f ∷ l))).0 in
      rw ih (elim (Bool-cases (is_less e (split_max f l).0)) [
        | inl h ↦ rw (h, sym (is_less-earlier e _) ∙ h)
        | inr h ↦ rw (h, sym (is_less-earlier e _) ∙ h) (ap (◌∷◌ e) (sym (place-Leads _ _ leads)))
      ])

  -- The agenda: when each event is due, and what it is.
  abbrev due : Event T → ℕ × T
  due e = (e.time_ns, e.kind)

  pub agenda : EventQueue T → List (ℕ × T)
  unfolding in_order
  agenda q = map due (in_order q.queue)

  -- A new entry goes behind everything that is due no later.
  pub enqueue : ℕ → T → List (ℕ × T) → List (ℕ × T)
  enqueue t k [] = (t, k) ∷ []
  enqueue t k ((u, j) ∷ l) = if leb u t then (u, j) ∷ enqueue t k l else (t, k) ∷ (u, j) ∷ l

  abbrev SeqBelow : ℕ → List (Event T) → Type 0
  SeqBelow n [] = Unit
  SeqBelow n (e ∷ l) = (e.seq < n) × SeqBelow n l

  -- Every queued event has a sequence number below the counter, which has not run out.
  pub record IsFresh (q : EventQueue T) : Type 0 where
    pub below : SeqBelow q.next_seq q.queue
    pub room : q.next_seq < u64_max

  SeqBelow-place :
      (n : ℕ) (e : Event T) (l : List (Event T)) → e.seq < n → SeqBelow n l → SeqBelow n (place e l)
  unfolding place
  SeqBelow-place n e [] h b = (h, tt)
  SeqBelow-place n e (f ∷ l) h b = elim (Bool-cases (is_earlier f e)) [
    | inl c ↦ rw c (b.0, SeqBelow-place n e l h b.1)
    | inr c ↦ rw c (h, b)
  ]

  SeqBelow-in_order : (n : ℕ) (l : List (Event T)) → SeqBelow n l → SeqBelow n (in_order l)
  unfolding in_order
  SeqBelow-in_order n [] b = tt
  SeqBelow-in_order n (e ∷ l) b = SeqBelow-place n e (in_order l) b.0 (SeqBelow-in_order n l b.1)

  is_earlier_newer : (e f : Event T) → f.seq < e.seq → is_earlier f e ≡ leb f.time_ns e.time_ns
  is_earlier_newer e f h = ground arith

  place-enqueue :
      (e : Event T) (l : List (Event T))
      → SeqBelow e.seq l
      → map due (place e l) ≡ enqueue e.time_ns e.kind (map due l)
  unfolding place enqueue
  place-enqueue e [] b = refl
  place-enqueue e (f ∷ l) b =
      rw (is_earlier_newer e f b.0) (elim (Bool-cases (leb f.time_ns e.time_ns)) [
        | inl h ↦ rw h (ap (◌∷◌ (due f)) (place-enqueue e l b.1))
        | inr h ↦ rw h
      ])

  -- Where the sequence counter is above all that are queued and not at its end, `schedule` enters
  -- the event into the agenda behind everything due no later: events of one time stay in the order
  -- in which they were scheduled.
  pub agenda-schedule :
      (q : EventQueue T) (t : ℕ) (k : T)
      → IsFresh q
      → agenda (schedule q t k) ≡ enqueue t k (agenda q)
  unfolding agenda schedule
  agenda-schedule q t k h = place-enqueue _ (in_order q.queue) (SeqBelow-in_order _ q.queue h.below)

  -- What `pop` does to the agenda: it fails exactly when the agenda is empty, and else takes off
  -- its first entry.
  abbrev pub Pops : List (ℕ × T) → Option (Event T × EventQueue T) → Type ℓ
  Pops l none = l ≡ []
  Pops l (some (e, q)) = l ≡ (e.time_ns, e.kind) ∷ agenda q

  Pops-heap :
      (n : ℕ) (l : List (Event T))
      → Pops (map due (in_order l)) (pop (record { queue = l; next_seq = n }))
  unfolding pop agenda
  Pops-heap n [] = refl
  Pops-heap n (e ∷ l) = ap (map due) (split_max-in_order e l)

  -- On every event queue `pop` returns the first entry of the agenda, the pending events in order
  -- of time and then of scheduling, and leaves the rest of it, and it returns nothing exactly when
  -- the agenda is empty.
  pub agenda-pop : (q : EventQueue T) → Pops (agenda q) (pop q)
  unfolding agenda
  agenda-pop q = Pops-heap q.next_seq q.queue

  SeqBelow-mono : (m n : ℕ) (l : List (Event T)) → m ≤ n → SeqBelow m l → SeqBelow n l
  SeqBelow-mono m n [] h b = tt
  SeqBelow-mono m n (e ∷ l) h b = (omega arith, SeqBelow-mono m n l h b.1)

  -- Scheduling keeps the counter fresh until it saturates.
  pub schedule-IsFresh :
      (q : EventQueue T) (t : ℕ) (k : T)
      → IsFresh q
      → q.next_seq + 1 < u64_max
      → IsFresh (schedule q t k)
  unfolding schedule
  schedule-IsFresh q t k h room = record {
    below = (omega arith, SeqBelow-mono _ _ q.queue (omega arith) h.below);
    room = omega arith;
  }

  abbrev pub IsTimed : List (ℕ × T) → Type 0
  IsTimed [] = Unit
  IsTimed (d ∷ []) = Unit
  IsTimed (d ∷ e ∷ l) = (d.0 ≤ e.0) × IsTimed (e ∷ l)

  is_earlier_time : (e f : Event T) → is_earlier f e ≡ false → e.time_ns ≤ f.time_ns
  is_earlier_time e f h = ground arith

  IsOrdered-IsTimed : (l : List (Event T)) → IsOrdered l → IsTimed (map due l)
  IsOrdered-IsTimed [] o = tt
  IsOrdered-IsTimed (e ∷ []) o = tt
  IsOrdered-IsTimed (e ∷ f ∷ l) o = (is_earlier_time e f o.0, IsOrdered-IsTimed (f ∷ l) o.1)

  -- The agenda of every queue is in order of time.
  pub agenda-IsTimed : (q : EventQueue T) → IsTimed (agenda q)
  unfolding agenda
  agenda-IsTimed q = IsOrdered-IsTimed (in_order q.queue) (in_order-IsOrdered q.queue)
