-- ===== src/Transfer/Durations.antt =====
-- The stateless `estimate_duration` of src/transfer against the duration of `estimate`.
use kvflow_sim.Base.{ℕ, ◌-◌, ◌≤◌, ◌≡◌, refl, arith, if◌then◌else◌, min, u64_max}
use kvflow_sim.Base.Map
use kvflow_sim.Error.{Result, ok, err}
use kvflow_sim.Transfer.Path.{TransferPath, TransferEstimate, duration_ns}
use kvflow_sim.Transfer.Analytical
use kvflow_sim.Transfer.Analytical.{AnalyticalTransferModel}
use kvflow_sim.Transfer.Queued
use kvflow_sim.Transfer.Queued.{QueuedTransferModel}
use kvflow_sim.Transfer.Table
use kvflow_sim.Transfer.Table.{TableCalibratedTransferModel, entry_key}
use kvflow_sim.Transfer.Model.{TransferModel, analytical, queued, table}

-- An estimate and a stateless duration agree: both fail alike, or the estimate lasts that long,
-- cut off where its end would pass the last representable time.
abbrev pub Agrees : Result TransferEstimate → Result ℕ → Type 0
Agrees (ok e) (ok d) = duration_ns e ≡ min d (u64_max - e.start_ns)
Agrees (err x) (err y) = x ≡ y
Agrees _ _ = ⊥

-- At a 64-bit time, `estimate` and `estimate_duration` of the analytical model fail alike, or the
-- estimate lasts the stateless duration, cut off where its end would pass the last 64-bit time.
pub analytical-Agrees :
    (m : AnalyticalTransferModel) (now_ns : ℕ) (path : TransferPath) (bytes : ℕ)
    → now_ns ≤ u64_max
    → Agrees (Analytical.estimate m now_ns path bytes) (Analytical.estimate_duration m path bytes)
unfolding Analytical.estimate Analytical.estimate_duration
analytical-Agrees m now_ns path bytes h = ground arith

-- At a 64-bit time and NIC time, `estimate` and `estimate_duration` of the queued model fail alike,
-- or the estimate lasts the stateless duration, cut off where its end would pass the last 64-bit
-- time: waiting for the NIC does not lengthen a transfer.
pub queued-Agrees :
    (m : QueuedTransferModel) (now_ns : ℕ) (path : TransferPath) (bytes : ℕ)
    → now_ns ≤ u64_max
    → m.nic_busy_until_ns ≤ u64_max
    → Agrees (Queued.estimate m now_ns path bytes).1 (Queued.estimate_duration m path bytes)
unfolding Queued.estimate Queued.estimate_duration
queued-Agrees m now_ns path bytes h k = ground arith

-- At a 64-bit time, `estimate` and `estimate_duration` of the table model fail alike, or the
-- estimate lasts the stateless duration, cut off where its end would pass the last 64-bit time,
-- whether or not the table has the entry.
pub table-Agrees :
    (m : TableCalibratedTransferModel) (now_ns : ℕ) (path : TransferPath) (bytes : ℕ)
    → now_ns ≤ u64_max
    → Agrees (Table.estimate m now_ns path bytes) (Table.estimate_duration m path bytes)
unfolding Table.estimate Table.estimate_duration
table-Agrees m now_ns path bytes h = ground (arith, analytical-Agrees m.fallback now_ns path bytes)

-- No transfer changes what the queued model's stateless estimate says of any other.
pub queued_undisturbed :
    (m : QueuedTransferModel) (now_ns : ℕ) (p q : TransferPath) (bytes size : ℕ)
    → Queued.estimate_duration (Queued.estimate m now_ns p bytes).0 q size
      ≡ Queued.estimate_duration m q size
unfolding Queued.estimate Queued.estimate_duration
queued_undisturbed m now_ns p q bytes size = ground arith

-- What a runner relies on in a transfer model whose state is in range: the two estimates agree, a
-- transfer starts no earlier than asked and is for the path and the bytes asked, and no transfer
-- changes what a stateless estimate says.
pub record IsLawful {M : Type 0} (t : TransferModel M) (InRange : M → Type 0) : Type 0 where
  pub agrees :
      (m : M) (now_ns : ℕ) (path : TransferPath) (bytes : ℕ)
      → InRange m
      → now_ns ≤ u64_max
      → Agrees (t.estimate m now_ns path bytes).1 (t.estimate_duration m path bytes)
  pub stays :
      (m : M) (now_ns : ℕ) (path : TransferPath) (bytes : ℕ)
      → InRange m
      → InRange (t.estimate m now_ns path bytes).0
  pub answers :
      (m : M) (now_ns : ℕ) (path : TransferPath) (bytes : ℕ) (e : TransferEstimate)
      → (t.estimate m now_ns path bytes).1 ≡ ok e
      → (e.path ≡ path) × (e.bytes ≡ bytes) × (now_ns ≤ e.start_ns)
  pub undisturbed :
      (m : M) (now_ns : ℕ) (p q : TransferPath) (bytes size : ℕ)
      → t.estimate_duration (t.estimate m now_ns p bytes).0 q size ≡ t.estimate_duration m q size

-- The analytical model is lawful in every state.
pub analytical-IsLawful : IsLawful analytical (λ m. Unit)
unfolding Analytical.estimate
analytical-IsLawful = record {
  agrees = λ m now_ns path bytes r h. analytical-Agrees m now_ns path bytes h;
  stays = λ m now_ns path bytes r. r;
  answers = λ m now_ns path bytes e h. ground arith;
  undisturbed = λ m now_ns p q bytes size. refl;
}

-- The queued model is lawful while its NIC time is a 64-bit number.
pub queued-IsLawful : IsLawful queued (λ m. m.nic_busy_until_ns ≤ u64_max)
unfolding Queued.estimate
queued-IsLawful = record {
  agrees = λ m now_ns path bytes r h. queued-Agrees m now_ns path bytes h r;
  stays = λ m now_ns path bytes r. ground arith;
  answers = λ m now_ns path bytes e h. ground arith;
  undisturbed = queued_undisturbed;
}

table-answers :
    (m : TableCalibratedTransferModel) (now_ns : ℕ) (path : TransferPath) (bytes : ℕ)
    (e : TransferEstimate)
    → Table.estimate m now_ns path bytes ≡ ok e
    → (e.path ≡ path) × (e.bytes ≡ bytes) × (now_ns ≤ e.start_ns)
unfolding Table.estimate
table-answers m now_ns path bytes e h =
    ground (arith, analytical-IsLawful.answers m.fallback now_ns path bytes e)

-- The table model is lawful in every state, whether or not the table has the entry.
pub table-IsLawful : IsLawful table (λ m. Unit)
table-IsLawful = record {
  agrees = λ m now_ns path bytes r h. table-Agrees m now_ns path bytes h;
  stays = λ m now_ns path bytes r. r;
  answers = table-answers;
  undisturbed = λ m now_ns p q bytes size. refl;
}

-- A table entry decides the stateless duration of its own path and size, and of no other.
pub estimate_duration-add_entry :
    (m : TableCalibratedTransferModel) (p q : TransferPath) (b c latency_ns : ℕ)
    → Table.estimate_duration (Table.add_entry m p b latency_ns) q c
      ≡ (if entry_key.beq (p, b) (q, c) then ok latency_ns else Table.estimate_duration m q c)
unfolding Table.estimate_duration Table.add_entry
estimate_duration-add_entry m p q b c latency_ns =
    ground (arith, Map.get-insert ⦃e = entry_key⦄ (q, c) (p, b) latency_ns m.table)
