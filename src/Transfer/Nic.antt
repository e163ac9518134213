-- ===== src/Transfer/Nic.antt =====
-- The shared NIC of src/transfer/queued.rs over a whole sequence of transfers.
use kvflow_sim.Base.{ℕ, ◌≡◌, List, [], ◌∷◌, arith, max, sat_add, if◌then◌else◌}
use kvflow_sim.Error.{Result, ok, err}
use kvflow_sim.Transfer.Path.{TransferPath, TransferEstimate}
use kvflow_sim.Transfer.Queued.{QueuedTransferModel, estimate, is_remote}

pub record Request : Type 0 where
  pub now_ns : ℕ
  pub path : TransferPath
  pub bytes : ℕ

-- The estimates that a sequence of requests gets, with when each was asked; refusals give none.
abbrev answer :
    Result TransferEstimate → ℕ → List (ℕ × TransferEstimate) → List (ℕ × TransferEstimate)
answer (ok e) now_ns rest = (now_ns, e) ∷ rest
answer (err x) now_ns rest = rest

unfoldable pub serve : QueuedTransferModel → List Request → List (ℕ × TransferEstimate)
serve m [] = []
serve m (r ∷ rs) =
    let (m', e) = estimate m r.now_ns r.path r.bytes in answer e r.now_ns (serve m' rs)

-- A remote transfer starts when it is asked or when the NIC falls free, whichever is later, and
-- holds the NIC for its serialisation time. A local transfer starts when it is asked.
abbrev pub Serial : ℕ → List (ℕ × TransferEstimate) → Type 0
Serial busy [] = Unit
Serial busy ((now_ns, e) ∷ l) =
    (e.start_ns ≡ (if is_remote e.path then max now_ns busy else now_ns))
    × Serial (if is_remote e.path then sat_add e.start_ns e.serialization_ns else busy) l

serve_one :
    (m : QueuedTransferModel) (r : Request) (l : List (ℕ × TransferEstimate))
    → Serial ((estimate m r.now_ns r.path r.bytes).0).nic_busy_until_ns l
    → Serial m.nic_busy_until_ns (answer (estimate m r.now_ns r.path r.bytes).1 r.now_ns l)
unfolding estimate
serve_one m r l h = ground arith

-- Over any sequence of requests the remote transfers of the queued model take the NIC one after the
-- other, in the order asked and without idling it while one waits, and local transfers neither wait
-- nor make others wait.
pub serve-Serial :
    (m : QueuedTransferModel) (rs : List Request) → Serial m.nic_busy_until_ns (serve m rs)
unfolding serve
serve-Serial m [] = tt
serve-Serial m (r ∷ rs) =
    serve_one m r (serve (estimate m r.now_ns r.path r.bytes).0 rs)
      (serve-Serial (estimate m r.now_ns r.path r.bytes).0 rs)
