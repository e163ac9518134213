-- ===== src/Cluster/Busy.antt =====
-- What the runners' writes to `busy_until_ns` do to the cluster of src/cluster/topology.rs.
use kvflow_sim.Base.{
  ℕ, zero, suc, ◌<◌, ◌≡◌, refl, sym, ap, subst, ◌∙◌, ◌&&◌, Bool, true, List, [], ◌∷◌, Option, none,
  some, arith, inl, inr, ◌==◌, nat_eq, In, get_elem?, set, Bool-cases, if◌then◌else◌,
}
use kvflow_sim.Panic.{done, unwrap}
use kvflow_sim.Cluster.Gpu.{GpuResource, WorkerRole}
use kvflow_sim.Cluster.Node.{ServingNode, serves}
use kvflow_sim.Cluster.Topology.{
  ClusterTopology, find_node, gpu_at, with_busy, set_busy_in, set_busy,
}
use kvflow_sim.Cluster.Idle.{done-injective, DistinctIds, Finds}

-- The GPU with another time until which it is busy.
abbrev pub busied : GpuResource → ℕ → GpuResource
busied g until = record g { busy_until_ns = until }

abbrev pub same_gpu : ℕ → ℕ → ℕ → ℕ → Bool
same_gpu n i m j = n == m && i == j

-- The cluster is as it was but for the one GPU.
pub record Sets (c : ClusterTopology) (n i : ℕ) (g : GpuResource) (until : ℕ) (c' : ClusterTopology)
    : Type 0 where
  pub at :
      (m j : ℕ) → gpu_at c' m j ≡ (if same_gpu n i m j then done (busied g until) else gpu_at c m j)
  pub distinct : DistinctIds c'.nodes

get-set :
    {A : Type 0} (l : List A) (i j : ℕ) (v w : A)
    → get_elem? l i ≡ some w
    → get_elem? (set l i v) j ≡ (if i == j then some v else get_elem? l j)
get-set [] i j v w h = cc
get-set (x ∷ l) zero zero v w h = refl
get-set (x ∷ l) zero (suc j) v w h = ground arith
get-set (x ∷ l) (suc i) zero v w h = ground arith
get-set (x ∷ l) (suc i) (suc j) v w h = ground (arith, get-set l i j v w h)

unwrap-done : {A : Type 0} (o : Option A) (a : A) → unwrap o ≡ done a → o ≡ some a
unwrap-done o a h = ground arith

-- The GPU that `gpu_at` finds belongs to a node of the cluster with that id.
pub gpu_at-In :
    (l : List ServingNode) (n i : ℕ) (g : GpuResource)
    → gpu_at (record { nodes = l }) n i ≡ done g
    → (k : ServingNode) × (find_node n l ≡ some k) × In k l × (get_elem? k.gpus i ≡ some g)
gpu_at-In [] n i g h = cc
gpu_at-In (k ∷ l) n i g h = elim (Bool-cases (k.node_id == n)) [
  | inl own ↦ (k, rw own refl, inl refl, unwrap-done _ _ (rw own at h))
  | inr other ↦
      let (m, e, inm, got) = gpu_at-In l n i g (rw other at h) in (m, rw other e, inr inm, got)
]

-- The ids of the nodes stay as they are.
SameIds : List ServingNode → List ServingNode → Type 0
SameIds l l' = (m : ServingNode) → In m l' → (k : ServingNode) × In k l × (k.node_id ≡ m.node_id)

SetsIn : List ServingNode → ℕ → ℕ → GpuResource → ℕ → List ServingNode → Type 0
SetsIn l n i g until l' =
    ((m j : ℕ)
      → gpu_at (record { nodes = l' }) m j
        ≡ (if same_gpu n i m j then done (busied g until) else gpu_at (record { nodes = l }) m j))
    × DistinctIds l'
    × SameIds l l'

set_busy_in-Sets :
    (l : List ServingNode) (n i : ℕ) (g : GpuResource) (until : ℕ)
    → DistinctIds l
    → gpu_at (record { nodes = l }) n i ≡ done g
    → (l' : List ServingNode) × (set_busy_in l n i until ≡ done l') × SetsIn l n i g until l'
unfolding set_busy_in SetsIn SameIds
set_busy_in-Sets [] n i g until d h = cc
set_busy_in-Sets (k ∷ l) n i g until d h = elim (Bool-cases (k.node_id == n)) [
  | inl own ↦
      let got : get_elem? k.gpus i ≡ some g = unwrap-done _ _ (rw own at h) in
      (
        with_busy k i g until ∷ l,
        rw (own, set_busy_in) (rw (got, set_busy_in) refl),
        (
          (λ m j. ground (arith, get-set k.gpus i j (busied g until) g got)),
          ((λ m inm. d.0 m inm), d.1),
          λ m inm. elim inm [
            | inl q ↦ (k, inl refl, sym (ap (λ (x : ServingNode). x.node_id) q))
            | inr j ↦ (m, inr j, refl)
          ],
        ),
      )
  | inr other ↦
      let (l', e, (at, d', ids)) = set_busy_in-Sets l n i g until d.1 (rw other at h) in
      (
        k ∷ l',
        rw (other, set_busy_in) (rw (e, set_busy_in) refl),
        (
          (λ m j. ground (arith, at m j)),
          ((λ m inm. let (p, inp, q) = ids m inm in λ s. d.0 p inp (s ∙ sym q)), d'),
          λ m inm. elim inm [
            | inl q ↦ (k, inl refl, sym (ap (λ (x : ServingNode). x.node_id) q))
            | inr j ↦ let (p, inp, q) = ids m j in (p, inr inp, q)
          ],
        ),
      )
]

pub set_busy-Sets :
    (c : ClusterTopology) (n i : ℕ) (g : GpuResource) (until : ℕ)
    → DistinctIds c.nodes
    → gpu_at c n i ≡ done g
    → (c' : ClusterTopology) × (set_busy c n i until ≡ done c') × Sets c n i g until c'
unfolding set_busy SetsIn
set_busy-Sets c n i g until d h =
    let (l', e, (at, d', _)) = set_busy_in-Sets c.nodes n i g until d h in
    (record { nodes = l' }, rw (e, set_busy) refl, record { at = at; distinct = d' })

-- Some GPU of the cluster takes work of the role.
abbrev pub Capable : WorkerRole → ClusterTopology → Type 0
Capable role c =
    (n : ℕ) × (i : ℕ) × (g : GpuResource) × (gpu_at c n i ≡ done g) × (serves role g ≡ true)

pub Sets-Capable :
    {c c' : ClusterTopology} {n i until : ℕ} {g : GpuResource} (role : WorkerRole)
    → gpu_at c n i ≡ done g
    → Sets c n i g until c'
    → Capable role c
    → Capable role c'
Sets-Capable {c} {n} {i} {until} {g} role h s (m, j, k, at, able) =
    elim (Bool-cases (same_gpu n i m j)) [
      | inl same ↦ (
        m,
        j,
        busied g until,
        s.at m j ∙ rw same refl,
        subst (λ (x : GpuResource). serves role x ≡ true)
            (sym (done-injective (sym h ∙ there m j same ∙ at))) able,
      )
      | inr other ↦ (m, j, k, s.at m j ∙ rw other at, able)
    ]
  where
    there : (m j : ℕ) → same_gpu n i m j ≡ true → gpu_at c n i ≡ gpu_at c m j
    there m j q = ap (λ (x : ℕ × ℕ). gpu_at c x.0 x.1) (ground (arith, q))

-- A GPU that is not idle.
abbrev pub BusyAt : ClusterTopology → ℕ → Type 0
BusyAt c now_ns =
    (n : ℕ) × (i : ℕ) × (g : GpuResource) × (gpu_at c n i ≡ done g) × (now_ns < g.busy_until_ns)

-- Where the search finds nothing, every capable GPU is busy.
pub Finds-BusyAt :
    (c : ClusterTopology) (now_ns : ℕ) (role : WorkerRole)
    → Capable role c
    → Finds c now_ns role none
    → BusyAt c now_ns
Finds-BusyAt c now_ns role (n, i, g, at, able) nothing =
    let (k, _, inn, got) = gpu_at-In c.nodes n i g at in
    (n, i, g, at, ground (arith, nothing k i g inn got))
