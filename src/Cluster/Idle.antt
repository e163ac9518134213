-- ===== src/Cluster/Idle.antt =====
-- What `find_idle_gpu_for` of src/cluster/topology.rs promises, and that its `unwrap` and its
-- index never fail on a cluster whose node ids are distinct.
use kvflow_sim.Base.{
  ℕ, ◌≤◌, ◌≡◌, ◌≢◌, refl, sym, ap, subst, ◌∙◌, true, false, List, [], ◌∷◌, Option, none, some,
  arith, inl, inr, nat_eq, In, get_elem?, Option-cases,
}
use kvflow_sim.Base.Select.{min_by_key, min_by_key-In, min_by_key-le, min_by_key-none}
use kvflow_sim.Panic.{Outcome, done, panic}
use kvflow_sim.Cluster.Gpu.{GpuResource, WorkerRole}
use kvflow_sim.Cluster.Node
use kvflow_sim.Cluster.Node.{ServingNode, available, first}
use kvflow_sim.Cluster.Topology.{
  ClusterTopology, find_node, offers, gpu_at, with_keys, find_idle_gpu_for,
}
use kvflow_sim.Cluster.Offers.{node_some, node_none, offers-In, In-offers}

pub done-injective {ℓ} : {A : Type ℓ} {x y : A} → done x ≡ done y → x ≡ y
done-injective {x} e = ap (λ (o : Outcome _). elim o [ done a ↦ a | panic ↦ x ]) e

-- The nodes of a cluster have different ids.
abbrev pub DistinctIds : List ServingNode → Type 0
DistinctIds [] = Unit
DistinctIds (n ∷ l) = ((m : ServingNode) → In m l → n.node_id ≢ m.node_id) × DistinctIds l

pub find_node-In :
    (l : List ServingNode) (n : ServingNode)
    → DistinctIds l
    → In n l
    → find_node n.node_id l ≡ some n
find_node-In [] n d m = absurd m
find_node-In (k ∷ l) n d (inl e) = ground (arith, ap (λ (x : ServingNode). x.node_id) e)
find_node-In (k ∷ l) n d (inr m) = ground (arith, d.0 n m, find_node-In l n d.1 m)

module _ (c : ClusterTopology) where
  -- Every candidate has a GPU behind it.
  abbrev AllReal : List (ℕ × ℕ) → Type 0
  AllReal l = (o : ℕ × ℕ) → In o l → (g : GpuResource) × (gpu_at c o.0 o.1 ≡ done g)

  abbrev Keyed : List (ℕ × ℕ) → List (ℕ × (ℕ × ℕ)) → Type 0
  Keyed l ks =
      ((e : ℕ × (ℕ × ℕ))
        → In e ks
        → In e.1 l
          × ((g : GpuResource) → gpu_at c (e.1).0 (e.1).1 ≡ done g → e.0 ≡ g.busy_until_ns))
      × ((o : ℕ × ℕ) → In o l → (k : ℕ) × In (k, o) ks)

  Keyed-cons :
      (o : ℕ × ℕ) (g : GpuResource) (l : List (ℕ × ℕ)) (ks : List (ℕ × (ℕ × ℕ)))
      → gpu_at c o.0 o.1 ≡ done g
      → Keyed l ks
      → Keyed (o ∷ l) ((g.busy_until_ns, o) ∷ ks)
  Keyed-cons o g l ks at ih = (into, from)
    where
      into :
          (e : ℕ × (ℕ × ℕ))
          → In e ((g.busy_until_ns, o) ∷ ks)
          → In e.1 (o ∷ l)
            × ((h : GpuResource) → gpu_at c (e.1).0 (e.1).1 ≡ done h → e.0 ≡ h.busy_until_ns)
      into e (inl eq) = (
        inl (ap (λ (x : ℕ × (ℕ × ℕ)). x.1) eq),
        λ h at'. cc (
          ap (λ (x : ℕ × (ℕ × ℕ)). x.0) eq,
          ap (λ (x : GpuResource). x.busy_until_ns)
              (done-injective
                (sym at ∙ sym (ap (λ (x : ℕ × (ℕ × ℕ)). gpu_at c (x.1).0 (x.1).1) eq) ∙ at')),
        ),
      )
      into e (inr m) = let (a, b) = ih.0 e m in (inr a, b)

      from : (p : ℕ × ℕ) → In p (o ∷ l) → (k : ℕ) × In (k, p) ((g.busy_until_ns, o) ∷ ks)
      from p (inl eq) = (g.busy_until_ns, inl (ap (λ (x : ℕ × ℕ). (g.busy_until_ns, x)) eq))
      from p (inr m) = let (k, n) = ih.1 p m in (k, inr n)

  with_keys_total :
      (l : List (ℕ × ℕ))
      → AllReal l
      → (ks : List (ℕ × (ℕ × ℕ))) × (with_keys c l ≡ done ks) × Keyed l ks
  unfolding with_keys
  with_keys_total [] real = ([], refl, ((λ e m. absurd m), λ o m. absurd m))
  with_keys_total (o ∷ l) real =
      let (g, at) = real o (inl refl) in
      let (ks, e, keyed) = with_keys_total l (λ o' m. real o' (inr m)) in
      ((g.busy_until_ns, o) ∷ ks, rw at (rw e), Keyed-cons o g l ks at keyed)

  module _ (now_ns : ℕ) (role : WorkerRole) where
    -- What a search for an idle GPU may answer: nothing, if no GPU of the cluster is free to take
    -- the role; else a GPU that is, and has been free for longest.
    abbrev pub Finds : Option (ℕ × ℕ) → Type 0
    Finds none =
        (n : ServingNode) (j : ℕ) (h : GpuResource)
        → In n c.nodes
        → get_elem? n.gpus j ≡ some h
        → available now_ns role h ≡ false
    Finds (some (node_id, gpu_idx)) =
        (g : GpuResource) × (gpu_at c node_id gpu_idx ≡ done g)
        × (available now_ns role g ≡ true)
        × ((n : ServingNode) (j : ℕ) (h : GpuResource)
            → In n c.nodes
            → get_elem? n.gpus j ≡ some h
            → available now_ns role h ≡ true
            → g.busy_until_ns ≤ h.busy_until_ns)

    offers_real : DistinctIds c.nodes → AllReal (offers now_ns role c.nodes)
    offers_real d o m =
        let (n, inn, own, best) = offers-In now_ns role c.nodes o m in
        let (g, at, a, least) = best in (g, rw (own, find_node-In c.nodes n d inn) (rw at))

    real_gpu :
        (n : ServingNode) (i : ℕ) (g : GpuResource)
        → DistinctIds c.nodes
        → In n c.nodes
        → get_elem? n.gpus i ≡ some g
        → gpu_at c n.node_id i ≡ done g
    real_gpu n i g d inn at = rw (find_node-In c.nodes n d inn) (rw at)

    -- The key of the best offer is at most the time of any free GPU.
    least_key :
        (ks : List (ℕ × (ℕ × ℕ))) (e : ℕ × (ℕ × ℕ))
        → DistinctIds c.nodes
        → Keyed (offers now_ns role c.nodes) ks
        → min_by_key (λ x. x.0) ks ≡ some e
        → (n : ServingNode) (j : ℕ) (h : GpuResource) → In n c.nodes
        → get_elem? n.gpus j ≡ some h
        → available now_ns role h ≡ true
        → e.0 ≤ h.busy_until_ns
    least_key ks e d keyed best n j h inn got free =
        elim (Option-cases (Node.find_idle_gpu_for n now_ns role)) [
          | inl nothing ↦ cc (node_none now_ns role n j h nothing got)
          | inr (i, yes_i) ↦
              let (g, at, a, least) = node_some now_ns role n i yes_i in
              let (k, ink) = keyed.1 (n.node_id, i) (In-offers now_ns role c.nodes n i inn yes_i) in
              omega (
                arith,
                least j h got free,
                (keyed.0 (k, (n.node_id, i)) ink).1 g (real_gpu n i g d inn at),
                min_by_key-le (λ (x : ℕ × (ℕ × ℕ)). x.0) ks (k, (n.node_id, i)) best ink,
              )
        ]

    some-Finds :
        (ks : List (ℕ × (ℕ × ℕ))) (e : ℕ × (ℕ × ℕ))
        → DistinctIds c.nodes
        → Keyed (offers now_ns role c.nodes) ks
        → min_by_key (λ x. x.0) ks ≡ some e
        → Finds (some e.1)
    some-Finds ks e d keyed best =
        let (ino, key) = keyed.0 e (min_by_key-In _ ks best) in
        let (n, inn, own, (g, at, a, least)) = offers-In now_ns role c.nodes e.1 ino in
        let at' : gpu_at c (e.1).0 (e.1).1 ≡ done g = rw own (real_gpu n (e.1).1 g d inn at) in
        (
          g,
          at',
          a,
          λ m j h inm got free.
              omega (arith, key g at', least_key ks e d keyed best m j h inm got free),
        )

    none-Finds :
        (ks : List (ℕ × (ℕ × ℕ))) → Keyed (offers now_ns role c.nodes) ks → ks ≡ [] → Finds none
    none-Finds ks keyed empty n j h inn got =
        elim (Option-cases (Node.find_idle_gpu_for n now_ns role)) [
          | inl nothing ↦ node_none now_ns role n j h nothing got
          | inr (i, yes_i) ↦
              let (k, ink) = keyed.1 (n.node_id, i) (In-offers now_ns role c.nodes n i inn yes_i) in
              absurd (subst (In (k, (n.node_id, i))) empty ink)
        ]

    -- On a cluster of distinct node ids the search for an idle GPU never panics; it answers nothing
    -- exactly if no GPU that serves the role is idle, and else a GPU that is there, is idle, serves
    -- the role, and became idle no later than any other such GPU.
    pub find_idle_gpu_for-Finds :
        DistinctIds c.nodes
        → (r : Option (ℕ × ℕ)) × (find_idle_gpu_for c now_ns role ≡ done r) × Finds r
    unfolding find_idle_gpu_for
    find_idle_gpu_for-Finds d =
        let (ks, total, keyed) = with_keys_total (offers now_ns role c.nodes) (offers_real d) in
        elim (Option-cases (min_by_key (λ (x : ℕ × (ℕ × ℕ)). x.0) ks)) [
          | inl m ↦ (none, rw total (rw m), none-Finds ks keyed (min_by_key-none _ ks m))
          | inr (e, m) ↦ (some e.1, rw total (rw m), some-Finds ks e d keyed m)
        ]
