-- ===== src/Cluster/Offers.antt =====
-- The candidates of the search for an idle GPU: what each node of src/cluster/node.rs offers.
use mathlib.Core.Option.{some-injective}
use kvflow_sim.Base.{
  ℕ, ◌≤◌, ◌≡◌, refl, sym, ap, subst, ◌∙◌, true, false, List, [], ◌∷◌, none, some, arith, inl, inr,
  nat_eq, In, get_elem?, Option-cases, keep, ◌⊎◌,
}
use kvflow_sim.Base.Select.{
  enumerate_from, min_by_key, In-keep, keep-In, keep-nil, enumerate-get, get-enumerate,
  min_by_key-In, min_by_key-le, min_by_key-none,
}
use kvflow_sim.Cluster.Gpu.{GpuResource, WorkerRole}
use kvflow_sim.Cluster.Node
use kvflow_sim.Cluster.Node.{ServingNode, available, first}
use kvflow_sim.Cluster.Topology.{offers}

module _ (now_ns : ℕ) (role : WorkerRole) where
  -- The GPU is at that index, is free to take the role, and no other of the node that is free to
  -- was busy for less long.
  abbrev pub IsBest : ServingNode → ℕ → Type 0
  IsBest n i =
      (g : GpuResource) × (get_elem? n.gpus i ≡ some g)
      × (available now_ns role g ≡ true)
      × ((j : ℕ) (h : GpuResource)
          → get_elem? n.gpus j ≡ some h
          → available now_ns role h ≡ true
          → g.busy_until_ns ≤ h.busy_until_ns)

  abbrev free_gpus : ServingNode → List (ℕ × GpuResource)
  free_gpus n = keep (λ e. available now_ns role e.1) (enumerate_from 0 n.gpus)

  free-In :
      (n : ServingNode) (j : ℕ) (h : GpuResource)
      → get_elem? n.gpus j ≡ some h
      → available now_ns role h ≡ true
      → In (j, h) (free_gpus n)
  free-In n j h e a =
      keep-In _ (j, h) _
        (subst (λ k. In (k, h) (enumerate_from 0 n.gpus)) (omega arith)
          (get-enumerate 0 j h n.gpus e))
        a

  chosen :
      (n : ServingNode) (e : ℕ × GpuResource)
      → min_by_key (λ e. (e.1).busy_until_ns) (free_gpus n) ≡ some e
      → IsBest n e.0
  chosen n e h =
      let (m, a) =
        In-keep (λ e. available now_ns role e.1) e (enumerate_from 0 n.gpus)
          (min_by_key-In _ (free_gpus n) h) in
      let (i, at, got) = enumerate-get 0 e.0 e.1 n.gpus m in
      (
        e.1,
        subst (λ k. get_elem? n.gpus k ≡ some e.1) (omega arith) got,
        a,
        λ j g f b. min_by_key-le _ (free_gpus n) (j, g) h (free-In n j g f b),
      )

  pub node_some :
      (n : ServingNode) (i : ℕ) → Node.find_idle_gpu_for n now_ns role ≡ some i → IsBest n i
  unfolding Node.find_idle_gpu_for
  node_some n i h = elim (Option-cases (min_by_key (λ e. (e.1).busy_until_ns) (free_gpus n))) [
    | inl e ↦ cc
    | inr (x, e) ↦ subst (IsBest n) (some-injective _ _ (sym (ap first e) ∙ h)) (chosen n x e)
  ]

  pub node_none :
      (n : ServingNode) (j : ℕ) (h : GpuResource)
      → Node.find_idle_gpu_for n now_ns role ≡ none
      → get_elem? n.gpus j ≡ some h
      → available now_ns role h ≡ false
  unfolding Node.find_idle_gpu_for
  node_none n j h e f = elim (Option-cases (min_by_key (λ e. (e.1).busy_until_ns) (free_gpus n))) [
    | inl none_free ↦
        keep-nil (λ e. available now_ns role e.1) (j, h) (enumerate_from 0 n.gpus)
          (min_by_key-none _ (free_gpus n) none_free)
          (subst (λ k. In (k, h) (enumerate_from 0 n.gpus)) (omega arith)
            (get-enumerate 0 j h n.gpus f))
    | inr (x, found) ↦ cc
  ]

  pub offers-In :
      (l : List ServingNode) (o : ℕ × ℕ)
      → In o (offers now_ns role l)
      → (n : ServingNode) × In n l × (o.0 ≡ n.node_id) × IsBest n o.1
  unfolding offers
  offers-In [] o m = absurd m
  offers-In (n ∷ l) o m = elim (Option-cases (Node.find_idle_gpu_for n now_ns role)) [
    | inl e ↦ let (k, ink, own, best) = offers-In l o (rw e at m) in (k, inr ink, own, best)
    | inr (i, e) ↦ here (node_some n i e) (offers-In l o) (rw e at m)
  ]
    where
      here :
          {i : ℕ}
          → IsBest n i
          → (In o (offers now_ns role l)
              → (k : ServingNode) × In k l × (o.0 ≡ k.node_id) × IsBest k o.1)
          → (o ≡ (n.node_id, i)) ⊎ In o (offers now_ns role l)
          → (k : ServingNode) × In k (n ∷ l) × (o.0 ≡ k.node_id) × IsBest k o.1
      here best ih (inl e) = (
        n,
        inl refl,
        ap (λ (x : ℕ × ℕ). x.0) e,
        subst (IsBest n) (ap (λ (x : ℕ × ℕ). x.1) (sym e)) best,
      )
      here best ih (inr r) = let (k, ink, own, b) = ih r in (k, inr ink, own, b)

  pub In-offers :
      (l : List ServingNode) (n : ServingNode) (i : ℕ)
      → In n l
      → Node.find_idle_gpu_for n now_ns role ≡ some i
      → In (n.node_id, i) (offers now_ns role l)
  unfolding offers
  In-offers [] n i m e = absurd m
  In-offers (k ∷ l) n i (inl own) e =
      rw (subst (λ x. Node.find_idle_gpu_for x now_ns role ≡ some i) own e)
        (inl (ap (λ (x : ServingNode). (x.node_id, i)) own))
  In-offers (k ∷ l) n i (inr m) e = elim (Option-cases (Node.find_idle_gpu_for k now_ns role)) [
    | inl f ↦ rw f (In-offers l n i m e)
    | inr (j, f) ↦ rw f (inr (In-offers l n i m e))
  ]
