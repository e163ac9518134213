-- ===== src/Cluster/Earliest.antt =====
-- The search for the GPU that is free first, in src/cluster/node.rs and topology.rs.
use kvflow_sim.Base.{
  ℕ, ◌≤◌, ◌≡◌, refl, sym, ap, subst, true, false, List, [], ◌∷◌, ◌⊎◌, Option, none, some, arith,
  inl, inr, In, get_elem?, Bool-cases, keep, map, max, ltb, ltb→lt,
}
use kvflow_sim.Base.Select.{
  enumerate_from, min_by_key, In-keep, keep-In, keep-nil, enumerate-get, get-enumerate,
  min_by_key-In, min_by_key-le, min_by_key-none,
}
use kvflow_sim.Cluster.Gpu.{GpuResource, WorkerRole}
use kvflow_sim.Cluster.Node
use kvflow_sim.Cluster.Node.{ServingNode, serves}
use kvflow_sim.Cluster.Topology.{ClusterTopology, earliest_gpu_for, scan, improve, beats}

In-map :
    {A B : Type 0} (f : A → B) (y : B) (l : List A) → In y (map f l) → (x : A) × In x l × (y ≡ f x)
In-map f y [] m = absurd m
In-map f y (x ∷ l) (inl e) = (x, inl refl, e)
In-map f y (x ∷ l) (inr m) = let (z, i, e) = In-map f y l m in (z, inr i, e)

map-In : {A B : Type 0} (f : A → B) (x : A) (l : List A) → In x l → In (f x) (map f l)
map-In f x [] m = absurd m
map-In f x (y ∷ l) (inl e) = inl (ap f e)
map-In f x (y ∷ l) (inr m) = inr (map-In f x l m)

module _ (now_ns : ℕ) (role : WorkerRole) where
  -- The GPU of the node at that index serves the role, from that time on.
  abbrev pub StartsAt : ServingNode → ℕ → ℕ → Type 0
  StartsAt n i start =
      (g : GpuResource) × (get_elem? n.gpus i ≡ some g)
      × (serves role g ≡ true)
      × (start ≡ max g.busy_until_ns now_ns)

  -- No GPU of the node serves the role before that time.
  abbrev pub NoneBefore : ServingNode → ℕ → Type 0
  NoneBefore n start =
      (j : ℕ) (h : GpuResource)
      → get_elem? n.gpus j ≡ some h
      → serves role h ≡ true
      → start ≤ max h.busy_until_ns now_ns

  abbrev pub NoneServes : ServingNode → Type 0
  NoneServes n = (j : ℕ) (h : GpuResource) → get_elem? n.gpus j ≡ some h → serves role h ≡ false

  -- What the search of a node promises.
  abbrev pub IsEarliestOf : ServingNode → Option (ℕ × ℕ) → Type 0
  IsEarliestOf n none = NoneServes n
  IsEarliestOf n (some (i, start)) = StartsAt n i start × NoneBefore n start

  -- The GPU found, if there is one, is of one of the nodes.
  abbrev pub IsThere : List ServingNode → Option (ℕ × ℕ × ℕ) → Type 0
  IsThere l none = Unit
  IsThere l (some (id, i, start)) =
      (n : ServingNode) × In n l × (id ≡ n.node_id) × StartsAt n i start

  -- The node has no GPU that serves the role before the one found.
  abbrev pub IsBehind : Option (ℕ × ℕ × ℕ) → ServingNode → Type 0
  IsBehind none n = NoneServes n
  IsBehind (some (_, _, start)) n = NoneBefore n start

  abbrev serving : ServingNode → List (ℕ × GpuResource)
  serving n = keep (λ e. serves role e.1) (enumerate_from 0 n.gpus)

  abbrev start_of : ℕ × GpuResource → ℕ × ℕ
  start_of e = (e.0, max (e.1).busy_until_ns now_ns)

  serving-In :
      (n : ServingNode) (j : ℕ) (h : GpuResource)
      → get_elem? n.gpus j ≡ some h
      → In (j, h) (enumerate_from 0 n.gpus)
  serving-In n j h e =
      subst (λ k. In (k, h) (enumerate_from 0 n.gpus)) (omega arith) (get-enumerate 0 j h n.gpus e)

  least :
      (n : ServingNode) (r : Option (ℕ × ℕ))
      → min_by_key (λ e. e.1) (map start_of (serving n)) ≡ r
      → IsEarliestOf n r
  least n none e = λ j h f.
      keep-nil (λ e. serves role e.1) (j, h) (enumerate_from 0 n.gpus)
        (nothing (serving n) (min_by_key-none _ _ e)) (serving-In n j h f)
    where
      nothing : (l : List (ℕ × GpuResource)) → map start_of l ≡ [] → l ≡ []
      nothing [] h = refl
      nothing (x ∷ l) h = cc
  least n (some (i, start)) e =
      let (x, m, own) = In-map start_of (i, start) (serving n) (min_by_key-In _ _ e) in
      let (m, a) = In-keep (λ e. serves role e.1) x (enumerate_from 0 n.gpus) m in
      let (k, at, got) = enumerate-get 0 x.0 x.1 n.gpus m in
      (
        (
          x.1,
          subst (λ j. get_elem? n.gpus j ≡ some x.1) (omega (arith, ap (λ (z : ℕ × ℕ). z.0) own))
              got,
          a,
          ap (λ (z : ℕ × ℕ). z.1) own,
        ),
        λ j h f b.
            min_by_key-le (λ e. e.1) _ (start_of (j, h)) e
              (map-In start_of (j, h) _ (keep-In _ (j, h) _ (serving-In n j h f) b)),
      )

  pub node-IsEarliestOf : (n : ServingNode) → IsEarliestOf n (Node.earliest_gpu_for n now_ns role)
  unfolding Node.earliest_gpu_for
  node-IsEarliestOf n = least n _ refl

  vacuous : (n : ServingNode) (t : ℕ) → NoneServes n → NoneBefore n t
  vacuous n t h = λ j g f s. absurd (let e = h j g f in cc)

  improve-IsThere :
      (l : List ServingNode) (n : ServingNode) (r : Option (ℕ × ℕ)) (best : Option (ℕ × ℕ × ℕ))
      → In n l
      → IsEarliestOf n r
      → IsThere l best
      → IsThere l (improve n r best)
  improve-IsThere l n none best m e h = h
  improve-IsThere l n (some (i, start)) best m (at, _) h = elim (Bool-cases (beats start best)) [
    | inl b ↦ rw b (n, m, refl, at)
    | inr b ↦ rw b h
  ]

  -- A node that is behind what was found stays behind it.
  improve-IsBehind :
      (n k : ServingNode) (r : Option (ℕ × ℕ)) (best : Option (ℕ × ℕ × ℕ))
      → IsBehind best k
      → IsBehind (improve n r best) k
  improve-IsBehind n k none best h = h
  improve-IsBehind n k (some (i, start)) none h = vacuous k start h
  improve-IsBehind n k (some (i, start)) (some (a, b, c)) h = elim (Bool-cases (ltb start c)) [
    | inl b ↦ rw b (λ j g f s. omega (arith, ltb→lt start c b, h j g f s))
    | inr b ↦ rw b h
  ]

  -- The node just searched is behind what is found then.
  improve-here :
      (n : ServingNode) (r : Option (ℕ × ℕ)) (best : Option (ℕ × ℕ × ℕ))
      → IsEarliestOf n r
      → IsBehind (improve n r best) n
  improve-here n none none e = e
  improve-here n none (some (_, _, c)) e = vacuous n c e
  improve-here n (some (i, start)) none (_, low) = low
  improve-here n (some (i, start)) (some (a, b, c)) (_, low) = elim (Bool-cases (ltb start c)) [
    | inl k ↦ rw k low
    | inr k ↦ rw k (λ j g f s. ground (arith, k, low j g f s))
  ]

  scan-IsThere :
      (nodes l : List ServingNode) (best : Option (ℕ × ℕ × ℕ))
      → ((n : ServingNode) → In n l → In n nodes)
      → IsThere nodes best
      → IsThere nodes (scan now_ns role best l)
  unfolding scan
  scan-IsThere nodes [] best sub h = h
  scan-IsThere nodes (n ∷ l) best sub h =
      scan-IsThere nodes l _ (λ k m. sub k (inr m))
        (improve-IsThere nodes n (Node.earliest_gpu_for n now_ns role) best (sub n (inl refl))
          (node-IsEarliestOf n) h)

  scan-IsBehind :
      (l : List ServingNode) (best : Option (ℕ × ℕ × ℕ)) (k : ServingNode)
      → IsBehind best k ⊎ In k l
      → IsBehind (scan now_ns role best l) k
  unfolding scan
  scan-IsBehind [] best k (inl h) = h
  scan-IsBehind [] best k (inr m) = absurd m
  scan-IsBehind (n ∷ l) best k (inl h) =
      scan-IsBehind l _ k (inl (improve-IsBehind n k (Node.earliest_gpu_for n now_ns role) best h))
  scan-IsBehind (n ∷ l) best k (inr (inl own)) = scan-IsBehind l _ k (
      inl (
        subst (IsBehind _) (sym own)
          (improve-here n (Node.earliest_gpu_for n now_ns role) best (node-IsEarliestOf n))))
  scan-IsBehind (n ∷ l) best k (inr (inr m)) = scan-IsBehind l _ k (inr m)

-- The GPU found, or that none was found, is right for these nodes.
abbrev pub IsEarliest : List ServingNode → ℕ → WorkerRole → Option (ℕ × ℕ × ℕ) → Type 0
IsEarliest nodes now_ns role r =
    IsThere now_ns role nodes r × ((n : ServingNode) → In n nodes → IsBehind now_ns role r n)

-- On every cluster `earliest_gpu_for` answers with the id of a node, the index of one of its GPUs
-- that serves the role and the time from which that GPU is free for it, no earlier than now, and no
-- GPU of the cluster that serves the role is free before that time; it answers nothing only if no
-- GPU serves the role.
pub earliest_gpu_for-IsEarliest :
    (c : ClusterTopology) (now_ns : ℕ) (role : WorkerRole)
    → IsEarliest c.nodes now_ns role (earliest_gpu_for c now_ns role)
unfolding earliest_gpu_for
earliest_gpu_for-IsEarliest c now_ns role = (
  scan-IsThere now_ns role c.nodes c.nodes none (λ n m. m) tt,
  λ n m. scan-IsBehind now_ns role c.nodes none n (inr m),
)
