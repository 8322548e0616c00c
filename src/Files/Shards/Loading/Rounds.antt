-- ===== src/Files/Shards/Loading/Rounds.antt =====
-- The rounds of the loop of generatePath.
use mathlib.Core.Path.{sym, subst}
use js_ipfs.Prelude.{
  ℕ, zero, suc, ◌≡◌, ◌≢◌, refl, ap, ◌∙◌, Option, none, some, List, [], ◌∷◌, JsString, string_eq,
  Result, ok, err, ok-injective, inl, inr, Result-cases, or_throw, ◌>>=◌,
}
use js_ipfs.Files.Tree.{Ipld, Node}
use js_ipfs.Files.Shards.{Hamt, Position}
use js_ipfs.Files.Shards.Loading.{
  Buckets, LoadError, no_node, link_at, below_link, next_segment, Rest, in_front, load_nodes,
}
use js_ipfs.Files.Shards.Loading.Steps.{
  Descends, IsStep, NoNodes, IsNext, IsChain, below_link-IsStep, next_segment-IsNext,
}

module _ (i : Ipld) (hamt : Hamt i) (buckets : Buckets i hamt) where
  descend-IsChain :
      (s : i.Store) (name : JsString) (node below : Node i.Cid i.Data) (p : Position i hamt)
      (path : List (Position i hamt))
      → p.node ≡ some node
      → Descends i hamt buckets s name p node below
      → IsChain i hamt buckets s name below path
      → IsChain i hamt buckets s name node (p ∷ path)
  descend-IsChain s name node below p [] there down chain = absurd chain
  descend-IsChain s name node below p (q ∷ path) there down chain = (there, (below, down, chain))

  -- What `load_nodes` gave, and the heap.
  abbrev pub Nodes : Type 0
  Nodes = List (Position i hamt) × hamt.Heap

  load_nodes-no_node :
      (fuel : ℕ) (root : hamt.Bucket) (name : JsString) (p : Position i hamt)
      (rest : List (Position i hamt)) (heap : hamt.Heap) (s : i.Store) (r : Nodes)
      → p.node ≡ none
      → load_nodes i hamt buckets fuel root name p rest heap s ≢ ok r
  unfolding load_nodes
  load_nodes-no_node zero root name p rest heap s r none_there e = cc
  load_nodes-no_node (suc fuel) root name p rest heap s r none_there e =
      let g : Path (Result LoadError Nodes) (err no_node) (ok r) = rw (none_there) at e in cc

  -- The rounds behind the step.
  abbrev go_on :
      ℕ
      → hamt.Bucket
      → JsString
      → Position i hamt
      → hamt.Heap
      → i.Store
      → Rest i hamt buckets
      → Result LoadError Nodes
  go_on fuel root name p heap s none = ok (p ∷ [], heap)
  go_on fuel root name p heap s (some (q, others, after)) =
      in_front i hamt buckets p (load_nodes i hamt buckets fuel root name q others after s)

  abbrev step :
      ℕ
      → hamt.Bucket
      → JsString
      → Position i hamt
      → List (Position i hamt)
      → hamt.Heap
      → i.Store
      → Option (Node i.Cid i.Data)
      → Result LoadError Nodes
  step fuel root name p rest heap s below =
      next_segment i hamt buckets fuel root name p rest below heap s
      >>= go_on fuel root name p heap s

  load_nodes-step :
      (fuel : ℕ) (root : hamt.Bucket) (name : JsString) (p : Position i hamt)
      (rest : List (Position i hamt)) (heap : hamt.Heap) (s : i.Store) (node : Node i.Cid i.Data)
      → p.node ≡ some node
      → load_nodes i hamt buckets (suc fuel) root name p rest heap s ≡ (
          below_link i hamt buckets name p s (link_at i hamt buckets p node)
          >>= step fuel root name p rest heap s)
  unfolding load_nodes
  load_nodes-step fuel root name p rest heap s node there =
      ap
        (λ (o : Option (Node i.Cid i.Data)). or_throw o no_node >>= λ n.
          (below_link i hamt buckets name p s (link_at i hamt buckets p n)
            >>= step fuel root name p rest heap s))
        there

  entered-IsChain :
      (fuel : ℕ) (root : hamt.Bucket) (name : JsString) (p q : Position i hamt)
      (others : List (Position i hamt)) (after : hamt.Heap) (s : i.Store) (node : Node i.Cid i.Data)
      (below : Option (Node i.Cid i.Data)) (a : Nodes)
      → p.node ≡ some node
      → IsStep i hamt buckets s name p node below
      → (q.node ≡ below) × NoNodes i hamt buckets others
      → load_nodes i hamt buckets fuel root name q others after s ≡ ok a
      → ((q : Position i hamt) (others : List (Position i hamt)) (after : hamt.Heap)
            (m : Node i.Cid i.Data) (a : Nodes)
          → q.node ≡ some m
          → NoNodes i hamt buckets others
          → load_nodes i hamt buckets fuel root name q others after s ≡ ok a
          → IsChain i hamt buckets s name m a.0)
      → IsChain i hamt buckets s name node (p ∷ a.0)
  entered-IsChain fuel root name p q others after s node none a there found n loaded behind =
      absurd (load_nodes-no_node fuel root name q others after s a n.0 loaded)
  entered-IsChain fuel root name p q others after s node (some below) a there found n loaded
        behind =
      descend-IsChain s name node below p a.0 there found
        (behind q others after below a n.0 n.1 loaded)

  go_on-IsChain :
      (fuel : ℕ) (root : hamt.Bucket) (name : JsString) (p : Position i hamt) (heap : hamt.Heap)
      (s : i.Store) (node : Node i.Cid i.Data) (r : Nodes) (next : Rest i hamt buckets)
      (below : Option (Node i.Cid i.Data))
      → p.node ≡ some node
      → IsStep i hamt buckets s name p node below
      → IsNext i hamt buckets below next
      → go_on fuel root name p heap s next ≡ ok r
      → ((q : Position i hamt) (others : List (Position i hamt)) (after : hamt.Heap)
            (m : Node i.Cid i.Data) (a : Nodes)
          → q.node ≡ some m
          → NoNodes i hamt buckets others
          → load_nodes i hamt buckets fuel root name q others after s ≡ ok a
          → IsChain i hamt buckets s name m a.0)
      → IsChain i hamt buckets s name node r.0
  go_on-IsChain fuel root name p heap s node r none none there found n e behind =
      subst (λ (a : Nodes). IsChain i hamt buckets s name node a.0) (ok-injective e) (there, found)
  go_on-IsChain fuel root name p heap s node r none (some below) there found n e behind = cc
  go_on-IsChain fuel root name p heap s node r (some (q, others, after)) below there found n e
        behind =
      elim (Result-cases (load_nodes i hamt buckets fuel root name q others after s)) [
        | inl (x, failed) ↦
            let g : Path (Result LoadError Nodes) (err x) (ok r) =
              ap (in_front i hamt buckets p) (sym failed) ∙ e in
            cc
        | inr (a, loaded) ↦
            let same : Path (Result LoadError Nodes) (ok (p ∷ a.0, a.1)) (ok r) =
              ap (in_front i hamt buckets p) (sym loaded) ∙ e in
            subst (λ (b : Nodes). IsChain i hamt buckets s name node b.0) (ok-injective same)
              (entered-IsChain fuel root name p q others after s node below a there found n loaded
                behind)
      ]

  pub load_nodes-IsChain :
      (fuel : ℕ) (root : hamt.Bucket) (name : JsString) (p : Position i hamt)
      (rest : List (Position i hamt)) (heap : hamt.Heap) (s : i.Store) (node : Node i.Cid i.Data)
      (r : Nodes)
      → p.node ≡ some node
      → NoNodes i hamt buckets rest
      → load_nodes i hamt buckets fuel root name p rest heap s ≡ ok r
      → IsChain i hamt buckets s name node r.0
  unfolding load_nodes
  load_nodes-IsChain zero root name p rest heap s node r there h e = cc
  load_nodes-IsChain (suc fuel) root name p rest heap s node r there h e =
      let start : (below_link i hamt buckets name p s (link_at i hamt buckets p node)
            >>= step fuel root name p rest heap s)
          ≡ ok r =
        sym (load_nodes-step fuel root name p rest heap s node there) ∙ e in
      elim (Result-cases (below_link i hamt buckets name p s (link_at i hamt buckets p node))) [
        | inl (x, failed) ↦
            let g : Path (Result LoadError Nodes) (err x) (ok r) =
              ap (λ b. b >>= step fuel root name p rest heap s) (sym failed) ∙ start in
            cc
        | inr (below, went) ↦
            let second : step fuel root name p rest heap s below ≡ ok r =
              ap (λ b. b >>= step fuel root name p rest heap s) (sym went) ∙ start in
            let found =
              below_link-IsStep i hamt buckets name p node s (link_at i hamt buckets p node) below
                refl went in
            elim (Result-cases (next_segment i hamt buckets fuel root name p rest below heap s)) [
              | inl (x, failed) ↦
                  let g : Path (Result LoadError Nodes) (err x) (ok r) =
                    ap (λ b. b >>= go_on fuel root name p heap s) (sym failed) ∙ second in
                  cc
              | inr (next, moved) ↦
                  let third : go_on fuel root name p heap s next ≡ ok r =
                    ap (λ b. b >>= go_on fuel root name p heap s) (sym moved) ∙ second in
                  go_on-IsChain fuel root name p heap s node r next below there found
                    (next_segment-IsNext i hamt buckets fuel root name p rest below heap s next h
                      moved)
                    third
                    (λ q others after m r'. load_nodes-IsChain fuel root name q others after s m r')
            ]
      ]
