-- ===== src/Files/Shards/Loading/Steps.antt =====
-- A step of the loop of generatePath.
use mathlib.Core.Path.{subst}
use js_ipfs.Prelude.{
  ℕ, ◌≡◌, ◌≢◌, refl, Option, none, some, List, [], ◌∷◌, ◌++◌, ◌==◌, JsString, string_eq, All,
  Result, ok, err, ok-injective, ◌⊎◌, inl, inr, Bool-cases, Option-cases, Result-cases, arith,
}
use js_ipfs.Files.Tree.{Ipld, Link, Node}
use js_ipfs.Files.Shards.{Hamt, Position}
use js_ipfs.Files.Shards.Loading.{
  Buckets, LoadError, block_not_found, recreate_hamt_level, add_links_to_hamt_bucket, link_at,
  below_link, next_segment, Rest, parse_hex,
}

module _ (i : Ipld) (hamt : Hamt i) (buckets : Buckets i hamt) where
  -- The path ends at a position: the last link with its prefix is the one of the file, or there is none.
  abbrev pub Ends : JsString → Position i hamt → Node i.Cid i.Data → Type 0
  Ends name p node =
      (link_at i hamt buckets p node ≡ none)
      ⊎ ((link : Link i.Cid) × (link_at i hamt buckets p node ≡ some link)
          × (link.name ≡ p.prefix ++ name))

  -- The link at a position is another one, and its block holds the node of the next position.
  abbrev pub Descends :
      i.Store → JsString → Position i hamt → Node i.Cid i.Data → Node i.Cid i.Data → Type 0
  Descends s name p node below =
      (link : Link i.Cid) × (block : i.Block) × (link_at i hamt buckets p node ≡ some link)
      × (link.name ≢ p.prefix ++ name)
      × (i.get link.hash s ≡ some block)
      × (below ≡ i.decode block)

  abbrev pub IsChain : i.Store → JsString → Node i.Cid i.Data → List (Position i hamt) → Type 0
  IsChain s name node [] = ⊥
  IsChain s name node (p ∷ []) = (p.node ≡ some node) × Ends name p node
  IsChain s name node (p ∷ q ∷ path) =
      (p.node ≡ some node)
      × ((below : Node i.Cid i.Data) × Descends s name p node below
          × IsChain s name below (q ∷ path))

  abbrev pub IsStep :
      i.Store → JsString → Position i hamt → Node i.Cid i.Data → Option (Node i.Cid i.Data) → Type 0
  IsStep s name p node none = Ends name p node
  IsStep s name p node (some below) = Descends s name p node below

  pub below_link-IsStep :
      (name : JsString) (p : Position i hamt) (node : Node i.Cid i.Data) (s : i.Store)
      (found : Option (Link i.Cid)) (below : Option (Node i.Cid i.Data))
      → link_at i hamt buckets p node ≡ found
      → below_link i hamt buckets name p s found ≡ ok below
      → IsStep s name p node below
  unfolding below_link
  below_link-IsStep name p node s none none e h = inl e
  below_link-IsStep name p node s none (some below) e h = cc
  below_link-IsStep name p node s (some link) below e h =
      elim (Bool-cases (link.name == p.prefix ++ name)) [
        | inl file ↦
            subst (IsStep s name p node) (ok-injective (rw (file) at h))
              (inr (link, e, (string_eq.beq_iff link.name (p.prefix ++ name)).0 file))
        | inr other ↦ elim (Option-cases (i.get link.hash s)) [
          | inl missing ↦
              let g : Path (Result LoadError (Option (Node i.Cid i.Data))) (err block_not_found)
                  (ok below) =
                rw (missing) at (rw (other) at h) in
              cc
          | inr (block, there) ↦
              subst (IsStep s name p node) (ok-injective (rw (there) at (rw (other) at h))) (
                link,
                block,
                e,
                (λ f. ground (arith, other, string_eq.beq_iff link.name (p.prefix ++ name))),
                there,
                refl,
              )
        ]
      ]

  -- The segments behind have no node yet.
  abbrev pub NoNodes : List (Position i hamt) → Type 0
  NoNodes path = All (λ (p : Position i hamt). p.node ≡ none) path

  -- What the next segment is after a step.
  abbrev pub IsNext : Option (Node i.Cid i.Data) → Rest i hamt buckets → Type 0
  IsNext below none = below ≡ none
  IsNext below (some (q, rest, heap)) = (q.node ≡ below) × NoNodes rest

  pub next_segment-IsNext :
      (fuel : ℕ) (root : hamt.Bucket) (name : JsString) (p : Position i hamt)
      (rest : List (Position i hamt)) (below : Option (Node i.Cid i.Data)) (heap : hamt.Heap)
      (s : i.Store) (next : Rest i hamt buckets)
      → NoNodes rest
      → next_segment i hamt buckets fuel root name p rest below heap s ≡ ok next
      → IsNext below next
  unfolding next_segment
  next_segment-IsNext fuel root name p [] none heap s next h e =
      subst (IsNext none) (ok-injective e) refl
  next_segment-IsNext fuel root name p (q ∷ rest) none heap s next h e =
      subst (IsNext none) (ok-injective e) h
  next_segment-IsNext fuel root name p [] (some node) heap s next h e =
      elim (Result-cases (
        recreate_hamt_level i hamt buckets fuel node.links root p.bucket (parse_hex p.prefix) s
          heap)) [
            | inl (x, failed) ↦
                let g : Path (Result LoadError (Rest i hamt buckets)) (err x) (ok next) =
                  rw (failed) at e in
                cc
            | inr (after, done) ↦
                subst (IsNext (some node)) (ok-injective (rw (done) at e)) (refl, tt)
          ]
  next_segment-IsNext fuel root name p (q ∷ rest) (some node) heap s next h e =
      elim (Result-cases
        (add_links_to_hamt_bucket i hamt buckets fuel node.links q.bucket root s heap)) [
          | inl (x, failed) ↦
              let g : Path (Result LoadError (Rest i hamt buckets)) (err x) (ok next) =
                rw (failed) at e in
              cc
          | inr (after, done) ↦
              subst (IsNext (some node)) (ok-injective (rw (done) at e)) (refl, h.1)
        ]
