-- ===== src/Files/Shards/Loading/Chains.antt =====
-- The nodes of the path that generatePath gives.
use mathlib.Core.Path.{sym, subst}
use js_ipfs.Prelude.{
  ℕ, zero, suc, ◌≡◌, refl, ap, ◌∙◌, none, some, List, [], ◌∷◌, JsString, string_eq, Result, ok, err,
  ok-injective, inl, inr, Bool-cases, Option-cases, Result-cases, ◌>>=◌,
}
use js_ipfs.Files.Tree.{Ipld, Node}
use js_ipfs.Files.Shards.{Hamt, Position, to_prefix}
use js_ipfs.Files.Shards.Loading.{
  Buckets, LoadError, no_parent, climb, load_nodes, with_root, load_path, generate_path,
  recreate_initial_hamt_level,
}
use js_ipfs.Files.Shards.Loading.Steps.{NoNodes, IsChain}
use js_ipfs.Files.Shards.Loading.Rounds.{Nodes, load_nodes-IsChain}

module _ (i : Ipld) (hamt : Hamt i) (buckets : Buckets i hamt) where
  abbrev Generated : Type 0
  Generated = hamt.Bucket × List (Position i hamt) × hamt.Heap

  abbrev finished :
      JsString → hamt.Bucket → Result LoadError (Nodes i hamt buckets) → Result LoadError Generated
  finished name root loaded = loaded >>= λ l. ok (root, l.0, buckets.put root name l.1)

  abbrev loading :
      ℕ
      → JsString
      → Node i.Cid i.Data
      → i.Store
      → hamt.Bucket
      → hamt.Heap
      → Result LoadError (List (Position i hamt))
      → Result LoadError Generated
  loading fuel name node s root first climbed = climbed >>= λ path.
      (finished name root
        (load_path i hamt buckets fuel root name (with_root i hamt buckets node path) first s))

  climb-NoNodes :
      (fuel : ℕ) (root current : hamt.Bucket) (heap : hamt.Heap) (p : Position i hamt)
      (path climbed : List (Position i hamt))
      → NoNodes i hamt buckets path
      → p.node ≡ none
      → climb i hamt buckets fuel root current heap (p ∷ path) ≡ ok climbed
      → (q : Position i hamt) × (rest : List (Position i hamt)) × (climbed ≡ q ∷ rest)
        × NoNodes i hamt buckets rest
  unfolding climb
  climb-NoNodes zero root current heap p path climbed h j e = cc
  climb-NoNodes (suc fuel) root current heap p path climbed h j e =
      elim (Bool-cases (buckets.same current root)) [
        | inl top ↦ (p, path, sym (ok-injective (rw (top, climb) at e)), h)
        | inr lower ↦ elim (Option-cases (buckets.parent current heap)) [
          | inl missing ↦
              let g : Path (Result LoadError (List (Position i hamt))) (err no_parent)
                  (ok climbed) =
                rw (missing) at (rw (lower, climb) at e) in
              cc
          | inr (parent, above) ↦
              climb-NoNodes fuel root parent heap _ (p ∷ path) climbed (j, h) refl
                (rw (above) at (rw (lower, climb) at e))
        ]
      ]

  -- When `generatePath` gives a path, its first position has the node that it was called with, each
  -- link that it follows is the last one with the prefix of its position and not the one of the file,
  -- and its block holds the node of the next position; at the last position the link with the prefix is
  -- the one of the file, or there is none.
  pub generate_path-IsChain :
      (fuel : ℕ) (name : JsString) (node : Node i.Cid i.Data) (heap : hamt.Heap) (s : i.Store)
      (root : hamt.Bucket) (path : List (Position i hamt)) (after : hamt.Heap)
      → generate_path i hamt buckets fuel name node heap s ≡ ok (root, path, after)
      → IsChain i hamt buckets s name node path
  unfolding generate_path
  generate_path-IsChain fuel name node heap s root path after e =
      let (first_root, first) = recreate_initial_hamt_level i hamt buckets node.links heap in
      let (bucket, pos) = buckets.find_new_bucket_and_pos first_root name first in
      let start : Position i hamt = record {
        bucket = bucket;
        prefix = to_prefix pos;
        node = none;
      } in
      elim (Result-cases (climb i hamt buckets fuel first_root bucket first (start ∷ []))) [
        | inl (x, failed) ↦
            let g : Path (Result LoadError Generated) (err x) (ok (root, path, after)) =
              ap (loading fuel name node s first_root first) (sym failed) ∙ e in
            cc
        | inr (climbed, reached) ↦
            let (q, rest, same, bare) =
              climb-NoNodes fuel first_root bucket first start [] climbed tt refl reached in
            let second : loading fuel name node s first_root first (ok (q ∷ rest))
                ≡ ok (root, path, after) =
              ap (λ l. loading fuel name node s first_root first (ok l)) (sym same)
              ∙ ap (loading fuel name node s first_root first) (sym reached)
              ∙ e in
            elim (Result-cases (
              load_nodes i hamt buckets fuel first_root name (record q { node = some node }) rest
                first s)) [
                  | inl (x, failed) ↦
                      let g : Path (Result LoadError Generated) (err x) (ok (root, path, after)) =
                        ap (finished name first_root) (sym failed) ∙ second in
                      cc
                  | inr (a, loaded) ↦
                      let third : Path (Result LoadError Generated)
                          (ok (first_root, a.0, buckets.put first_root name a.1))
                          (ok (root, path, after)) =
                        ap (finished name first_root) (sym loaded) ∙ second in
                      subst (λ (g : Generated). IsChain i hamt buckets s name node g.1)
                        (ok-injective third)
                        (load_nodes-IsChain i hamt buckets fuel first_root name
                          (record q { node = some node }) rest first s node a refl bare loaded)
                ]
      ]
