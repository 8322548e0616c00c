-- ===== src/Files/Shards/Loading.antt =====
-- packages/ipfs-core/src/components/files/utils/hamt-utils.js: generatePath, which loads the nodes on the way to a name.
-- What `Promise.all` does at once is done in the order of the links.
mod Steps
mod Rounds
mod Chains
mod Tests
use js_ipfs.Prelude.{
  ℕ, zero, suc, ◌+◌, ◌*◌, ◌-◌, Bool, true, false, Option, none, some, List, [], ◌∷◌, ◌++◌, ◌==◌,
  JsString, string_eq, filter, last?, length, drop, if◌then◌else◌, nat_beq, leb, ◌&&◌, Result, ok,
  err, ◌>>=◌, or_throw,
}
use js_ipfs.Files.Tree.{Ipld, Link, Node}
use js_ipfs.Files.Shards.{Hamt, Position, has_prefix, to_prefix}

-- More of the package hamt-sharding. A position that `parseInt` gives is `none` when it is NaN; the
-- values that are put under the names are not read here.
pub record Buckets (i : Ipld) (hamt : Hamt i) : Type 0 where
  pub same : hamt.Bucket → hamt.Bucket → Bool
  pub create_hamt : hamt.Heap → hamt.Bucket × hamt.Heap
  pub new_bucket : hamt.Bucket → Option ℕ → hamt.Heap → hamt.Bucket × hamt.Heap
  pub put_object_at : hamt.Bucket → Option ℕ → hamt.Bucket → hamt.Heap → hamt.Heap
  pub put : hamt.Bucket → JsString → hamt.Heap → hamt.Heap
  pub find_new_bucket_and_pos : hamt.Bucket → JsString → hamt.Heap → hamt.Bucket × ℕ
  pub parent : hamt.Bucket → hamt.Heap → Option hamt.Bucket
  pub pos_at_parent : hamt.Bucket → hamt.Heap → ℕ

-- `still_runs` stands for a call that has not ended within the fuel, and `no_parent` for the
-- `TypeError` of a bucket without a parent.
pub data LoadError : Type 0 where
  block_not_found no_node no_parent still_runs : LoadError

-- `parseInt(s, 16)` of digits
abbrev pub hex_value : ℕ → Option ℕ
hex_value c =
    if leb 48 c && leb c 57
    then some (c - 48)
    else if leb 65 c && leb c 70
    then some (c - 55)
    else if leb 97 c && leb c 102
    then some (c - 87)
    else none

abbrev pub parse_onto : Option ℕ → JsString → Option ℕ
parse_onto n [] = n
parse_onto n (c ∷ s) = elim (hex_value c) [
  | none ↦ n
  | some v ↦ parse_onto (elim n [ none ↦ some v | some m ↦ some (m * 16 + v) ]) s
]

pub parse_hex : JsString → Option ℕ
parse_hex s = parse_onto none s

module _ (i : Ipld) (hamt : Hamt i) (buckets : Buckets i hamt) where
  -- `recreateInitialHamtLevel`
  pub populate_root : List (Link i.Cid) → hamt.Bucket → hamt.Heap → hamt.Heap
  unfolding parse_hex
  populate_root [] root heap = heap
  populate_root (link ∷ links) root heap =
      if nat_beq (length link.name) 2
      then (let pos = parse_hex link.name in
          let (sub, heap') = buckets.new_bucket root pos heap in
          populate_root links root (buckets.put_object_at root pos sub heap'))
      else populate_root links root (buckets.put root (drop 2 link.name) heap)

  pub recreate_initial_hamt_level : List (Link i.Cid) → hamt.Heap → hamt.Bucket × hamt.Heap
  unfolding populate_root
  recreate_initial_hamt_level links heap =
      let (root, heap') = buckets.create_hamt heap in (root, populate_root links root heap')

  -- `addLinksToHamtBucket`, over at most `fuel` levels of sub-shards
  pub add_links_to_hamt_bucket :
      ℕ
      → List (Link i.Cid)
      → hamt.Bucket
      → hamt.Bucket
      → i.Store
      → hamt.Heap
      → Result LoadError hamt.Heap
  unfolding parse_hex
  add_links_to_hamt_bucket fuel [] bucket root s heap = ok heap
  add_links_to_hamt_bucket zero (link ∷ links) bucket root s heap = err still_runs
  add_links_to_hamt_bucket (suc fuel) (link ∷ links) bucket root s heap =
      elim (nat_beq (length link.name) 2) [
        | false ↦
            add_links_to_hamt_bucket (suc fuel) links bucket root s
              (buckets.put root (drop 2 link.name) heap)
        | true ↦ elim (i.get link.hash s) [
          | none ↦ err block_not_found
          | some block ↦
              let pos = parse_hex link.name in
              let (sub, heap') = buckets.new_bucket bucket pos heap in
              add_links_to_hamt_bucket fuel (i.decode block).links sub root s
                (buckets.put_object_at bucket pos sub heap')
              >>= λ after. add_links_to_hamt_bucket (suc fuel) links bucket root s after
        ]
      ]

  -- `recreateHamtLevel`
  pub recreate_hamt_level :
      ℕ
      → List (Link i.Cid)
      → hamt.Bucket
      → hamt.Bucket
      → Option ℕ
      → i.Store
      → hamt.Heap
      → Result LoadError hamt.Heap
  unfolding add_links_to_hamt_bucket
  recreate_hamt_level fuel links root parent_bucket position_at_parent s heap =
      let (bucket, heap') = buckets.new_bucket parent_bucket position_at_parent heap in
      add_links_to_hamt_bucket fuel links bucket root s
        (buckets.put_object_at parent_bucket position_at_parent bucket heap')

  -- The positions from the root to a bucket, in front of `path`: the loop over `_parent`, reversed.
  pub climb :
      ℕ
      → hamt.Bucket
      → hamt.Bucket
      → hamt.Heap
      → List (Position i hamt)
      → Result LoadError (List (Position i hamt))
  climb zero root current heap path = err still_runs
  climb (suc fuel) root current heap path = elim (buckets.same current root) [
    | true ↦ ok path
    | false ↦ elim (buckets.parent current heap) [
      | none ↦ err no_parent
      | some parent ↦ climb fuel root parent heap (
          record {
            bucket = current;
            prefix = to_prefix (buckets.pos_at_parent current heap);
            node = none;
          }
          ∷ path)
    ]
  ]

  -- `node.Links.filter(…).pop()`
  abbrev pub link_at : Position i hamt → Node i.Cid i.Data → Option (Link i.Cid)
  link_at p node = last? (filter (has_prefix p.prefix) node.links)

  -- The node of the sub-shard that a link leads to, `none` if the path ends here.
  pub below_link :
      JsString
      → Position i hamt
      → i.Store
      → Option (Link i.Cid)
      → Result LoadError (Option (Node i.Cid i.Data))
  below_link name p s none = ok none
  below_link name p s (some link) =
      if link.name == p.prefix ++ name
      then ok none
      else elim (i.get link.hash s) [ none ↦ err block_not_found | some b ↦ ok (some (i.decode b)) ]

  -- The next segment of the path, those behind it and the heap; `none` behind the last one.
  abbrev pub Rest : Type 0
  Rest = Option (Position i hamt × List (Position i hamt) × hamt.Heap)

  pub next_segment :
      ℕ
      → hamt.Bucket
      → JsString
      → Position i hamt
      → List (Position i hamt)
      → Option (Node i.Cid i.Data)
      → hamt.Heap
      → i.Store
      → Result LoadError Rest
  unfolding recreate_hamt_level add_links_to_hamt_bucket parse_hex
  next_segment fuel root name p [] none heap s = ok none
  next_segment fuel root name p (next ∷ rest) none heap s = ok (some (next, rest, heap))
  next_segment fuel root name p [] (some node) heap s =
      recreate_hamt_level fuel node.links root p.bucket (parse_hex p.prefix) s heap >>= λ after.
      let (bucket, pos) = buckets.find_new_bucket_and_pos root name after in
      ok (some (record { bucket = bucket; prefix = to_prefix pos; node = some node }, [], after))
  next_segment fuel root name p (next ∷ rest) (some node) heap s =
      add_links_to_hamt_bucket fuel node.links next.bucket root s heap >>= λ after.
      ok (some (record next { node = some node }, rest, after))

  abbrev pub in_front :
      Position i hamt
      → Result LoadError (List (Position i hamt) × hamt.Heap)
      → Result LoadError (List (Position i hamt) × hamt.Heap)
  in_front p (err e) = err e
  in_front p (ok (path, heap)) = ok (p ∷ path, heap)

  -- The loop that loads the nodes, from a segment on.
  pub load_nodes :
      ℕ
      → hamt.Bucket
      → JsString
      → Position i hamt
      → List (Position i hamt)
      → hamt.Heap
      → i.Store
      → Result LoadError (List (Position i hamt) × hamt.Heap)
  unfolding below_link next_segment
  load_nodes zero root name p rest heap s = err still_runs
  load_nodes (suc fuel) root name p rest heap s = or_throw p.node no_node >>= λ node.
      below_link name p s (link_at p node) >>= λ below.
      next_segment fuel root name p rest below heap s >>= λ next. elim next [
        | none ↦ ok (p ∷ [], heap)
        | some (q, others, after) ↦ in_front p (load_nodes fuel root name q others after s)
      ]

  abbrev pub with_root : Node i.Cid i.Data → List (Position i hamt) → List (Position i hamt)
  with_root node [] = []
  with_root node (p ∷ path) = record p { node = some node } ∷ path

  abbrev pub load_path :
      ℕ
      → hamt.Bucket
      → JsString
      → List (Position i hamt)
      → hamt.Heap
      → i.Store
      → Result LoadError (List (Position i hamt) × hamt.Heap)
  load_path fuel root name [] heap s = ok ([], heap)
  load_path fuel root name (p ∷ rest) heap s = load_nodes fuel root name p rest heap s

  -- `generatePath`: the root bucket, the path with the root first, and the heap.
  pub generate_path :
      ℕ
      → JsString
      → Node i.Cid i.Data
      → hamt.Heap
      → i.Store
      → Result LoadError (hamt.Bucket × List (Position i hamt) × hamt.Heap)
  unfolding recreate_initial_hamt_level climb load_nodes
  generate_path fuel name node heap s =
      let (root, first) = recreate_initial_hamt_level node.links heap in
      let (bucket, pos) = buckets.find_new_bucket_and_pos root name first in
      climb fuel root bucket first
        (record { bucket = bucket; prefix = to_prefix pos; node = none } ∷ [])
      >>= λ path. load_path fuel root name (with_root node path) first s >>= λ loaded.
          ok (root, loaded.0, buckets.put root name loaded.1)
