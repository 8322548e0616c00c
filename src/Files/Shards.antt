-- ===== src/Files/Shards.antt =====
-- The removal of a name from a sharded directory: packages/ipfs-core/src/components/files/utils/remove-link.js with
-- updateHamtDirectory and toPrefix of hamt-utils.js.
mod Links
mod Replaced
pub mod Searches
pub mod Removed
mod Last
mod Through
mod Removal
mod Whole
pub mod Loading
mod Tests
use js_ipfs.Prelude.{
  ℕ, zero, suc, ◌+◌, ◌/◌, ◌%◌, Bool, true, false, not, Option, none, some, List, [], ◌∷◌, ◌++◌,
  ◌==◌, JsString, string_eq, filter, find, length, take, drop, if◌then◌else◌, nat_beq, ltb, Result,
  ok, err, ◌>>=◌, or_throw,
}
use js_ipfs.Files.Tree.{Ipld, Link, Node, LinkError, invalid_parent, not_found, parent_without_data}

-- What the package hamt-sharding gives, with ipfs-unixfs. Buckets are objects that change: they
-- are references into a heap.
pub record Hamt (i : Ipld) : Type 1 where
  pub Bucket : Type 0
  pub Heap : Type 0
  pub del : Bucket → JsString → Heap → Heap
  -- The data of a sharded directory with the bits of a bucket, and the mode and the time of a node.
  pub shard_data : i.Data → Bucket → Heap → i.Data
  -- `a.localeCompare(b) <= 0`
  pub ordered : JsString → JsString → Bool

-- `position.toString(16).toUpperCase()`, the first `fuel` digits from the right
abbrev pub hex_digit : ℕ → ℕ
hex_digit n = if ltb n 10 then 48 + n else 55 + n

abbrev pub hex_onto : ℕ → ℕ → JsString → JsString
hex_onto zero n s = s
hex_onto (suc fuel) n s =
    if ltb n 16 then hex_digit n ∷ s else hex_onto fuel (n / 16) (hex_digit (n % 16) ∷ s)

abbrev pub pad_start : JsString → JsString
pad_start [] = 48 ∷ 48 ∷ []
pad_start (c ∷ []) = 48 ∷ c ∷ []
pad_start (c ∷ d ∷ s) = c ∷ d ∷ s

-- `toPrefix`
pub to_prefix : ℕ → JsString
to_prefix position = take 2 (pad_start (hex_onto (suc position) position []))

abbrev pub has_prefix : {C : Type 0} → JsString → Link C → Bool
has_prefix prefix link = take 2 link.name == prefix

abbrev pub find_prefix : {C : Type 0} → JsString → List (Link C) → Option (Link C)
find_prefix prefix links = find (has_prefix prefix) links

abbrev pub without : {C : Type 0} → JsString → List (Link C) → List (Link C)
without name links = filter (λ l. not (l.name == name)) links

abbrev pub total : {C : Type 0} → ℕ → List (Link C) → ℕ
total size [] = size
total size (l ∷ links) = total (size + l.tsize) links

-- `links.sort`, which is stable
abbrev pub insert_link :
    {C : Type 0} → (JsString → JsString → Bool) → Link C → List (Link C) → List (Link C)
insert_link ordered l [] = l ∷ []
insert_link ordered l (k ∷ links) =
    if ordered l.name k.name then l ∷ k ∷ links else k ∷ insert_link ordered l links

abbrev pub sort_links : {C : Type 0} → (JsString → JsString → Bool) → List (Link C) → List (Link C)
sort_links ordered [] = []
sort_links ordered (l ∷ links) = insert_link ordered l (sort_links ordered links)

module _ (i : Ipld) (hamt : Hamt i) where
  -- An entry of the path that `generatePath` gives.
  pub record Position : Type 0 where
    pub bucket : hamt.Bucket
    pub prefix : JsString
    pub node : Option (Node i.Cid i.Data)

  -- `{ node, cid, size }`, and the buckets and the store behind the call.
  pub record Shard : Type 0 where
    pub node : Node i.Cid i.Data
    pub cid : i.Cid
    pub size : ℕ
    pub heap : hamt.Heap
    pub store : i.Store

  -- What `updateHamtDirectory` reads of its options.
  pub record ShardOptions : Type 0 where
    pub parent : Node i.Cid i.Data
    pub flush : Bool

  abbrev pub written_shard :
      ShardOptions → i.Data → List (Link i.Cid) → hamt.Bucket → hamt.Heap → i.Store → Shard
  written_shard o d links bucket heap s =
      let node : Node i.Cid i.Data = record {
        meta = some (hamt.shard_data d bucket heap);
        links = sort_links hamt.ordered links;
      } in
      let buf = i.encode node in
      record {
        node = node;
        cid = i.digest buf;
        size = total (i.size buf) links;
        heap = heap;
        store = if o.flush then i.put (i.digest buf) buf s else s;
      }

  -- `updateHamtDirectory`
  pub update_hamt_directory :
      ShardOptions → List (Link i.Cid) → hamt.Bucket → hamt.Heap → i.Store → Result LinkError Shard
  update_hamt_directory o links bucket heap s = elim o.parent.meta [
    | none ↦ err parent_without_data
    | some d ↦ ok (written_shard o d links bucket heap s)
  ]

  -- `updateShardParent`
  pub update_shard_parent :
      ShardOptions
      → hamt.Bucket
      → Node i.Cid i.Data
      → JsString
      → Link i.Cid
      → hamt.Heap
      → i.Store
      → Result LinkError Shard
  unfolding update_hamt_directory
  update_shard_parent o bucket parent old_name link heap s =
      update_hamt_directory o (without old_name parent.links ++ link ∷ []) bucket heap s

  -- The link to a sub-shard, or to what is left in it when that is a single link.
  pub link_to : JsString → Shard → Link i.Cid
  link_to prefix r = elim r.node.links [
    | link ∷ [] ↦ record { name = prefix ++ drop 2 link.name; tsize = link.tsize; hash = link.hash }
    | _ ↦ record { name = prefix; tsize = r.size; hash = r.cid }
  ]

  -- `updateShard`, of the path with the root first; the path of the source has it last, and is taken
  -- from its end.
  pub update_shard :
      ShardOptions → JsString → List Position → hamt.Heap → i.Store → Result LinkError Shard
  unfolding update_hamt_directory update_shard_parent link_to
  update_shard o name [] heap s = err invalid_parent
  update_shard o name (p ∷ positions) heap s =
      let rest = update_shard o name positions heap s in
      do
        node ← or_throw p.node invalid_parent
        link ← or_throw (find_prefix p.prefix node.links) not_found
        if link.name == p.prefix ++ name
            then update_hamt_directory o (without link.name node.links) p.bucket
                (hamt.del p.bucket name heap) s
            else (rest >>= λ r.
                update_shard_parent o p.bucket node p.prefix (link_to p.prefix r) r.heap r.store)

  -- `removeFromShardedDirectory`, with what `generatePath` gives.
  pub remove_from_sharded_directory :
      ShardOptions
      → JsString
      → hamt.Bucket
      → List Position
      → hamt.Heap
      → i.Store
      → Result LinkError Shard
  unfolding update_shard update_hamt_directory
  remove_from_sharded_directory o name root_bucket positions heap s = do
    r ← update_shard o name positions (hamt.del root_bucket name heap) s
    update_hamt_directory o r.node.links root_bucket r.heap r.store
