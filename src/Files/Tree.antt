-- ===== src/Files/Tree.antt =====
-- packages/ipfs-core/src/components/files/utils: add-link.js, remove-link.js and update-tree.js on
-- plain directories, over a store of content-addressed blocks.
pub mod Links
pub mod Walk
pub mod Frame
pub mod Example
mod Tests
use js_ipfs.Prelude.{
  ℕ, Bool, true, false, not, Option, none, some, List, [], ◌∷◌, ◌++◌, ◌==◌, JsString, filter, find,
  length, leb, if◌then◌else◌, string_eq, is_some, or_else, Result, ok, err, ◌>>=◌, or_throw,
  throw_if, map,
}

-- `PBLink`; a link without a name has the empty one.
pub record Link (C : Type 0) : Type 0 where
  pub name : JsString
  pub tsize : ℕ
  pub hash : C

-- `PBNode`, its `Data` read as UnixFS
pub record Node (C D : Type 0) : Type 0 where
  pub meta : Option D
  pub links : List (Link C)

-- What the packages @ipld/dag-pb, ipfs-unixfs and multiformats give, and the blockstore.
pub record Ipld : Type 1 where
  pub Cid : Type 0
  pub Data : Type 0
  pub Block : Type 0
  pub Store : Type 0
  pub prepare : Node Cid Data → Node Cid Data
  pub encode : Node Cid Data → Block
  pub decode : Block → Node Cid Data
  pub size : Block → ℕ
  pub digest : Block → Cid
  pub is_dag_pb : Cid → Bool
  pub is_sharded : Data → Bool
  -- The data with its mtime set to now, if it had one.
  pub touched : Data → Data
  pub get : Cid → Store → Option Block
  pub put : Cid → Block → Store → Store

pub data LinkError : Type 0 where
  not_found invalid_parent_cid invalid_parent invalid_child_cid invalid_child_name : LinkError
  invalid_child_size parent_without_data no_trail : LinkError

abbrev pub link_of : {C : Type 0} → JsString → List (Link C) → Option (Link C)
link_of name links = find (λ l. l.name == name) links

-- An entry of a trail, and the child that is linked into the entry above it.
pub record TrailEntry (C : Type 0) : Type 0 where
  pub name : JsString
  pub cid : C

pub record Child (C : Type 0) : Type 0 where
  pub name : JsString
  pub cid : C
  pub size : ℕ

-- `trail.slice().reverse()` is `reversed_onto trail []`.
abbrev pub reversed_onto {ℓ} : {A : Type ℓ} → List A → List A → List A
reversed_onto [] acc = acc
reversed_onto (x ∷ xs) acc = reversed_onto xs (x ∷ acc)

module _ (i : Ipld) where
  pub record LinkOptions : Type 0 where
    pub parent : Option (Node i.Cid i.Data)
    pub parent_cid : Option i.Cid
    pub cid : Option i.Cid
    pub name : JsString
    pub size : Option ℕ
    pub flush : Bool
    pub shard_split_threshold : ℕ

  -- `{ node, cid, size }` and the store behind the call.
  pub record Linked : Type 0 where
    pub node : Node i.Cid i.Data
    pub cid : i.Cid
    pub size : ℕ
    pub store : i.Store

  abbrev pub Added : Type 0
  Added = Result LinkError Linked

  -- `options.parentCid`, loaded when it is given.
  unfoldable pub loaded_parent :
      LinkOptions → i.Store → Result LinkError (Option (Node i.Cid i.Data))
  loaded_parent o s = elim o.parent_cid [
    | none ↦ ok o.parent
    | some c ↦
        if not (i.is_dag_pb c)
        then err invalid_parent_cid
        else elim (i.get c s) [ none ↦ err not_found | some b ↦ ok (some (i.decode b)) ]
  ]

  abbrev pub without : JsString → List (Link i.Cid) → List (Link i.Cid)
  without name links = filter (λ l. not (l.name == name)) links

  abbrev pub linked_node : Node i.Cid i.Data → i.Data → JsString → i.Cid → ℕ → Node i.Cid i.Data
  linked_node parent d name cid size = i.prepare (record {
    meta = some (i.touched d);
    links = without name parent.links ++ record { name = name; tsize = size; hash = cid } ∷ [];
  })

  -- `addToDirectory`
  unfoldable pub add_to_directory :
      Node i.Cid i.Data → i.Data → JsString → i.Cid → ℕ → Bool → i.Store → Linked
  add_to_directory parent d name cid size flush s =
      let node = linked_node parent d name cid size in
      let buf = i.encode node in
      record {
        node = node;
        cid = i.digest buf;
        size = i.size buf;
        store = if flush then i.put (i.digest buf) buf s else s;
      }

  -- The operations on shards are arguments: `addToShardedDirectory` and
  -- `convertToShardedDirectory`, on the parent and the new link, and `removeFromShardedDirectory`.
  pub record Sharding : Type 0 where
    pub add_to_sharded_directory : Node i.Cid i.Data → Link i.Cid → i.Store → Added
    pub convert_to_sharded_directory : Node i.Cid i.Data → Link i.Cid → i.Store → Added
    pub remove_from_sharded_directory : Node i.Cid i.Data → JsString → i.Store → Added

  module _ (sharding : Sharding) where
    unfoldable pub add_to_parent :
        Node i.Cid i.Data → JsString → i.Cid → ℕ → Bool → ℕ → i.Store → Added
    unfolding add_to_directory
    add_to_parent parent name cid size flush threshold s = elim parent.meta [
      | none ↦ err parent_without_data
      | some d ↦
          let link : Link i.Cid = record { name = name; tsize = size; hash = cid } in
          if i.is_sharded d
          then sharding.add_to_sharded_directory parent link s
          else if leb threshold (length parent.links)
          then sharding.convert_to_sharded_directory parent link s
          else ok (add_to_directory parent d name cid size flush s)
    ]

    -- `addLink`
    unfoldable pub add_link : LinkOptions → i.Store → Added
    unfolding loaded_parent add_to_parent
    add_link o s = do
      found ← loaded_parent o s
      parent ← or_throw found invalid_parent
      cid ← or_throw o.cid invalid_child_cid
      _ ← throw_if (o.name == []) invalid_child_name
      size ← or_throw o.size invalid_child_size
      add_to_parent parent o.name cid size o.flush o.shard_split_threshold s

    -- The loop of `updateTree` behind its first round, on the entries that are left, the root last.
    unfoldable pub update_from :
        Bool
        → ℕ
        → Child i.Cid
        → List (TrailEntry i.Cid)
        → i.Store
        → Result LinkError (i.Cid × i.Store)
    unfolding add_link
    update_from flush threshold child [] s = ok (child.cid, s)
    update_from flush threshold child (e ∷ es) s = do
      block ← or_throw (i.get e.cid s) not_found
      r ←
          add_link
            (record {
              parent = some (i.decode block);
              parent_cid = none;
              cid = some child.cid;
              name = child.name;
              size = some child.size;
              flush = flush;
              shard_split_threshold = threshold;
            })
            s
      update_from flush threshold (record { name = e.name; cid = r.cid; size = r.size }) es r.store

    unfoldable pub update_reversed :
        Bool → ℕ → List (TrailEntry i.Cid) → i.Store → Result LinkError (i.Cid × i.Store)
    unfolding update_from
    update_reversed flush threshold [] s = err no_trail
    update_reversed flush threshold (leaf ∷ parents) s = do
      block ← or_throw (i.get leaf.cid s) not_found
      update_from flush threshold (record { name = leaf.name; cid = leaf.cid; size = i.size block })
          parents s

    -- `updateTree`: the new CID of the root.
    unfoldable pub update_tree :
        Bool → ℕ → List (TrailEntry i.Cid) → i.Store → Result LinkError (i.Cid × i.Store)
    unfolding update_reversed
    update_tree flush threshold trail s = update_reversed flush threshold (reversed_onto trail []) s

  -- `removeFromDirectory`
  unfoldable pub remove_from_directory : Node i.Cid i.Data → JsString → i.Store → Linked
  remove_from_directory parent name s =
      let node : Node i.Cid i.Data = record {
        meta = parent.meta;
        links = without name parent.links;
      } in
      let buf = i.encode node in
      record {
        node = node;
        cid = i.digest buf;
        size = i.size buf;
        store = i.put (i.digest buf) buf s;
      }

  -- `removeLink`, of a parent that is given by its CID or as a node.
  unfoldable pub remove_link :
      Sharding → Option (Node i.Cid i.Data) → Option i.Cid → JsString → i.Store → Added
  unfolding remove_from_directory
  remove_link sharding parent parent_cid name s = do
    found ← elim parent_cid [
      | none ↦ ok parent
      | some c ↦ elim (i.get c s) [ none ↦ err not_found | some b ↦ ok (some (i.decode b)) ]
    ]
    node ← or_throw found invalid_parent
    _ ← throw_if (name == []) invalid_child_name
    d ← or_throw node.meta parent_without_data
    if i.is_sharded d
        then sharding.remove_from_sharded_directory node name s
        else ok (remove_from_directory node name s)
