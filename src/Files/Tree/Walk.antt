-- ===== src/Files/Tree/Walk.antt =====
-- Paths from a root, before and after `updateTree`.
use mathlib.Core.Path.{sym, ◌∙◌, ap}
use js_ipfs.Prelude.{
  ◌≡◌, refl, true, false, Option, none, some, List, [], ◌∷◌, ◌++◌, ◌==◌, JsString, string_eq, ℕ,
  leb, length, inl, inr, drop, ok, beq_refl, Option-cases, append-nil,
}
use js_ipfs.Files.Tree.{
  Link, Node, Ipld, link_of, linked_node, add_to_directory, Sharding, add_to_parent, add_link,
  TrailEntry, Child, update_from, update_reversed, update_tree, reversed_onto, loaded_parent,
}
use js_ipfs.Files.Tree.Links.{IsIpld, add_to_directory-link_of}

module _ (i : Ipld) where
  -- The CID that a path leads to from a root, through the blocks of a store.
  unfoldable pub walk : List JsString → i.Cid → i.Store → Option i.Cid
  walk [] c s = some c
  walk (n ∷ ns) c s = elim (i.get c s) [
    | none ↦ none
    | some b ↦ elim (link_of n (i.decode b).links) [ none ↦ none | some l ↦ walk ns l.hash s ]
  ]

  -- A store that has no wrong block under a digest.
  abbrev pub IsAddressed : i.Store → Type 0
  IsAddressed s = (a b : i.Block) → i.get (i.digest a) s ≡ some b → b ≡ a

  abbrev pub Keeps : i.Store → i.Store → Type 0
  Keeps s t = (c : i.Cid) (b : i.Block) → i.get c s ≡ some b → i.get c t ≡ some b

  -- A directory that takes another link without shards.
  pub record IsPlain (threshold : ℕ) (n : Node i.Cid i.Data) : Type 0 where
    pub held : i.Data
    pub has_data : n.meta ≡ some held
    pub unsharded : i.is_sharded held ≡ false
    pub small : leb threshold (length n.links) ≡ false

  -- The entries above a child are in the store and are plain directories, and each child has a name.
  abbrev pub IsUpdatable : ℕ → i.Store → JsString → List (TrailEntry i.Cid) → Type 0
  IsUpdatable threshold s name [] = Unit
  IsUpdatable threshold s name (e ∷ es) =
      ((name == []) ≡ false)
      × ((b : i.Block) × (i.get e.cid s ≡ some b) × IsPlain threshold (i.decode b))
      × IsUpdatable threshold s e.name es

-- The names on the way from the root to the child, and then a path.
abbrev pub below : {C : Type 0} → JsString → List (TrailEntry C) → List JsString → List JsString
below name [] p = p
below name (e ∷ es) p = below e.name es (name ∷ p)

abbrev pub names : {C : Type 0} → List (TrailEntry C) → List JsString
names [] = []
names (e ∷ es) = e.name ∷ names es

pub names-reversed_onto :
    {C : Type 0} (es acc : List (TrailEntry C))
    → names (reversed_onto es acc) ≡ reversed_onto (names es) (names acc)
names-reversed_onto [] acc = refl
names-reversed_onto (e ∷ es) acc = names-reversed_onto es (e ∷ acc)

pub reversed_onto-twice :
    {A : Type 0} (xs ys acc : List A)
    → reversed_onto (reversed_onto xs ys) acc ≡ reversed_onto ys (xs ++ acc)
reversed_onto-twice [] ys acc = refl
reversed_onto-twice (x ∷ xs) ys acc = reversed_onto-twice xs (x ∷ ys) acc

-- Without the root, the names of a trail are the path from the root to the child.
pub below-reversed_onto :
    {C : Type 0} (name : JsString) (es : List (TrailEntry C)) (p : List JsString)
    → drop 1 (reversed_onto (names es) (name ∷ p)) ≡ below name es p
below-reversed_onto name [] p = refl
below-reversed_onto name (e ∷ es) p = below-reversed_onto e.name es (name ∷ p)

module _ (i : Ipld) (law : IsIpld i) where
  pub walk-Keeps :
      (s t : i.Store) (k : Keeps i s t) (p : List JsString) (c g : i.Cid)
      → walk i p c s ≡ some g
      → walk i p c t ≡ some g
  unfolding walk
  walk-Keeps s t k [] c g h = h
  walk-Keeps s t k (n ∷ p) c g h = elim (Option-cases (i.get c s)) [
    | inl missing ↦ cc (rw (missing, walk) at h)
    | inr (b, found) ↦ elim (Option-cases (link_of n (i.decode b).links)) [
      | inl no_link ↦ cc (rw no_link at (rw (found, walk) at h))
      | inr (l, link) ↦
          rw (k c b found, walk)
            (rw link (walk-Keeps s t k p l.hash g (rw link at (rw (found, walk) at h))))
    ]
  ]

  pub walk-link :
      (n : JsString) (p : List JsString) (c g : i.Cid) (s : i.Store) (b : i.Block) (l : Link i.Cid)
      → i.get c s ≡ some b
      → link_of n (i.decode b).links ≡ some l
      → walk i p l.hash s ≡ some g
      → walk i (n ∷ p) c s ≡ some g
  unfolding walk
  walk-link n p c g s b l found link w = rw (found, walk) (rw link w)

  pub put-Keeps : (s : i.Store) (b : i.Block) → IsAddressed i s → Keeps i s (i.put (i.digest b) b s)
  put-Keeps s b h c a g = elim (law.get-put c (i.digest b) b s) [
    | inl same ↦
        let q : a ≡ b = h b a (cc (same, g)) in rw (same, q) (law.get-put_self (i.digest b) b s)
    | inr kept ↦ kept ∙ g
  ]

  pub put-IsAddressed :
      (s : i.Store) (b : i.Block) → IsAddressed i s → IsAddressed i (i.put (i.digest b) b s)
  put-IsAddressed s b h a x g = elim (law.get-put (i.digest a) (i.digest b) b s) [
    | inl same ↦
        let q : a ≡ b = law.digest-injective a b same in
        let e : some x ≡ some b = sym g ∙ (rw q (law.get-put_self (i.digest b) b s)) in cc (q, e)
    | inr kept ↦ h a x (sym kept ∙ g)
  ]

  pub IsUpdatable-Keeps :
      (threshold : ℕ) (s t : i.Store) (name : JsString) (es : List (TrailEntry i.Cid))
      → Keeps i s t
      → IsUpdatable i threshold s name es
      → IsUpdatable i threshold t name es
  IsUpdatable-Keeps threshold s t name [] k u = tt
  IsUpdatable-Keeps threshold s t name (e ∷ es) k (named, (b, found, plain), above) =
      (named, (b, k e.cid b found, plain), IsUpdatable-Keeps threshold s t e.name es k above)

  -- One round: the child is linked into a plain directory, which is stored.
  linked-walk :
      (b : i.Block) (d : i.Data) (name : JsString) (cid g : i.Cid) (size : ℕ) (s : i.Store)
      (p : List JsString)
      → IsAddressed i s
      → walk i p cid s ≡ some g
      → let r = add_to_directory i (i.decode b) d name cid size true s in
        (walk i (name ∷ p) r.cid r.store ≡ some g) × Keeps i s r.store × IsAddressed i r.store
  unfolding walk add_to_directory
  linked-walk b d name cid g size s p h w =
      let node = linked_node i (i.decode b) d name cid size in
      let t = i.put (i.digest (i.encode node)) (i.encode node) s in
      let kept : Keeps i s t = put-Keeps s (i.encode node) h in
      let found : i.get (i.digest (i.encode node)) t ≡ some (i.encode node) =
        law.get-put_self (i.digest (i.encode node)) (i.encode node) s in
      let back : i.decode (i.encode node) ≡ node = law.decode-encode _ in
      let link : link_of name node.links ≡ some (record { name = name; tsize = size; hash = cid }) =
        rw (beq_refl name) at
          (add_to_directory-link_of i law (i.decode b) d name cid size true s name).0 in
      (
        walk-link name p (i.digest (i.encode node)) g t (i.encode node)
            (record { name = name; tsize = size; hash = cid }) found
            (ap (λ m. link_of name m.links) back ∙ link) (walk-Keeps s t kept p cid g w),
        kept,
        put-IsAddressed s (i.encode node) h,
      )

  pub add_link-plain :
      (sharding : Sharding i) (b : i.Block) (name : JsString) (cid : i.Cid) (size threshold : ℕ)
      (s : i.Store)
      → (plain : IsPlain i threshold (i.decode b)) → (name == []) ≡ false
      → add_link i sharding
          (record {
            parent = some (i.decode b);
            parent_cid = none;
            cid = some cid;
            name = name;
            size = some size;
            flush = true;
            shard_split_threshold = threshold;
          })
          s
        ≡ ok (add_to_directory i (i.decode b) plain.held name cid size true s)
  unfolding add_link loaded_parent add_to_parent
  add_link-plain sharding b name cid size threshold s plain named =
      rw (named, plain.has_data, plain.unsharded, plain.small) refl

  Updated :
      Sharding i
      → ℕ
      → Child i.Cid
      → List (TrailEntry i.Cid)
      → i.Store
      → List JsString
      → i.Cid
      → Type 0
  Updated sharding threshold child es s p g =
      (root : i.Cid) × (t : i.Store) × (update_from i sharding true threshold child es s
        ≡ ok (root, t))
      × (walk i (below child.name es p) root t ≡ some g)
      × Keeps i s t

  update_from-walk :
      (sharding : Sharding i) (threshold : ℕ) (child : Child i.Cid) (es : List (TrailEntry i.Cid))
      (s : i.Store) (p : List JsString) (g : i.Cid)
      → IsAddressed i s
      → IsUpdatable i threshold s child.name es
      → walk i p child.cid s ≡ some g
      → Updated sharding threshold child es s p g
  unfolding update_from Updated
  update_from-walk sharding threshold child [] s p g h u w = (child.cid, s, refl, w, λ c b f. f)
  update_from-walk sharding threshold child (e ∷ es) s p g h (named, (b, found, plain), above) w =
      let r = add_to_directory i (i.decode b) plain.held child.name child.cid child.size true s in
      let next : Child i.Cid = record { name = e.name; cid = r.cid; size = r.size } in
      let (w', kept, h') = linked-walk b plain.held child.name child.cid g child.size s p h w in
      let (root, t, ran, reached, kept') =
        update_from-walk sharding threshold next es r.store (child.name ∷ p) g h'
          (IsUpdatable-Keeps threshold s r.store e.name es kept above) w' in
      (
        root,
        t,
        rw
            (
              found,
              add_link-plain sharding b child.name child.cid child.size threshold s plain named,
            )
            ran,
        reached,
        λ c a f. kept' c a (kept c a f),
      )

  -- `updateTree`, with `flush`, of a trail whose leaf is in the store, whose other entries are plain
  -- directories below the threshold, and whose names below the root are not empty, gives a new root
  -- from which the names of the trail lead to the leaf; no block that was in the store is lost.
  pub update_tree-walk :
      (sharding : Sharding i) (threshold : ℕ) (leaf : TrailEntry i.Cid)
      (parents : List (TrailEntry i.Cid)) (s : i.Store) (b : i.Block)
      → IsAddressed i s
      → i.get leaf.cid s ≡ some b
      → IsUpdatable i threshold s leaf.name parents
      → let trail = reversed_onto (leaf ∷ parents) [] in
        (root : i.Cid) × (t : i.Store) × (update_tree i sharding true threshold trail s
          ≡ ok (root, t))
        × (walk i (drop 1 (names trail)) root t ≡ some leaf.cid)
        × Keeps i s t
  unfolding update_tree update_reversed Updated walk
  update_tree-walk sharding threshold leaf parents s b h found u =
      let child : Child i.Cid = record { name = leaf.name; cid = leaf.cid; size = i.size b } in
      let (root, t, ran, reached, kept) =
        update_from-walk sharding threshold child parents s [] leaf.cid h u refl in
      let path : drop 1 (names (reversed_onto (leaf ∷ parents) [])) ≡ below leaf.name parents [] =
        ap (drop 1) (names-reversed_onto (leaf ∷ parents) [])
        ∙ below-reversed_onto leaf.name parents [] in
      let turned : reversed_onto (reversed_onto (leaf ∷ parents) []) [] ≡ leaf ∷ parents =
        reversed_onto-twice (leaf ∷ parents) [] [] ∙ append-nil (leaf ∷ parents) in
      (root, t, rw turned (rw found ran), rw path reached, kept)
