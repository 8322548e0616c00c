-- ===== src/Files/Commands/Copied.antt =====
-- `cp` of one source: what the new root leads to.
use mathlib.Core.Path.{sym, ◌∙◌, ap}
use js_ipfs.Prelude.{
  ◌≡◌, ◌++◌, length, leb, refl, true, false, none, some, List, [], ◌∷◌, ◌==◌, JsString, string_eq,
  ℕ, inl, inr, ok, err, beq_refl, Bool-cases, or_else, Result,
}
use js_ipfs.Files.Tree.{
  Ipld, linked_node, add_to_directory, add_link, loaded_parent, add_to_parent, Sharding, TrailEntry,
  reversed_onto,
}
use js_ipfs.Files.Tree.Links.{IsIpld}
use js_ipfs.Files.Tree.Walk.{
  walk, IsAddressed, Keeps, IsPlain, below, put-Keeps, put-IsAddressed, walk-Keeps,
}
use js_ipfs.Files.Tree.Frame.{
  apart, IsTrail, root_of, Frames, IsTrail-Keeps, walk-found, linked-found, update_tree-IsRewritten,
  apart-nil,
}
use js_ipfs.Files.Commands.{
  Entry, Options, Location, Mfs, Located, name_of, Exporter, CommandError, missing, on_link,
  if_found, to_mfs_path,
}
use js_ipfs.Files.Commands.Cp.{
  add_source_to_parent, update_root, copy_to_file, cp, prepared, folder_for, existing, copied,
}
use js_ipfs.Files.Commands.Remove.{places, IsResolved, one_path}
use js_ipfs.Files.Commands.Trails.{last?-append, but_last-append, below-append, turned}

module _ (i : Ipld) where
  -- A directory that a link is added to, and the trail to it.
  pub record IsContainer (threshold : ℕ) (s : i.Store) (parent : TrailEntry i.Cid)
      (above : List (TrailEntry i.Cid)) : Type 0 where
    pub block : i.Block
    pub stored : i.get parent.cid s ≡ some block
    pub is_node : i.is_dag_pb parent.cid ≡ true
    pub plain : IsPlain i threshold (i.decode block)
    pub linked : IsTrail i threshold s parent.name parent.cid above

  -- The source is what the new root leads to.
  abbrev pub Copied : i.Store → List JsString → i.Cid → i.Cid → Result CommandError (Mfs i) → Type 0
  Copied s parts source base r =
      (m' : Mfs i) × (r ≡ ok m')
      × (walk i parts m'.root m'.store ≡ some source)
      × Frames i m'.store parts base m'.root
      × Keeps i s m'.store

module _ (i : Ipld) (law : IsIpld i) where
  added-Frames :
      (b : i.Block) (d : i.Data) (name : JsString) (cid c : i.Cid) (size : ℕ) (s : i.Store)
      → IsAddressed i s
      → i.get c s ≡ some b
      → let r = add_to_directory i (i.decode b) d name cid size true s in
        Frames i r.store (name ∷ []) c r.cid
  unfolding add_to_directory
  added-Frames b d name cid c size s h found t k [] g part w = cc
  added-Frames b d name cid c size s h found t k (n ∷ q) g part w =
      let node = linked_node i (i.decode b) d name cid size in
      let there : i.get c t ≡ some b = k c b (put-Keeps i law s (i.encode node) h c b found) in
      let before = sym (walk-found i law n q c t b there) ∙ w in
      let after = linked-found i law b d name cid size s t n q k in
      elim (Bool-cases (name == n)) [
        | inl e ↦
            let same : name ≡ n = (string_eq.beq_iff _ _).0 e in
            let parted : apart q [] ≡ true = rw (sym same, beq_refl name) at part in
            let never = apart-nil q in cc
        | inr e ↦ after ∙ (rw e before)
      ]

  add_source_to_parent-plain :
      (x : Exporter i) (sharding : Sharding i) (o : Options) (source : i.Cid) (sb : i.Block)
      (name : JsString) (s : i.Store) (parent : TrailEntry i.Cid) (above : List (TrailEntry i.Cid))
      → o.flush ≡ true
      → i.get source s ≡ some sb
      → (name == []) ≡ false
      → (into : IsContainer i o.threshold s parent above)
      → add_source_to_parent i x sharding o source name parent.cid s
        ≡ ok (
            add_to_directory i (i.decode into.block) into.plain.held name source (i.size sb) true s)
  unfolding add_source_to_parent on_link add_link loaded_parent add_to_parent
  add_source_to_parent-plain x sharding o source sb name s parent above flush found named into =
      rw
        (
          found, into.is_node, into.stored, named, into.plain.has_data, into.plain.unsharded,
          into.plain.small, flush,
        )
        refl

  copy_to_file-Copied :
      (x : Exporter i) (sharding : Sharding i) (o : Options) (source : i.Cid) (sb : i.Block)
      (name : JsString) (s : i.Store) (parent : TrailEntry i.Cid) (above : List (TrailEntry i.Cid))
      → o.flush ≡ true
      → IsAddressed i s
      → i.get source s ≡ some sb
      → (name == []) ≡ false
      → IsContainer i o.threshold s parent above
      → Copied i s
          (below parent.name above (name ∷ []))
          source
          (root_of i parent.cid above)
          (copy_to_file i x sharding o source name (parent ∷ above) s)
  unfolding copy_to_file update_root add_to_directory on_link walk
  copy_to_file-Copied x sharding o source sb name s parent above flush h found named into =
      let b = into.block in
      let d = into.plain.held in
      let r = add_to_directory i (i.decode b) d name source (i.size sb) true s in
      let node = linked_node i (i.decode b) d name source (i.size sb) in
      let kept : Keeps i s r.store = put-Keeps i law s (i.encode node) h in
      let (root, t, ran, (kept', h', reached, frames)) =
        update_tree-IsRewritten i law sharding o.threshold parent.name parent.cid r.cid
          (i.encode node) above r.store (put-IsAddressed i law s (i.encode node) h)
          (law.get-put_self _ _ s)
          (IsTrail-Keeps i law o.threshold s r.store parent.name parent.cid above kept
            into.linked) in
      (
        record { root = root; store = t },
        rw
            (
              add_source_to_parent-plain x sharding o source sb name s parent above flush found
                  named into,
              flush,
            )
            (rw ran refl),
        reached (name ∷ [])
            ∙ linked-found i law b d name source (i.size sb) s t name [] kept'
            ∙ (rw (beq_refl name) refl),
        frames (name ∷ []) (added-Frames b d name source parent.cid (i.size sb) s h into.stored),
        λ c a f. kept' c a (kept c a f),
      )

  abbrev new_at : i.Cid → List JsString → JsString → Located i
  new_at base folder name = record {
    base = base;
    path = record { cid = none; parts = folder ++ name ∷ [] };
    entry = none;
    name = name;
  }

  one_new :
      (x : Exporter i) (sharding : Sharding i) (create_node : i.Store → i.Cid × i.Store)
      (o : Options) (folder : List JsString) (name : JsString) (m : Mfs i) (parent : Entry i.Cid)
      → x.exporter m.root folder m.store ≡ ok parent
      → let l = new_at m.root folder name in
        prepared i x sharding create_node o 1 l.path l m ≡ ok (l, m)
  unfolding prepared folder_for to_mfs_path if_found
  one_new x sharding create_node o folder name m parent present =
      elim (Bool-cases (leb 2 (length (folder ++ name ∷ [])))) [
        | inl deep ↦ rw deep (rw (but_last-append folder name, present) refl)
        | inr flat ↦ rw flat refl
      ]

  to_mfs_path-new :
      (x : Exporter i) (sharding : Sharding i) (folder : List JsString) (name : JsString)
      (m : Mfs i)
      → x.exporter m.root (folder ++ name ∷ []) m.store ≡ err missing
      → let l = new_at m.root folder name in to_mfs_path i x sharding l.path m ≡ ok l
  unfolding to_mfs_path if_found
  to_mfs_path-new x sharding folder name m absent = rw absent (
      ap
        (λ o. ok (record {
          base = m.root;
          path = record { cid = none; parts = folder ++ name ∷ [] };
          entry = none;
          name = elim o [ some n ↦ n | none ↦ [] ];
        }))
        (last?-append folder name))

  copied-one :
      (x : Exporter i) (sharding : Sharding i) (create_node : i.Store → i.Cid × i.Store)
      (o : Options) (source : i.Cid) (n : JsString) (l : Located i) (parent : Entry i.Cid)
      (above : List (Entry i.Cid)) (m : Mfs i)
      → copied i x sharding create_node o false
          ((source, n) ∷ [])
          l
          (reversed_onto (parent ∷ above) [])
          m
        ≡ copy_to_file i x sharding o source l.name (parent.at ∷ places i above) m.store
  unfolding copied
  copied-one x sharding create_node o source n l parent above m =
      ap (λ t. copy_to_file i x sharding o source l.name t m.store)
        (turned (λ e. e.at) (parent ∷ above))

  -- `mfsCp` of one source to a path without an entry, whose containing folder the exporter walks
  -- to through plain directories, gives a root from which the new path leads to the source, while every
  -- path that parts from it leads to the CID it led to before. The options have `flush`.
  pub cp-walk :
      (x : Exporter i) (sharding : Sharding i) (create_node : i.Store → i.Cid × i.Store)
      (o : Options) (from : Location i.Cid) (folder : List JsString) (name : JsString) (m : Mfs i)
      (source parent : Entry i.Cid) (sb : i.Block) (above : List (Entry i.Cid)) (q : List JsString)
      (g : i.Cid)
      → o.flush ≡ true
      → IsAddressed i m.store
      → (name == []) ≡ false
      → x.exporter (or_else from.cid m.root) from.parts m.store ≡ ok source
      → i.get source.at.cid m.store ≡ some sb
      → x.exporter m.root (folder ++ name ∷ []) m.store ≡ err missing
      → x.exporter m.root folder m.store ≡ ok parent
      → IsResolved i x o.threshold m.root folder m.store parent above
      → IsContainer i o.threshold m.store parent.at (places i above)
      → apart q (folder ++ name ∷ []) ≡ true
      → walk i q m.root m.store ≡ some g
      → let to : Location i.Cid = record { cid = none; parts = folder ++ name ∷ [] } in
        (m' : Mfs i) × (cp i x sharding create_node o (from ∷ []) to m ≡ ok m')
        × (walk i (folder ++ name ∷ []) m'.root m'.store ≡ some source.at.cid)
        × (walk i q m'.root m'.store ≡ some g)
  unfolding cp existing
  cp-walk x sharding create_node o from folder name m source parent sb above q g flush h named
        exported stored absent present resolved into part w =
      let (m', ran, reached, frames, kept) =
        copy_to_file-Copied x sharding o source.at.cid sb name m.store parent.at (places i above)
          flush h stored named into in
      let path : below parent.at.name (places i above) (name ∷ []) ≡ folder ++ name ∷ [] =
        below-append parent.at.name (places i above) [] (name ∷ [])
        ∙ ap (λ ns. ns ++ name ∷ []) resolved.named in
      let parted : apart q (below parent.at.name (places i above) (name ∷ [])) ≡ true =
        rw path part in
      let led : walk i q (root_of i parent.at.cid (places i above)) m'.store ≡ some g =
        rw resolved.based (walk-Keeps i law m.store m'.store kept q m.root g w) in
      (
        m',
        rw
            (
              one_path i law x sharding from m source exported,
              to_mfs_path-new x sharding folder name m absent,
            )
            (rw (one_new x sharding create_node o folder name m parent present) (
              rw (but_last-append folder name, resolved.walked)
                (copied-one x sharding create_node o source.at.cid (name_of i x sharding from)
                    (new_at m.root folder name) parent above m
                  ∙ ran))),
        rw (sym path) reached,
        frames m'.store (λ c b f. f) q g parted led,
      )
