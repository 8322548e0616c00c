-- ===== src/Files/Commands/Remove.antt =====
-- `rm`: what the new root leads to.
use mathlib.Core.Path.{sym, ◌∙◌, ap}
use js_ipfs.Prelude.{
  ◌≡◌, refl, true, false, not, none, some, List, [], ◌∷◌, ◌==◌, JsString, string_eq, ℕ, inl, inr,
  ok, beq_refl, Bool-cases, if◌then◌else◌, map, or_else, ◌&&◌, Result, append-nil,
}
use js_ipfs.Files.Tree.{
  Ipld, link_of, remove_from_directory, remove_link, Sharding, TrailEntry, reversed_onto,
}
use js_ipfs.Files.Tree.Links.{IsIpld, remove_from_directory-link_of}
use js_ipfs.Files.Tree.Walk.{
  walk, IsAddressed, Keeps, IsPlain, below, put-Keeps, put-IsAddressed, reversed_onto-twice,
  walk-Keeps,
}
use js_ipfs.Files.Tree.Frame.{
  apart, IsTrail, root_of, Frames, IsTrail-Keeps, walk-found, update_tree-IsRewritten, apart-nil,
}
use js_ipfs.Files.Commands.{
  Entry, is_dir, Options, Location, Mfs, Exporter, remove_last, remove_path, to_mfs_path,
  CommandError, on_link, if_found, is_root, rm, Located, name_of, remove_paths, to_mfs_paths,
}

module _ (i : Ipld) where
  abbrev pub places : List (Entry i.Cid) → List (TrailEntry i.Cid)
  places es = map (λ e. e.at) es

  -- The exporter walks a path from a CID through plain directories, each of which holds the link to
  -- the next entry, and the names of the entries are the path.
  pub record IsResolved (x : Exporter i) (threshold : ℕ) (base : i.Cid) (parts : List JsString)
      (s : i.Store) (child : Entry i.Cid) (above : List (Entry i.Cid)) : Type 0 where
    pub walked : x.walk_path base parts s ≡ ok (reversed_onto (child ∷ above) [])
    pub linked : IsTrail i threshold s child.at.name child.at.cid (places above)
    pub based : root_of i child.at.cid (places above) ≡ base
    pub named : below child.at.name (places above) [] ≡ parts

  abbrev pub located : Exporter i → Sharding i → Location i.Cid → Mfs i → Entry i.Cid → Located i
  located x sharding p m entry = record {
    base = or_else p.cid m.root;
    path = p;
    entry = some entry;
    name = name_of i x sharding p;
  }

module _ (i : Ipld) (law : IsIpld i) where
  remove_link-plain :
      (sharding : Sharding i) (threshold : ℕ) (c : i.Cid) (b : i.Block) (name : JsString)
      (s : i.Store)
      → i.get c s ≡ some b
      → IsPlain i threshold (i.decode b)
      → (name == []) ≡ false
      → remove_link i sharding none (some c) name s
        ≡ ok (remove_from_directory i (i.decode b) name s)
  unfolding remove_link
  remove_link-plain sharding threshold c b name s found plain named =
      rw (found, named, plain.has_data, plain.unsharded) refl

  removed-found :
      (b : i.Block) (name : JsString) (s t : i.Store) (n : JsString) (q : List JsString)
      → let r = remove_from_directory i (i.decode b) name s in
        Keeps i r.store t
        → walk i (n ∷ q) r.cid t ≡ (
            if name == n
            then none
            else elim (link_of n (i.decode b).links) [ none ↦ none | some l ↦ walk i q l.hash t ])
  unfolding remove_from_directory
  removed-found b name s t n q k =
      let r = remove_from_directory i (i.decode b) name s in
      let (link, stored) = remove_from_directory-link_of i law (i.decode b) name s n in
      let back : i.decode (i.encode r.node) ≡ r.node = law.decode-removed b name in
      walk-found i law n q r.cid t (i.encode r.node) (k _ _ stored)
      ∙ ap (λ m. elim (link_of n m.links) [ none ↦ none | some l ↦ walk i q l.hash t ]) back
      ∙ ap (λ o. elim o [ none ↦ none | some l ↦ walk i q l.hash t ]) link
      ∙ (elim (Bool-cases (name == n)) [ inl e ↦ rw e refl | inr e ↦ rw e refl ])

  removed-Frames :
      (b : i.Block) (name : JsString) (c : i.Cid) (s : i.Store)
      → IsAddressed i s
      → i.get c s ≡ some b
      → let r = remove_from_directory i (i.decode b) name s in Frames i r.store (name ∷ []) c r.cid
  unfolding remove_from_directory
  removed-Frames b name c s h found t k [] g part w = cc
  removed-Frames b name c s h found t k (n ∷ q) g part w =
      let r = remove_from_directory i (i.decode b) name s in
      let there : i.get c t ≡ some b = k c b (put-Keeps i law s (i.encode r.node) h c b found) in
      let before = sym (walk-found i law n q c t b there) ∙ w in
      let after = removed-found b name s t n q k in
      elim (Bool-cases (name == n)) [
        | inl e ↦
            let same : name ≡ n = (string_eq.beq_iff _ _).0 e in
            let parted : apart q [] ≡ true = rw (sym same, beq_refl name) at part in
            let never = apart-nil q in cc
        | inr e ↦ after ∙ (rw e before)
      ]

  -- What is left under a new root.
  abbrev pub Unlinked : Mfs i → List JsString → i.Cid → Result CommandError (Mfs i) → Type 0
  Unlinked m parts base r =
      (m' : Mfs i) × (r ≡ ok m')
      × (walk i parts m'.root m'.store ≡ none)
      × Frames i m'.store parts base m'.root
      × Keeps i m.store m'.store
      × IsAddressed i m'.store

  remove_last-Unlinked :
      (x : Exporter i) (sharding : Sharding i) (o : Options) (m : Mfs i)
      (child parent : Entry i.Cid) (above : List (Entry i.Cid))
      → o.flush ≡ true
      → (is_dir child.type && not o.recursive) ≡ false
      → IsAddressed i m.store
      → IsTrail i o.threshold m.store child.at.name child.at.cid (places i (parent ∷ above))
      → Unlinked m
          (below child.at.name (places i (parent ∷ above)) [])
          (root_of i child.at.cid (places i (parent ∷ above)))
          (remove_last i x sharding o (child ∷ parent ∷ above) m)
  unfolding remove_last remove_from_directory on_link walk
  remove_last-Unlinked x sharding o m child parent above flush allowed h
        (named, (b, found, plain, _), up) =
      let r = remove_from_directory i (i.decode b) child.at.name m.store in
      let kept : Keeps i m.store r.store = put-Keeps i law m.store (i.encode r.node) h in
      let (root, t, ran, (kept', h', reached, frames)) =
        update_tree-IsRewritten i law sharding o.threshold parent.at.name parent.at.cid r.cid
          (i.encode r.node) (places i above) r.store
          (put-IsAddressed i law m.store (i.encode r.node) h)
          (remove_from_directory-link_of i law (i.decode b) child.at.name m.store []).1
          (IsTrail-Keeps i law o.threshold m.store r.store parent.at.name parent.at.cid
            (places i above) kept up) in
      let gone : walk i (child.at.name ∷ []) r.cid t ≡ none =
        removed-found b child.at.name m.store t child.at.name [] kept'
        ∙ (rw (beq_refl child.at.name) refl) in
      (
        record { root = root; store = t },
        rw
            (
              allowed,
              remove_link-plain sharding o.threshold parent.at.cid b child.at.name m.store found
                  plain named,
              flush,
            )
            (rw ran refl),
        reached (child.at.name ∷ []) ∙ gone,
        frames (child.at.name ∷ []) (removed-Frames b child.at.name parent.at.cid m.store h found),
        (λ c a f. kept' c a (kept c a f)),
        h',
      )

  remove_path-Unlinked :
      (x : Exporter i) (sharding : Sharding i) (o : Options) (p : Location i.Cid) (m : Mfs i)
      (entry child parent : Entry i.Cid) (above : List (Entry i.Cid))
      → o.flush ≡ true
      → (is_dir child.type && not o.recursive) ≡ false
      → IsAddressed i m.store
      → x.exporter (or_else p.cid m.root) p.parts m.store ≡ ok entry
      → IsResolved i x o.threshold (or_else p.cid m.root) p.parts m.store child (parent ∷ above)
      → Unlinked m p.parts (or_else p.cid m.root) (remove_path i x sharding o p m)
  unfolding remove_path to_mfs_path if_found
  remove_path-Unlinked x sharding o p m entry child parent above flush allowed h exported resolved =
      let turned : reversed_onto (reversed_onto (child ∷ parent ∷ above) []) []
          ≡ child ∷ parent ∷ above =
        reversed_onto-twice (child ∷ parent ∷ above) [] [] ∙ append-nil (child ∷ parent ∷ above) in
      rw (exported, resolved.walked, turned, sym resolved.named, sym resolved.based)
        (remove_last-Unlinked x sharding o m child parent above flush allowed h resolved.linked)

  pub one_path :
      (x : Exporter i) (sharding : Sharding i) (p : Location i.Cid) (m : Mfs i)
      (entry : Entry i.Cid)
      → x.exporter (or_else p.cid m.root) p.parts m.store ≡ ok entry
      → to_mfs_paths i x sharding (p ∷ []) m ≡ ok (located i x sharding p m entry ∷ [])
  unfolding to_mfs_paths to_mfs_path if_found
  one_path x sharding p m entry exported = rw exported refl

  -- `mfsRm` of one path that the exporter walks through plain directories gives a root from which the
  -- path leads nowhere, while every path that parts from it leads to the CID it led to before. The
  -- options have `flush`, and `recursive` if the entry is a directory.
  pub rm-walk :
      (x : Exporter i) (sharding : Sharding i) (o : Options) (p : Location i.Cid) (m : Mfs i)
      (entry child parent : Entry i.Cid) (above : List (Entry i.Cid)) (q : List JsString)
      (g : i.Cid)
      → o.flush ≡ true
      → (is_dir child.type && not o.recursive) ≡ false
      → IsAddressed i m.store
      → is_root i x sharding p ≡ false
      → x.exporter (or_else p.cid m.root) p.parts m.store ≡ ok entry
      → IsResolved i x o.threshold (or_else p.cid m.root) p.parts m.store child (parent ∷ above)
      → apart q p.parts ≡ true
      → walk i q (or_else p.cid m.root) m.store ≡ some g
      → (m' : Mfs i) × (rm i x sharding o (p ∷ []) m ≡ (m', none))
        × (walk i p.parts m'.root m'.store ≡ none)
        × (walk i q m'.root m'.store ≡ some g)
  unfolding rm remove_paths
  rm-walk x sharding o p m entry child parent above q g flush allowed h inside exported resolved
        part w =
      let (m', ran, gone, frames, kept, h') =
        remove_path-Unlinked x sharding o p m entry child parent above flush allowed h exported
          resolved in
      (
        m',
        rw (one_path x sharding p m entry exported, rm) (rw inside (rw (ran, remove_paths) refl)),
        gone,
        frames m'.store (λ c b f. f) q g part
            (walk-Keeps i law m.store m'.store kept q (or_else p.cid m.root) g w),
      )
