-- ===== src/Files/Tree/Frame.antt =====
-- What `updateTree` leaves as it was: every path that parts from the path of the trail.
use mathlib.Core.Path.{sym, ◌∙◌, ap}
use js_ipfs.Prelude.{
  ◌≡◌, refl, true, false, Bool, ◌||◌, not, none, some, List, [], ◌∷◌, ◌==◌, JsString, string_eq, ℕ,
  inl, inr, ok, beq_refl, append-nil, Bool-cases, if◌then◌else◌,
}
use js_ipfs.Files.Tree.{
  Link, Ipld, link_of, linked_node, add_to_directory, Sharding, TrailEntry, Child, update_from,
  update_reversed, update_tree, reversed_onto,
}
use js_ipfs.Files.Tree.Links.{IsIpld, add_to_directory-link_of}
use js_ipfs.Files.Tree.Walk.{
  walk, IsAddressed, Keeps, IsPlain, below, put-Keeps, put-IsAddressed, add_link-plain,
  reversed_onto-twice,
}

-- The two paths part at some name.
abbrev pub apart : List JsString → List JsString → Bool
apart [] p = false
apart (a ∷ q) [] = false
apart (a ∷ q) (b ∷ p) = not (a == b) || apart q p

-- No path parts from the empty one.
pub apart-nil : (q : List JsString) → apart q [] ≡ false
apart-nil [] = refl
apart-nil (n ∷ q) = refl

module _ (i : Ipld) where
  -- The entries above a child, the nearest first, are plain directories of the store, and each holds
  -- the link to the one below it. `old` is the CID of the child before the change.
  abbrev pub IsTrail : ℕ → i.Store → JsString → i.Cid → List (TrailEntry i.Cid) → Type 0
  IsTrail threshold s name old [] = Unit
  IsTrail threshold s name old (e ∷ es) =
      ((name == []) ≡ false)
      × ((b : i.Block) × (i.get e.cid s ≡ some b)
          × IsPlain i threshold (i.decode b)
          × ((l : Link i.Cid) × (link_of name (i.decode b).links ≡ some l) × (l.hash ≡ old)))
      × IsTrail threshold s e.name e.cid es

  abbrev pub root_of : i.Cid → List (TrailEntry i.Cid) → i.Cid
  root_of old [] = old
  root_of old (e ∷ es) = root_of e.cid es

  -- From one CID to another, paths that part from `p` lead where they did, in every larger store.
  abbrev pub Frames : i.Store → List JsString → i.Cid → i.Cid → Type 0
  Frames s p old new =
      (t : i.Store)
      → Keeps i s t
      → (q : List JsString) (g : i.Cid) → apart q p ≡ true
      → walk i q old t ≡ some g
      → walk i q new t ≡ some g

  abbrev pub IsRewritten :
      i.Store → Child i.Cid → i.Cid → List (TrailEntry i.Cid) → i.Cid → i.Store → Type 0
  IsRewritten s child old es root t =
      Keeps i s t
      × IsAddressed i t
      × ((p : List JsString) → walk i (below child.name es p) root t ≡ walk i p child.cid t)
      × ((p : List JsString)
          → Frames s p old child.cid
          → Frames t (below child.name es p) (root_of old es) root)

module _ (i : Ipld) (law : IsIpld i) where
  pub IsTrail-Keeps :
      (threshold : ℕ) (s t : i.Store) (name : JsString) (old : i.Cid) (es : List (TrailEntry i.Cid))
      → Keeps i s t
      → IsTrail i threshold s name old es
      → IsTrail i threshold t name old es
  IsTrail-Keeps threshold s t name old [] k u = tt
  IsTrail-Keeps threshold s t name old (e ∷ es) k (named, (b, found, plain, link), above) = (
    named,
    (b, k e.cid b found, plain, link),
    IsTrail-Keeps threshold s t e.name e.cid es k above,
  )

  pub walk-found :
      (n : JsString) (q : List JsString) (c : i.Cid) (s : i.Store) (b : i.Block)
      → i.get c s ≡ some b
      → walk i (n ∷ q) c s
        ≡ elim (link_of n (i.decode b).links) [ none ↦ none | some l ↦ walk i q l.hash s ]
  unfolding walk
  walk-found n q c s b found = rw (found, walk) refl

  -- The directory with the new link, in any larger store.
  pub linked-found :
      (b : i.Block) (d : i.Data) (name : JsString) (cid : i.Cid) (size : ℕ) (s t : i.Store)
      (n : JsString) (q : List JsString)
      → let r = add_to_directory i (i.decode b) d name cid size true s in
        Keeps i r.store t
        → walk i (n ∷ q) r.cid t ≡ (
            if name == n
            then walk i q cid t
            else elim (link_of n (i.decode b).links) [ none ↦ none | some l ↦ walk i q l.hash t ])
  unfolding add_to_directory
  linked-found b d name cid size s t n q k =
      let node = linked_node i (i.decode b) d name cid size in
      let there : i.get (i.digest (i.encode node)) t ≡ some (i.encode node) =
        k _ _ (law.get-put_self (i.digest (i.encode node)) (i.encode node) s) in
      let back : i.decode (i.encode node) ≡ node = law.decode-encode _ in
      let link = (add_to_directory-link_of i law (i.decode b) d name cid size true s n).0 in
      walk-found n q (i.digest (i.encode node)) t (i.encode node) there
      ∙ ap (λ m. elim (link_of n m.links) [ none ↦ none | some l ↦ walk i q l.hash t ]) back
      ∙ ap (λ o. elim o [ none ↦ none | some l ↦ walk i q l.hash t ]) link
      ∙ (elim (Bool-cases (name == n)) [ inl e ↦ rw e refl | inr e ↦ rw e refl ])

  -- A plain directory whose link to the child is replaced.
  linked-Frames :
      (threshold : ℕ) (b : i.Block) (d : i.Data) (child : Child i.Cid) (old c : i.Cid) (s : i.Store)
      (l : Link i.Cid) (p : List JsString)
      → IsAddressed i s
      → i.get c s ≡ some b
      → link_of child.name (i.decode b).links ≡ some l
      → l.hash ≡ old
      → Frames i s p old child.cid
      → let r = add_to_directory i (i.decode b) d child.name child.cid child.size true s in
        Frames i r.store (child.name ∷ p) c r.cid
  unfolding add_to_directory
  linked-Frames threshold b d child old c s l p h found link same frames t k [] g part w = cc
  linked-Frames threshold b d child old c s l p h found link same frames t k (n ∷ q) g part w =
      let kept : Keeps i s t = λ a x f. k a x (
        put-Keeps i law s (i.encode (linked_node i (i.decode b) d child.name child.cid child.size))
          h a x f) in
      let before = sym (walk-found n q c t b (kept c b found)) ∙ w in
      let after = linked-found b d child.name child.cid child.size s t n q k in
      elim (Bool-cases (child.name == n)) [
        | inl e ↦
            let named : child.name ≡ n = (string_eq.beq_iff _ _).0 e in
            let there : link_of n (i.decode b).links ≡ some l = rw named at link in
            let led : walk i q l.hash t ≡ some g = rw there at before in
            let parted : apart q p ≡ true = rw (sym named, beq_refl child.name) at part in
            after ∙ (rw e (frames t kept q g parted (rw same at led)))
        | inr e ↦ after ∙ (rw e before)
      ]

  update_from-IsRewritten :
      (sharding : Sharding i) (threshold : ℕ) (child : Child i.Cid) (old : i.Cid)
      (es : List (TrailEntry i.Cid)) (s : i.Store)
      → IsAddressed i s
      → IsTrail i threshold s child.name old es
      → (root : i.Cid) × (t : i.Store) × (update_from i sharding true threshold child es s
          ≡ ok (root, t))
        × IsRewritten i s child old es root t
  unfolding update_from add_to_directory
  update_from-IsRewritten sharding threshold child old [] s h u =
      (child.cid, s, refl, ((λ c b f. f), h, (λ p. refl), λ p frames. frames))
  update_from-IsRewritten sharding threshold child old (e ∷ es) s h
        (named, (b, found, plain, (l, link, same)), above) =
      let r = add_to_directory i (i.decode b) plain.held child.name child.cid child.size true s in
      let next : Child i.Cid = record { name = e.name; cid = r.cid; size = r.size } in
      let node = linked_node i (i.decode b) plain.held child.name child.cid child.size in
      let kept : Keeps i s r.store = put-Keeps i law s (i.encode node) h in
      let (root, t, ran, (kept', h', reached, frames')) =
        update_from-IsRewritten sharding threshold next e.cid es r.store
          (put-IsAddressed i law s (i.encode node) h)
          (IsTrail-Keeps threshold s r.store e.name e.cid es kept above) in
      (
        root,
        t,
        rw
            (
              found,
              add_link-plain i law sharding b child.name child.cid child.size threshold s plain
                  named,
            )
            ran,
        (
          (λ c a f. kept' c a (kept c a f)),
          h',
          (λ p.
              reached (child.name ∷ p)
              ∙ linked-found b plain.held child.name child.cid child.size s t child.name p kept'
              ∙ (rw (beq_refl child.name) refl)),
          λ p frames.
              frames' (child.name ∷ p) (
                linked-Frames threshold b plain.held child old e.cid s l p h found link same
                  frames),
        ),
      )

  -- `updateTree` of a trail whose last entry has got a new CID.
  pub update_tree-IsRewritten :
      (sharding : Sharding i) (threshold : ℕ) (name : JsString) (old new : i.Cid) (b : i.Block)
      (above : List (TrailEntry i.Cid)) (s : i.Store)
      → IsAddressed i s
      → i.get new s ≡ some b
      → IsTrail i threshold s name old above
      → let leaf : TrailEntry i.Cid = record { name = name; cid = new } in
        (root : i.Cid) × (t : i.Store) × (update_tree i sharding true threshold
            (reversed_onto (leaf ∷ above) [])
            s
          ≡ ok (root, t))
        × IsRewritten i s (record { name = name; cid = new; size = i.size b }) old above root t
  unfolding update_tree update_reversed
  update_tree-IsRewritten sharding threshold name old new b above s h found u =
      let leaf : TrailEntry i.Cid = record { name = name; cid = new } in
      let (root, t, ran, written) =
        update_from-IsRewritten sharding threshold
          (record { name = name; cid = new; size = i.size b }) old above s h u in
      let turned : reversed_onto (reversed_onto (leaf ∷ above) []) [] ≡ leaf ∷ above =
        reversed_onto-twice (leaf ∷ above) [] [] ∙ append-nil (leaf ∷ above) in
      (root, t, rw turned (rw found ran), written)
