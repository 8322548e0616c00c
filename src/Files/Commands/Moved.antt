-- ===== src/Files/Commands/Moved.antt =====
-- `mv`: the copy stays and the source goes.
use js_ipfs.Prelude.{◌≡◌, ◌∙◌, refl, true, false, none, some, List, [], ◌∷◌, ok, or_else, arith}
use js_ipfs.Files.Tree.{Ipld, Sharding}
use js_ipfs.Files.Tree.Links.{IsIpld}
use js_ipfs.Files.Tree.Walk.{walk, IsAddressed}
use js_ipfs.Files.Tree.Frame.{apart}
use js_ipfs.Files.Commands.{Entry, Options, Location, Mfs, Exporter, is_root, rm}
use js_ipfs.Files.Commands.Cp.{cp, mv}
use js_ipfs.Files.Commands.Remove.{IsResolved, rm-walk}

module _ (i : Ipld) (law : IsIpld i) where
  abbrev recursively : Options → Options
  recursively o = record {
    recursive = true;
    parents = o.parents;
    flush = o.flush;
    threshold = o.threshold;
  }

  mv-copied :
      (x : Exporter i) (sharding : Sharding i) (create_node : i.Store → i.Cid × i.Store)
      (o : Options) (from to : Location i.Cid) (m m' : Mfs i)
      → cp i x sharding create_node o (from ∷ []) to m ≡ ok m'
      → mv i x sharding create_node o (from ∷ []) to m
        ≡ rm i x sharding (recursively o) (from ∷ []) m'
  unfolding mv
  mv-copied x sharding create_node o from to m m' copies = rw (copies, mv) refl

  -- When `mfsCp` of one source has given a root from which the destination leads to an entry, and the
  -- exporter walks to the source from that root through plain directories, `mfsMv` ends without an
  -- error in a root from which the source leads nowhere and the destination to that entry, if the two
  -- paths part. The options have `flush`.
  pub mv-walk :
      (x : Exporter i) (sharding : Sharding i) (create_node : i.Store → i.Cid × i.Store)
      (o : Options) (from to : Location i.Cid) (m m' : Mfs i) (entry child parent : Entry i.Cid)
      (above : List (Entry i.Cid)) (g : i.Cid)
      → o.flush ≡ true
      → cp i x sharding create_node o (from ∷ []) to m ≡ ok m'
      → IsAddressed i m'.store
      → is_root i x sharding from ≡ false
      → x.exporter (or_else from.cid m'.root) from.parts m'.store ≡ ok entry
      → IsResolved i x o.threshold
          (or_else from.cid m'.root)
          from.parts
          m'.store
          child
          (parent ∷ above)
      → apart to.parts from.parts ≡ true
      → walk i to.parts (or_else from.cid m'.root) m'.store ≡ some g
      → (m'' : Mfs i) × (mv i x sharding create_node o (from ∷ []) to m ≡ (m'', none))
        × (walk i from.parts m''.root m''.store ≡ none)
        × (walk i to.parts m''.root m''.store ≡ some g)
  mv-walk x sharding create_node o from to m m' entry child parent above g flush copies h inside
        exported resolved part w =
      let (m'', ran, gone, stays) =
        rm-walk i law x sharding (recursively o) from m' entry child parent above to.parts g flush
          (ground arith) h inside exported resolved part w in
      (m'', mv-copied x sharding create_node o from to m m' copies ∙ ran, gone, stays)
