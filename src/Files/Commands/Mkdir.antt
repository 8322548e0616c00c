-- ===== src/Files/Commands/Mkdir.antt =====
-- packages/ipfs-core/src/components/files/mkdir.js
use js_ipfs.Prelude.{
  Bool, true, false, not, Option, none, some, List, [], ◌∷◌, ◌++◌, JsString, if◌then◌else◌, is_some,
  Result, ok, err, ◌>>=◌, throw_if, ◌&&◌,
}
use js_ipfs.Files.Tree.{Ipld, TrailEntry, Sharding, reversed_onto, add_link, update_tree}
use js_ipfs.Files.Commands.{
  CommandError, invalid_path, missing, already_exists, not_unixfs, no_parent, Entry, is_unixfs,
  on_link, if_found, Options, Mfs, Exporter, Location, is_root,
}

module _ (i : Ipld) (x : Exporter i) (sharding : Sharding i) where
  -- The trail, its last entry first, and the blocks.
  pub record Progress : Type 0 where
    pub trail : List (TrailEntry i.Cid)
    pub store : i.Store

  -- `addEmptyDir`; without a trail there is no parent to read.
  unfoldable pub add_empty_dir :
      Options → JsString → i.Cid → Progress → Result CommandError Progress
  unfolding on_link
  add_empty_dir o child empty p = elim p.trail [
    | [] ↦ err no_parent
    | parent ∷ above ↦ do
      r ← on_link (
          add_link i sharding
            (record {
              parent = none;
              parent_cid = some parent.cid;
              cid = some empty;
              name = child;
              size = some 0;
              flush = o.flush;
              shard_split_threshold = o.threshold;
            })
            p.store)
      ok (record {
        trail =
            record { name = child; cid = empty }
            ∷ record { name = parent.name; cid = r.cid }
            ∷ above;
        store = r.store;
      })
  ]

  -- A round of the loop, at the entry that the exporter finds under the prefix; nothing when the
  -- function returns in it.
  unfoldable pub round :
      Options
      → JsString
      → i.Cid
      → Bool
      → Option (Entry i.Cid)
      → Progress
      → Result CommandError (Option Progress)
  unfolding add_empty_dir
  round o name empty last (some e) p = do
    _ ← throw_if (not (is_unixfs e.type)) not_unixfs
    _ ← throw_if (last && not o.parents) already_exists
    ok (if last then none else some (record { trail = e.at ∷ p.trail; store = p.store }))
  round o name empty last none p = do
    _ ← throw_if (not last && not o.parents) missing
    p' ← add_empty_dir o name empty p
    ok (some p')

  -- The loop, at the path components behind a prefix whose last component is `name`.
  unfoldable pub rounds :
      Options
      → i.Cid
      → i.Cid
      → List JsString
      → JsString
      → List JsString
      → Progress
      → Result CommandError (Option Progress)
  unfolding round if_found
  rounds o root empty prefix name [] p = do
    e ← if_found (x.exporter root prefix p.store)
    round o name empty true e p
  rounds o root empty prefix name (n ∷ ns) p = do
    e ← if_found (x.exporter root prefix p.store)
    next ← round o name empty false e p
    elim next [ none ↦ ok none | some p' ↦ rounds o root empty (prefix ++ n ∷ []) n ns p' ]

  -- `mfsMkdir`; `create_node` gives the CID of an empty directory, and the store with its block.
  unfoldable pub mkdir :
      Options → (i.Store → i.Cid × i.Store) → Location i.Cid → Mfs i → Result CommandError (Mfs i)
  unfolding rounds on_link
  mkdir o create_node p m =
      if is_root i x sharding p then (if o.parents then ok m else err invalid_path) else do
        _ ← throw_if (is_some p.cid) invalid_path
        let (empty, s) = create_node m.store
        done ← rounds o m.root empty [] [] p.parts (record { trail = []; store = s })
        elim done [
          | none ↦ ok (record { root = m.root; store = s })
          | some q ↦ do
            (root, t) ←
                on_link
                  (update_tree i sharding o.flush o.threshold (reversed_onto q.trail []) q.store)
            ok (record { root = root; store = t })
        ]
