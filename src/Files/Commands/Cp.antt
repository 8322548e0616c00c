-- ===== src/Files/Commands/Cp.antt =====
-- packages/ipfs-core/src/components/files: cp.js and mv.js
use js_ipfs.Prelude.{
  ℕ, Bool, true, not, Option, none, some, List, [], ◌∷◌, JsString, length, if◌then◌else◌, nat_beq,
  leb, is_some, Result, ok, err, ◌>>=◌, or_throw, throw_if, map, ◌&&◌, ◌||◌,
}
use js_ipfs.Files.Tree.{
  Ipld, not_found, invalid_parent, TrailEntry, Sharding, Linked, reversed_onto, add_link,
  update_tree,
}
use js_ipfs.Files.Commands.{
  CommandError, invalid_params, already_exists, failed, Entry, on_link, Options, Mfs, Exporter,
  Location, Located, is_directory, but_last_parts, to_mfs_path, to_mfs_paths, to_trail, rm,
}
use js_ipfs.Files.Commands.Mkdir.{mkdir}

module _ (i : Ipld) (x : Exporter i) (sharding : Sharding i) where
  -- `addSourceToParent`, of a source and a parent that are given by their CIDs
  unfoldable pub add_source_to_parent :
      Options → i.Cid → JsString → i.Cid → i.Store → Result CommandError (Linked i)
  unfolding on_link
  add_source_to_parent o source name parent s = do
    block ← or_throw (i.get source s) (failed not_found)
    on_link (
        add_link i sharding
          (record {
            parent = none;
            parent_cid = some parent;
            cid = some source;
            name = name;
            size = some (i.size block);
            flush = o.flush;
            shard_split_threshold = o.threshold;
          })
          s)

  -- The last steps of both: the tree with the new containing directory becomes the MFS root.
  unfoldable pub update_root :
      Options → List (TrailEntry i.Cid) → i.Store → Result CommandError (Mfs i)
  unfolding on_link
  update_root o trail s = do
    (root, t) ← on_link (update_tree i sharding o.flush o.threshold (reversed_onto trail []) s)
    ok (record { root = root; store = t })

  -- `copyToFile`; the last entry of the trail comes first.
  unfoldable pub copy_to_file :
      Options → i.Cid → JsString → List (TrailEntry i.Cid) → i.Store → Result CommandError (Mfs i)
  unfolding add_source_to_parent update_root
  copy_to_file o source name [] s = err invalid_params
  copy_to_file o source name (parent ∷ above) s = do
    r ← add_source_to_parent o source name parent.cid s
    update_root o (record { name = parent.name; cid = r.cid } ∷ above) r.store

  -- The loop of `copyToDirectory`: the CID of the destination behind it.
  unfoldable pub add_sources :
      Options → List (i.Cid × JsString) → i.Cid → i.Store → Result CommandError (i.Cid × i.Store)
  unfolding add_source_to_parent
  add_sources o [] destination s = ok (destination, s)
  add_sources o ((source, name) ∷ sources) destination s = do
    r ← add_source_to_parent o source name destination s
    add_sources o sources r.cid r.store

  -- `copyToDirectory`; without a trail, nothing would be left to update.
  unfoldable pub copy_to_directory :
      Options
      → List (i.Cid × JsString)
      → JsString
      → i.Cid
      → List (TrailEntry i.Cid)
      → i.Store
      → Result CommandError (Mfs i)
  unfolding add_sources update_root
  copy_to_directory o sources name destination trail s = do
    (c, t) ← add_sources o sources destination s
    update_root o (elim trail [ [] ↦ [] | e ∷ above ↦ record { name = name; cid = c } ∷ above ]) t

  -- The sources that exist, with their names; nothing when one is missing.
  unfoldable pub existing : List (Located i) → Option (List (i.Cid × JsString))
  existing [] = some []
  existing (l ∷ ls) =
      let rest = existing ls in
      elim l.entry [
        | none ↦ none
        | some e ↦ elim rest [ none ↦ none | some others ↦ some ((e.at.cid, l.name) ∷ others) ]
      ]

  module _ (create_node : i.Store → i.Cid × i.Store) where
    -- `createMkdir(context)(path, options)`, and the destination looked up again
    unfoldable pub made_then :
        Options → Location i.Cid → Location i.Cid → Mfs i → Result CommandError (Located i × Mfs i)
    unfolding to_mfs_path mkdir
    made_then o path to m = do
      _ ← throw_if (not o.parents) invalid_params
      m' ← mkdir i x sharding o create_node path m
      l ← to_mfs_path i x sharding to m'
      ok (l, m')

    -- One source and no destination: the containing folder is made when it is missing. Of `stat` only
    -- the lookup is read.
    unfoldable pub folder_for :
        Options → Location i.Cid → Located i → Mfs i → Result CommandError (Located i × Mfs i)
    unfolding made_then to_mfs_path
    folder_for o to l m = do
      let above : Location i.Cid = record { cid = to.cid; parts = but_last_parts i to.parts }
      folder ← to_mfs_path i x sharding above m
      if is_some folder.entry then ok (l, m) else made_then o above to m

    -- The destination, and what had to be made for it.
    unfoldable pub prepared :
        Options → ℕ → Location i.Cid → Located i → Mfs i → Result CommandError (Located i × Mfs i)
    unfolding made_then folder_for
    prepared o sources to l m = elim l.entry [
      | some e ↦ do
        _ ← throw_if (nat_beq sources 1 && not (is_directory i l)) already_exists
        ok (l, m)
      | none ↦
          if leb 2 sources
          then made_then o to to m
          else if is_some to.cid || leb 2 (length to.parts)
          then folder_for o to l m
          else ok (l, m)
    ]

    -- What follows in `mfsCp`, on the trail of the directory that the copies go into.
    unfoldable pub copied :
        Options
        → Bool
        → List (i.Cid × JsString)
        → Located i
        → List (Entry i.Cid)
        → Mfs i
        → Result CommandError (Mfs i)
    unfolding copy_to_file copy_to_directory
    copied o into [] l trail m = err invalid_params
    copied o into ((source, name) ∷ []) l trail m =
        copy_to_file o source (if into then name else l.name)
          (reversed_onto (map (λ e. e.at) trail) []) m.store
    copied o into (s ∷ s' ∷ ss) l trail m = do
      e ← or_throw l.entry (failed invalid_parent)
      copy_to_directory o (s ∷ s' ∷ ss) l.name e.at.cid (reversed_onto (map (λ e. e.at) trail) [])
          m.store

    -- `mfsCp`
    unfoldable pub cp :
        Options → List (Location i.Cid) → Location i.Cid → Mfs i → Result CommandError (Mfs i)
    unfolding to_mfs_paths to_mfs_path existing prepared copied
    cp o from to m = do
      sources ← to_mfs_paths i x sharding from m
      l ← to_mfs_path i x sharding to m
      _ ← throw_if (nat_beq (length sources) 0) invalid_params
      found ← or_throw (existing sources) invalid_params
      (l', m') ← prepared o (length sources) to l m
      trail ←
          to_trail i x sharding l'.base
            (if is_directory i l' then l'.path.parts else but_last_parts i l'.path.parts) m'.store
      copied o (is_directory i l) found l' trail m'

    -- `mfsMv`
    unfoldable pub mv :
        Options → List (Location i.Cid) → Location i.Cid → Mfs i → Mfs i × Option CommandError
    unfolding cp rm
    mv o from to m = elim (cp o from to m) [
      | err e ↦ (m, some e)
      | ok m' ↦
          rm i x sharding
            (record {
              recursive = true;
              parents = o.parents;
              flush = o.flush;
              threshold = o.threshold;
            })
            from m'
    ]
