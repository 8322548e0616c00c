-- ===== src/Files/Commands.antt =====
-- packages/ipfs-core/src/components/files: rm.js, cp.js, mv.js and mkdir.js, over the directories of
-- Files/Tree. What an operation stores before it throws is left out of the store that it leaves, which
-- only lacks blocks that no root leads to; the root is the one of that moment.
mod Tests
pub mod Mkdir
pub mod Cp
pub mod Remove
mod Trails
pub mod Copied
pub mod Moved
use js_ipfs.Prelude.{
  ℕ, ◌-◌, Bool, true, false, not, Option, none, some, List, [], ◌∷◌, ◌++◌, ◌==◌, JsString, length,
  if◌then◌else◌, string_eq, nat_beq, leb, is_some, or_else, Result, ok, err, ◌>>=◌, or_throw,
  throw_if, map, take, last?, ◌&&◌, ◌||◌,
}
use js_ipfs.Files.Tree.{
  Ipld, LinkError, TrailEntry, Sharding, reversed_onto, remove_link, add_link, update_tree,
}

pub data CommandError : Type 0 where
  invalid_params missing was_dir already_exists invalid_path not_unixfs unreadable : CommandError
  no_parent : CommandError
  failed : LinkError → CommandError

pub data EntryType : Type 0 where
  file directory raw object identity : EntryType

-- An entry that the exporter gives.
pub record Entry (C : Type 0) : Type 0 where
  pub at : TrailEntry C
  pub type : EntryType

abbrev pub is_dir : EntryType → Bool
is_dir directory = true
is_dir file = false
is_dir raw = false
is_dir object = false
is_dir identity = false

abbrev pub is_unixfs : EntryType → Bool
is_unixfs directory = true
is_unixfs file = true
is_unixfs raw = false
is_unixfs object = false
is_unixfs identity = false

pub on_link : {A : Type 0} → Result LinkError A → Result CommandError A
on_link (ok a) = ok a
on_link (err e) = err (failed e)

-- `catch` of `ERR_NOT_FOUND`
pub if_found : {A : Type 0} → Result CommandError A → Result CommandError (Option A)
if_found (ok a) = ok (some a)
if_found (err missing) = ok none
if_found (err invalid_params) = err invalid_params
if_found (err was_dir) = err was_dir
if_found (err already_exists) = err already_exists
if_found (err invalid_path) = err invalid_path
if_found (err not_unixfs) = err not_unixfs
if_found (err unreadable) = err unreadable
if_found (err no_parent) = err no_parent
if_found (err (failed e)) = err (failed e)

pub record Options : Type 0 where
  pub recursive : Bool
  pub parents : Bool
  pub flush : Bool
  pub threshold : ℕ

-- A path: below the MFS root, or below `/ipfs/<cid>`.
pub record Location (C : Type 0) : Type 0 where
  pub cid : Option C
  pub parts : List JsString

module _ (i : Ipld) where
  -- The MFS root of the datastore, and the blocks.
  pub record Mfs : Type 0 where
    pub root : i.Cid
    pub store : i.Store

  -- ipfs-unixfs-exporter on `/ipfs/<cid>/<parts>`, and the text of a CID.
  pub record Exporter : Type 0 where
    pub exporter : i.Cid → List JsString → i.Store → Result CommandError (Entry i.Cid)
    pub walk_path : i.Cid → List JsString → i.Store → Result CommandError (List (Entry i.Cid))
    pub text : i.Cid → JsString

  -- What `toMfsPath` gives: the tree that the path is in, and the entry when there is one.
  pub record Located : Type 0 where
    pub base : i.Cid
    pub path : Location i.Cid
    pub entry : Option (Entry i.Cid)
    pub name : JsString

  abbrev pub found_type : Located → Option EntryType
  found_type l = elim l.entry [ none ↦ none | some e ↦ some e.type ]

  -- `isDirectory`
  abbrev pub is_directory : Located → Bool
  is_directory l = elim l.entry [ none ↦ false | some e ↦ is_dir e.type ]

  abbrev pub but_last_parts : List JsString → List JsString
  but_last_parts parts = take (length parts - 1) parts

  module _ (x : Exporter) (sharding : Sharding i) where
    -- A name that is `undefined` is the empty one.
    abbrev pub name_of : Location i.Cid → JsString
    name_of p = elim (last? p.parts) [
      | some n ↦ n
      | none ↦ elim p.cid [ none ↦ [] | some c ↦ x.text c ]
    ]

    -- `toMfsPath`
    pub to_mfs_path : Location i.Cid → Mfs → Result CommandError Located
    unfolding if_found
    to_mfs_path p m = do
      entry ← if_found (x.exporter (or_else p.cid m.root) p.parts m.store)
      ok (record { base = or_else p.cid m.root; path = p; entry = entry; name = name_of p })

    -- `toTrail`
    abbrev pub to_trail : i.Cid → List JsString → i.Store → Result CommandError (List (Entry i.Cid))
    to_trail base parts s = x.walk_path base parts s

    -- `removePath` behind `toTrail`; the last entry of the trail comes first.
    pub remove_last : Options → List (Entry i.Cid) → Mfs → Result CommandError Mfs
    unfolding on_link
    remove_last o [] m = err missing
    remove_last o (child ∷ []) m = err missing
    remove_last o (child ∷ parent ∷ above) m = do
      _ ← throw_if (is_dir child.type && not o.recursive) was_dir
      r ← on_link (remove_link i sharding none (some parent.at.cid) child.at.name m.store)
      (root, t) ← on_link (
          update_tree i sharding o.flush o.threshold
            (reversed_onto (record { name = parent.at.name; cid = r.cid } ∷ map (λ e. e.at) above)
              [])
            r.store)
      ok (record { root = root; store = t })

    pub remove_path : Options → Location i.Cid → Mfs → Result CommandError Mfs
    unfolding remove_last to_mfs_path
    remove_path o p m = do
      l ← to_mfs_path p m
      trail ← to_trail l.base p.parts m.store
      remove_last o (reversed_onto trail []) m

    pub to_mfs_paths : List (Location i.Cid) → Mfs → Result CommandError (List Located)
    unfolding to_mfs_path
    to_mfs_paths [] m = ok []
    to_mfs_paths (p ∷ ps) m = do l ← to_mfs_path p m; ls ← to_mfs_paths ps m; ok (l ∷ ls)

    -- The loop of `mfsRm`: what was removed before a path that fails stays removed.
    pub remove_paths : Options → List (Location i.Cid) → Mfs → Mfs × Option CommandError
    unfolding remove_path
    remove_paths o [] m = (m, none)
    remove_paths o (p ∷ ps) m = elim (remove_path o p m) [
      | err e ↦ (m, some e)
      | ok m' ↦ remove_paths o ps m'
    ]

    -- The path is `/`.
    abbrev pub is_root : Location i.Cid → Bool
    is_root p = not (is_some p.cid) && nat_beq (length p.parts) 0

    abbrev pub some_root : List (Location i.Cid) → Bool
    some_root [] = false
    some_root (p ∷ ps) = is_root p || some_root ps

    -- `mfsRm`
    pub rm : Options → List (Location i.Cid) → Mfs → Mfs × Option CommandError
    unfolding remove_paths to_mfs_paths
    rm o ps m = elim (to_mfs_paths ps m) [
      | err e ↦ (m, some e)
      | ok ls ↦
          if nat_beq (length ls) 0 || some_root ps
          then (m, some invalid_params)
          else remove_paths o ps m
    ]
