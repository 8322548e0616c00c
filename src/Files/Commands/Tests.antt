-- ===== src/Files/Commands/Tests.antt =====
-- Runs of `rm`, `cp`, `mv` and `mkdir` on a small tree.
use js_ipfs.Prelude.{
  ◌≡◌, refl, true, false, none, some, List, [], ◌∷◌, JsString, codes, ℕ, Result, ok, ◌>>=◌,
  or_throw, last?, nat_beq, length, ◌++◌, if◌then◌else◌,
}
use js_ipfs.Files.Tree.{
  Node, link_of, add_link, loaded_parent, add_to_parent, add_to_directory, update_tree,
  update_reversed, update_from, remove_link, remove_from_directory,
}
use js_ipfs.Files.Tree.Example.{
  digest, blocks, file as file_node, unsupported, blocks-IsIpld, Honest-IsAddressed,
}
use js_ipfs.Files.Tree.Walk.{walk, IsAddressed, IsPlain}
use js_ipfs.Files.Commands.{
  CommandError, missing, was_dir, EntryType, file, directory, raw, Entry, Options, Location, Mfs,
  Exporter, rm, remove_paths, remove_path, remove_last, to_mfs_paths, to_mfs_path, if_found,
  on_link,
}
use js_ipfs.Files.Commands.Mkdir.{mkdir, rounds, round, add_empty_dir}
use js_ipfs.Files.Commands.Cp.{
  cp, mv, existing, prepared, folder_for, copied, copy_to_file, copy_to_directory, add_sources,
  update_root, add_source_to_parent,
}
use js_ipfs.Files.Commands.Remove.{rm-walk}
use js_ipfs.Files.Commands.Moved.{mv-walk}
use js_ipfs.Files.Commands.Copied.{cp-walk}

abbrev type_of : Node JsString ℕ → EntryType
type_of n = elim n.meta [ none ↦ raw | some d ↦ if nat_beq d 0 then file else directory ]

abbrev entries :
    JsString → JsString → List JsString → blocks.Store → Result CommandError (List (Entry JsString))
entries name c [] s = do
  b ← or_throw (blocks.get c s) missing
  ok (record { at = record { name = name; cid = c }; type = type_of b } ∷ [])
entries name c (n ∷ ns) s = do
  b ← or_throw (blocks.get c s) missing
  l ← or_throw (link_of n b.links) missing
  rest ← entries n l.hash ns s
  ok (record { at = record { name = name; cid = c }; type = type_of b } ∷ rest)

abbrev exporters : Exporter blocks
exporters = record {
  exporter = λ c parts s. do
    es ← entries c c parts s
    or_throw (last? es) missing;
  walk_path = λ c parts s. entries c c parts s;
  text = λ c. c;
}

abbrev folder_node : Node JsString ℕ
folder_node = record {
  meta = some 1;
  links = record { name = codes "f"; tsize = 1; hash = digest file_node } ∷ [];
}

abbrev root_node : Node JsString ℕ
root_node = record {
  meta = some 1;
  links =
      record { name = codes "a"; tsize = 1; hash = digest file_node }
      ∷ record { name = codes "d"; tsize = 1; hash = digest folder_node }
      ∷ [];
}

abbrev empty_node : Node JsString ℕ
empty_node = record { meta = some 1; links = [] }

abbrev tree : Mfs blocks
tree = record {
  root = digest root_node;
  store =
      (digest file_node, file_node)
      ∷ (digest folder_node, folder_node)
      ∷ (digest root_node, root_node)
      ∷ [];
}

tree-IsAddressed : IsAddressed blocks tree.store
tree-IsAddressed = Honest-IsAddressed tree.store (refl, (refl, (refl, tt)))

abbrev options : Options
options = record { recursive = false; parents = true; flush = true; threshold = 1000 }

abbrev path : List JsString → Location JsString
path parts = record { cid = none; parts = parts }

abbrev root_entry : Entry JsString
root_entry = record { at = record { name = tree.root; cid = tree.root }; type = directory }

abbrev folder_entry : Entry JsString
folder_entry = record {
  at = record { name = codes "d"; cid = digest folder_node };
  type = directory;
}

abbrev file_entry : JsString → Entry JsString
file_entry name = record { at = record { name = name; cid = digest file_node }; type = file }

plain_folder : IsPlain blocks 1000 folder_node
plain_folder = record { held = 1; has_data = refl; unsharded = refl; small = refl }

plain_root : IsPlain blocks 1000 root_node
plain_root = record { held = 1; has_data = refl; unsharded = refl; small = refl }

rm-walk_example :
    (m' : Mfs blocks) × (rm blocks exporters unsupported options
        (path (codes "d" ∷ codes "f" ∷ []) ∷ [])
        tree
      ≡ (m', none))
    × (walk blocks (codes "d" ∷ codes "f" ∷ []) m'.root m'.store ≡ none)
    × (walk blocks (codes "a" ∷ []) m'.root m'.store ≡ some (digest file_node))
unfolding walk
rm-walk_example =
    rm-walk blocks blocks-IsIpld exporters unsupported options (path (codes "d" ∷ codes "f" ∷ []))
      tree (file_entry (codes "f")) (file_entry (codes "f")) folder_entry (root_entry ∷ [])
      (codes "a" ∷ []) (digest file_node) refl refl tree-IsAddressed refl refl
      (record {
        walked = refl;
        linked = (
          refl,
          (folder_node, refl, plain_folder, (_, refl, refl)),
          (refl, (root_node, refl, plain_root, (_, refl, refl)), tt),
        );
        based = refl;
        named = refl;
      })
      refl refl

abbrev create : blocks.Store → JsString × blocks.Store
create s = (digest empty_node, blocks.put (digest empty_node) empty_node s)

cp-walk_example :
    (m' : Mfs blocks) × (cp blocks exporters unsupported create options
        (path (codes "a" ∷ []) ∷ [])
        (path (codes "d" ∷ codes "g" ∷ []))
        tree
      ≡ ok m')
    × (walk blocks (codes "d" ∷ codes "g" ∷ []) m'.root m'.store ≡ some (digest file_node))
    × (walk blocks (codes "d" ∷ codes "f" ∷ []) m'.root m'.store ≡ some (digest file_node))
unfolding walk
cp-walk_example =
    cp-walk blocks blocks-IsIpld exporters unsupported create options (path (codes "a" ∷ []))
      (codes "d" ∷ []) (codes "g") tree (file_entry (codes "a")) folder_entry file_node
      (root_entry ∷ []) (codes "d" ∷ codes "f" ∷ []) (digest file_node) refl tree-IsAddressed refl
      refl refl refl refl
      (record {
        walked = refl;
        linked = (refl, (root_node, refl, plain_root, (_, refl, refl)), tt);
        based = refl;
        named = refl;
      })
      (record {
        block = folder_node;
        stored = refl;
        is_node = refl;
        plain = plain_folder;
        linked = (refl, (root_node, refl, plain_root, (_, refl, refl)), tt);
      })
      refl refl

abbrev new_folder : Node JsString ℕ
new_folder = record {
  meta = some 1;
  links =
      record { name = codes "f"; tsize = 1; hash = digest file_node }
      ∷ record { name = codes "g"; tsize = length (digest file_node); hash = digest file_node }
      ∷ [];
}

abbrev new_root : Node JsString ℕ
new_root = record {
  meta = some 1;
  links =
      record { name = codes "a"; tsize = 1; hash = digest file_node }
      ∷ record { name = codes "d"; tsize = length (digest new_folder); hash = digest new_folder }
      ∷ [];
}

-- Behind the copy of `/a` to `/d/g`.
abbrev copied_tree : Mfs blocks
copied_tree = record {
  root = digest new_root;
  store = tree.store ++ (digest new_folder, new_folder) ∷ (digest new_root, new_root) ∷ [];
}

copies_file :
    cp blocks exporters unsupported create options
      (path (codes "a" ∷ []) ∷ [])
      (path (codes "d" ∷ codes "g" ∷ []))
      tree
    ≡ ok copied_tree
unfolding cp to_mfs_paths to_mfs_path if_found existing prepared folder_for copied copy_to_file
    update_root add_source_to_parent add_link loaded_parent add_to_parent add_to_directory
    update_tree update_reversed update_from on_link
copies_file = refl

mv-walk_example :
    (m' : Mfs blocks) × (mv blocks exporters unsupported create options
        (path (codes "a" ∷ []) ∷ [])
        (path (codes "d" ∷ codes "g" ∷ []))
        tree
      ≡ (m', none))
    × (walk blocks (codes "a" ∷ []) m'.root m'.store ≡ none)
    × (walk blocks (codes "d" ∷ codes "g" ∷ []) m'.root m'.store ≡ some (digest file_node))
unfolding walk
mv-walk_example =
    mv-walk blocks blocks-IsIpld exporters unsupported create options (path (codes "a" ∷ []))
      (path (codes "d" ∷ codes "g" ∷ [])) tree copied_tree (file_entry (codes "a"))
      (file_entry (codes "a"))
      (record { at = record { name = copied_tree.root; cid = copied_tree.root }; type = directory })
      [] (digest file_node) refl copies_file
      (Honest-IsAddressed copied_tree.store (refl, (refl, (refl, (refl, (refl, tt)))))) refl refl
      (record {
        walked = refl;
        linked = (
          refl,
          (
            new_root,
            refl,
            record { held = 1; has_data = refl; unsharded = refl; small = refl },
            (_, refl, refl),
          ),
          tt,
        );
        based = refl;
        named = refl;
      })
      refl refl

-- A folder that is moved to its own path is copied into itself, and then removed with the copy.
mv_onto_itself :
    let (m', e) =
      mv blocks exporters unsupported create options
        (path (codes "d" ∷ []) ∷ [])
        (path (codes "d" ∷ []))
        tree in
    (e ≡ none) × (walk blocks (codes "d" ∷ []) m'.root m'.store ≡ none)
unfolding mv cp to_mfs_paths to_mfs_path if_found existing prepared copied copy_to_file update_root
    add_source_to_parent add_link loaded_parent add_to_parent add_to_directory update_tree
    update_reversed update_from rm remove_paths remove_path remove_last remove_link
    remove_from_directory on_link walk
mv_onto_itself = (refl, refl)

-- Two sources that are copied onto a file: the links go into the node of the file, which then stands in
-- place of the folder it was in.
cp_onto_file :
    (m' : Mfs blocks) × (cp blocks exporters unsupported create options
        (path (codes "a" ∷ []) ∷ path (codes "d" ∷ codes "f" ∷ []) ∷ [])
        (path (codes "a" ∷ []))
        tree
      ≡ ok m')
    × (walk blocks (codes "d" ∷ []) m'.root m'.store ≡ none)
    × (blocks.get m'.root m'.store
        ≡ some (record {
          meta = some 0;
          links =
              record { name = codes "a"; tsize = 1; hash = digest file_node }
              ∷ record { name = codes "f"; tsize = 1; hash = digest file_node }
              ∷ [];
        }))
unfolding cp to_mfs_paths to_mfs_path if_found existing prepared copied copy_to_directory
    add_sources update_root add_source_to_parent add_link loaded_parent add_to_parent
    add_to_directory update_tree update_reversed update_from on_link walk
cp_onto_file = (_, refl, refl, refl)

mkdir_new :
    (m' : Mfs blocks) × (mkdir blocks exporters unsupported options create
        (path (codes "d" ∷ codes "e" ∷ codes "h" ∷ []))
        tree
      ≡ ok m')
    × (walk blocks (codes "d" ∷ codes "e" ∷ codes "h" ∷ []) m'.root m'.store
        ≡ some (digest empty_node))
    × (walk blocks (codes "d" ∷ codes "f" ∷ []) m'.root m'.store ≡ some (digest file_node))
unfolding mkdir rounds round if_found add_empty_dir add_link loaded_parent add_to_parent
    add_to_directory update_tree update_reversed update_from on_link walk
mkdir_new = (_, refl, refl, refl)

rm_directory :
    (rm blocks exporters unsupported options
      (path (codes "d" ∷ codes "f" ∷ []) ∷ path (codes "d" ∷ []) ∷ path (codes "a" ∷ []) ∷ [])
      tree).1
    ≡ some was_dir
unfolding rm remove_paths to_mfs_paths to_mfs_path if_found remove_path remove_last remove_link
    remove_from_directory on_link update_tree update_reversed update_from add_link loaded_parent
    add_to_parent add_to_directory
rm_directory = refl
