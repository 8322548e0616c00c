-- ===== src/Files/Tree/Tests.antt =====
-- Runs on a store of directories.
use js_ipfs.Prelude.{refl, some, [], ◌∷◌, JsString, codes, string_eq, ℕ}
use js_ipfs.Files.Tree.{Node, TrailEntry}
use js_ipfs.Files.Tree.Example.{digest, blocks, file, Honest-IsAddressed}
use js_ipfs.Files.Tree.Walk.{IsAddressed}

abbrev old_root : Node JsString ℕ
old_root = record {
  meta = some 1;
  links = record { name = codes "b"; tsize = 1; hash = codes "q" } ∷ [];
}

abbrev stored : blocks.Store
stored = (digest file, file) ∷ (digest old_root, old_root) ∷ []

abbrev leaf : TrailEntry JsString
leaf = record { name = codes "a"; cid = digest file }

abbrev above : TrailEntry JsString
above = record { name = codes "root"; cid = digest old_root }

stored-IsAddressed : IsAddressed blocks stored
stored-IsAddressed = Honest-IsAddressed stored (refl, (refl, tt))
