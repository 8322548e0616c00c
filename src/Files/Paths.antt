-- ===== src/Files/Paths.antt =====
-- packages/ipfs-core/src/components/files/utils/to-path-components.js and to-mfs-path.js.
pub mod Components
pub mod Normal
mod Tests
use js_ipfs.Prelude.{
  ℕ, ◌+◌, ◌-◌, Bool, true, false, ◌&&◌, ◌||◌, Option, none, some, List, [], ◌∷◌, ◌++◌, ◌==◌,
  JsString, codes, trim, starts_with, ends_with, but_last, join, length, take, last?, if◌then◌else◌,
  nat_beq, nat_eq, string_eq, is_some, leb,
}
use js_ipfs.Prelude.{Result, err, ok}

abbrev pub slash : ℕ
slash = b'/'

abbrev pub backslash : ℕ
backslash = 92

-- What the class `[^\\^/]` leaves out, besides the backslash: the caret stands among the characters.
abbrev pub is_separator : ℕ → Bool
is_separator c = nat_beq c 94 || nat_beq c slash

-- A match of the expression is not empty.
abbrev pub emit : JsString → List JsString → List JsString
emit [] rest = rest
emit (c ∷ cur) rest = (c ∷ cur) ∷ rest

-- The matches of `/([^\\^/]|\\\/)+/g`: `cur` is the match so far, `pending` tells that a backslash
-- was read behind it.
pub matches : JsString → Bool → JsString → List JsString
matches cur pending [] = emit cur []
matches cur pending (c ∷ s) =
    let start = if pending then [] else cur in
    let escaped = matches (cur ++ backslash ∷ slash ∷ []) false s in
    let plain = matches (start ++ c ∷ []) false s in
    let held = matches start true s in
    let cut = emit start (matches [] false s) in
    let rest = if nat_beq c backslash then held else if is_separator c then cut else plain in
    if pending then (if nat_beq c slash then escaped else emit cur rest) else rest

unfoldable pub to_path_components : JsString → List JsString
unfolding matches
to_path_components path = matches [] false (trim path)

-- `ipfsPath.replace(/(\/\/+)/g, '/')`; `after` tells that a slash was kept just before.
pub collapse : Bool → JsString → JsString
collapse after [] = []
collapse after (c ∷ s) =
    let rest = collapse (nat_beq c slash) s in if after && nat_beq c slash then rest else c ∷ rest

pub data PathError : Type 0 where
  no_path invalid_path : PathError

pub strip_slash : JsString → JsString
strip_slash p = if ends_with p slash && leb 2 (length p) then but_last p else p

-- The two checks, and what becomes of `/`.
pub checked : JsString → Result PathError JsString
checked [] = err no_path
checked (c ∷ s) =
    if nat_beq c slash
    then ok (if ends_with (c ∷ s) slash then but_last (c ∷ s) else c ∷ s)
    else err invalid_path

-- The string handed to `toPathComponents`, or the error thrown, for a path that is trimmed.
pub normal_trimmed : JsString → Result PathError JsString
unfolding collapse strip_slash checked
normal_trimmed trimmed = checked (strip_slash (collapse false trimmed))

pub normal_path : JsString → Result PathError JsString
unfolding normal_trimmed
normal_path path = normal_trimmed (trim path)

pub data PathType : Type 0 where
  mfs ipfs : PathType

-- The fields that `toMfsPath` sets before it asks the exporter.
pub record MfsPath : Type 0 where
  pub type : PathType
  pub mfs_path : JsString
  pub mfs_directory : JsString
  pub parts : List JsString
  pub path : JsString
  pub name : Option JsString

-- `/${parts.join('/')}`
abbrev pub rooted : List JsString → JsString
rooted parts = slash ∷ join (slash ∷ []) parts

-- `parts.slice(0, parts.length - 1)`
abbrev pub parents : List JsString → List JsString
parents parts = take (length parts - 1) parts

abbrev pub starts_at_ipfs : List JsString → Bool
starts_at_ipfs [] = false
starts_at_ipfs (p ∷ ps) = p == codes "ipfs"

-- `root` is the CID of the MFS root as text.
pub describe : JsString → List JsString → MfsPath
describe root parts =
    if starts_at_ipfs parts
    then record {
      type = ipfs;
      mfs_path = rooted parts;
      mfs_directory = if nat_beq (length parts) 2 then rooted parts else rooted (parents parts);
      parts = parts;
      path = rooted parts;
      name = last? parts;
    }
    else record {
      type = mfs;
      mfs_path = codes "/ipfs/" ++ (root ++ elim parts [ [] ↦ [] | p ∷ ps ↦ rooted (p ∷ ps) ]);
      mfs_directory = codes "/ipfs/" ++ (root ++ rooted (parents parts));
      parts = parts;
      path = rooted parts;
      name = last? parts;
    }
