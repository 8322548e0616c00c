-- ===== src/Files/Shards/Loading/Tests.antt =====
-- Buckets that are the positions on the way to them, over a directory in which the characters of a name place it.
use js_ipfs.Prelude.{
  ◌≡◌, refl, true, Option, none, some, List, [], ◌∷◌, ◌++◌, ◌==◌, JsString, string_eq, ℕ, codes,
  any, or_else, last?, but_last, if◌then◌else◌, Result, ok, err,
}
use js_ipfs.Files.Tree.{Link, Node, LinkError, not_found}
use js_ipfs.Files.Tree.Example.{digest, blocks, file}
use js_ipfs.Files.Shards.{Hamt, Position, Shard, to_prefix, remove_from_sharded_directory}
use js_ipfs.Files.Shards.Loading.{Buckets, generate_path, LoadError}

abbrev hamt : Hamt blocks
hamt = record {
  Bucket = List ℕ;
  Heap = List (List ℕ);
  del = λ b name heap. heap;
  shard_data = λ d b heap. d;
  ordered = λ a b. true;
}

-- Down through the buckets that there are.
abbrev descend : List ℕ → JsString → List (List ℕ) → List ℕ × ℕ
descend bucket [] heap = (bucket, 0)
descend bucket (c ∷ name) heap =
    let below = descend (bucket ++ c ∷ []) name heap in
    if any (λ b. b == bucket ++ c ∷ []) heap then below else (bucket, c)

abbrev buckets : Buckets blocks hamt
buckets = record {
  same = λ a b. a == b;
  create_hamt = λ heap. ([], heap);
  new_bucket = λ b pos heap. (b ++ or_else pos 0 ∷ [], heap);
  put_object_at = λ b pos sub heap. sub ∷ heap;
  put = λ b name heap. heap;
  find_new_bucket_and_pos = λ root name heap. descend root name heap;
  parent = λ b heap. some (but_last b);
  pos_at_parent = λ b heap. or_else (last? b) 0;
}

abbrev link_to_file : JsString → Link JsString
link_to_file name = record { name = name; tsize = 1; hash = digest file }

abbrev node_of : List (Link JsString) → Node JsString ℕ
node_of links = record { meta = some 2; links = links }

abbrev shard_link : JsString → Node JsString ℕ → Link JsString
shard_link name node = record { name = name; tsize = 9; hash = digest node }

abbrev fourth : Node JsString ℕ
fourth = node_of (link_to_file (codes "64abcd") ∷ link_to_file (codes "65abce") ∷ [])

abbrev third : Node JsString ℕ
third = node_of (shard_link (codes "63") fourth ∷ link_to_file (codes "66abf") ∷ [])

abbrev second : Node JsString ℕ
second = node_of (shard_link (codes "62") third ∷ link_to_file (codes "67ag") ∷ [])

abbrev top : Node JsString ℕ
top = node_of (shard_link (codes "61") second ∷ link_to_file (codes "68h") ∷ [])

abbrev stored : blocks.Store
stored =
    (digest fourth, fourth)
    ∷ (digest third, third)
    ∷ (digest second, second)
    ∷ (digest top, top)
    ∷ []

abbrev prefixes_of : List (Position blocks hamt) → List JsString
prefixes_of [] = []
prefixes_of (p ∷ path) = p.prefix ∷ prefixes_of path

abbrev prefixes : JsString → Node JsString ℕ → Option (List JsString)
prefixes name node = elim (generate_path blocks hamt buckets 9 name node [] stored) [
  | ok g ↦ some (prefixes_of g.1)
  | err e ↦ none
]

at_top : prefixes (codes "h") top ≡ some (codes "68" ∷ [])
unfolding generate_path to_prefix
at_top = refl

two_levels : prefixes (codes "ag") top ≡ some (codes "61" ∷ codes "67" ∷ [])
unfolding generate_path to_prefix
two_levels = refl

three_levels : prefixes (codes "abf") top ≡ some (codes "61" ∷ codes "62" ∷ codes "66" ∷ [])
unfolding generate_path to_prefix
three_levels = refl

-- Below the third level the position is that of the deepest bucket, and stands in the path in place of
-- the one above it.
four_levels : prefixes (codes "abcd") top ≡ some (codes "61" ∷ codes "62" ∷ codes "64" ∷ [])
unfolding generate_path to_prefix
four_levels = refl

abbrev removal : JsString → Result LoadError (Result LinkError (Shard blocks hamt))
removal name = elim (generate_path blocks hamt buckets 9 name top [] stored) [
  | ok g ↦ ok (
      remove_from_sharded_directory blocks hamt (record { parent = top; flush = true }) name g.0 g.1
        g.2 stored)
  | err e ↦ err e
]

not_removed : removal (codes "abcd") ≡ ok (err not_found)
unfolding generate_path to_prefix remove_from_sharded_directory
not_removed = refl
