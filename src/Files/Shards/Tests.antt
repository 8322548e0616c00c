-- ===== src/Files/Shards/Tests.antt =====
-- A sharded directory in which the characters of a name place it.
use js_ipfs.Prelude.{
  ◌≡◌, refl, true, false, Bool, Option, none, some, List, [], ◌∷◌, JsString, ℕ, ok, err, Result,
  codes, get_elem?, or_else, ltb, if◌then◌else◌,
}
use js_ipfs.Files.Tree.{Link, Node, LinkError}
use js_ipfs.Files.Tree.Example.{digest, blocks, file}
use js_ipfs.Files.Shards.{
  Hamt, Position, Shard, ShardOptions, to_prefix, remove_from_sharded_directory,
}
use js_ipfs.Files.Shards.Searches.{search}

abbrev before : JsString → JsString → Bool
before [] t = true
before (c ∷ s) [] = false
before (c ∷ s) (d ∷ t) = if ltb c d then true else if ltb d c then false else before s t

abbrev hamt : Hamt blocks
hamt = record {
  Bucket = ℕ;
  Heap = List JsString;
  del = λ b name heap. name ∷ heap;
  shard_data = λ d b heap. d;
  ordered = before;
}

abbrev digits : JsString → ℕ → JsString
digits m k = 48 ∷ or_else (get_elem? m k) 48 ∷ []

abbrev link_to_file : JsString → Link JsString
link_to_file name = record { name = name; tsize = 1; hash = digest file }

abbrev node_of : List (Link JsString) → Node JsString ℕ
node_of links = record { meta = some 2; links = links }

abbrev shard_link : JsString → Node JsString ℕ → Link JsString
shard_link name node = record { name = name; tsize = 9; hash = digest node }

-- "ab" and "ac" are in a sub-shard, and "b" is beside it.
abbrev low : Node JsString ℕ
low = node_of (link_to_file (codes "0bab") ∷ link_to_file (codes "0cac") ∷ [])

abbrev top : Node JsString ℕ
top = node_of (shard_link (codes "0a") low ∷ link_to_file (codes "0bb") ∷ [])

abbrev stored : blocks.Store
stored = (digest low, low) ∷ (digest top, top) ∷ []

abbrev positions : List (Position blocks hamt)
positions =
    record { bucket = 0; prefix = codes "0a"; node = some top }
    ∷ record { bucket = 1; prefix = codes "0b"; node = some low }
    ∷ []

abbrev options : ShardOptions blocks hamt
options = record { parent = top; flush = true }

prefixes : to_prefix 10 ≡ codes "0A"
unfolding to_prefix
prefixes = refl

-- "abc" is beside the sub-shard of "adef" and "adeg". When it is removed the sub-shard goes up by a level,
-- where its prefixes are not those of the names.
abbrev deep : Node JsString ℕ
deep = node_of (link_to_file (codes "0eadef") ∷ link_to_file (codes "0gadeg") ∷ [])

abbrev middle : Node JsString ℕ
middle = node_of (link_to_file (codes "0babc") ∷ shard_link (codes "0d") deep ∷ [])

abbrev root : Node JsString ℕ
root = node_of (shard_link (codes "0a") middle ∷ [])

abbrev deep_store : blocks.Store
deep_store = (digest deep, deep) ∷ (digest middle, middle) ∷ (digest root, root) ∷ []

abbrev deep_positions : List (Position blocks hamt)
deep_positions =
    record { bucket = 0; prefix = codes "0a"; node = some root }
    ∷ record { bucket = 1; prefix = codes "0b"; node = some middle }
    ∷ []

there_before : search blocks digits 9 deep_store (codes "adef") 0 root ≡ some (digest file)
unfolding search
there_before = refl

abbrev found_behind : Result LinkError (Shard blocks hamt) → Option (Option JsString)
found_behind (err e) = none
found_behind (ok r) = some (search blocks digits 9 r.store (codes "adef") 0 r.node)

lost_behind :
    found_behind (
      remove_from_sharded_directory blocks hamt
        (record { parent = root; flush = true })
        (codes "abc")
        0
        deep_positions
        []
        deep_store)
    ≡ some none
unfolding search remove_from_sharded_directory
lost_behind = refl
