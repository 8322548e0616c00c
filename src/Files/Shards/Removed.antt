-- ===== src/Files/Shards/Removed.antt =====
-- What a reader finds in a sharded directory behind the removal of a name.
use js_ipfs.Prelude.{
  ℕ, suc, ◌≡◌, ◌≢◌, none, some, List, [], ◌∷◌, ◌++◌, JsString, string_eq, length, ◌⊎◌,
}
use js_ipfs.Files.Tree.{Ipld, Link, Node}
use js_ipfs.Files.Tree.Walk.{Keeps, IsAddressed}
use js_ipfs.Files.Shards.{Hamt, find_prefix, without, sort_links, Position, Shard}
use js_ipfs.Files.Shards.Links.{IsUnique}
use js_ipfs.Files.Shards.Searches.{loaded, search}

-- What the packages promise: the prefix of a name at a level has two characters, and a sorted node of
-- which the prefixes differ is read as it was written.
pub record IsHamt (i : Ipld) (hamt : Hamt i) (digits : JsString → ℕ → JsString) : Type 0 where
  pub digits-length : (m : JsString) (k : ℕ) → length (digits m k) ≡ 2
  pub decode-shard :
      (d : i.Data) (links : List (Link i.Cid))
      → IsUnique links
      → let node : Node i.Cid i.Data = record {
        meta = some d;
        links = sort_links hamt.ordered links;
      } in
        i.decode (i.encode node) ≡ node

module _ (i : Ipld) (hamt : Hamt i) (digits : JsString → ℕ → JsString) where
  -- The link of a file at the level `k`.
  pub record IsFileAt (k : ℕ) (link : Link i.Cid) : Type 0 where
    pub file_name : JsString
    pub not_empty : file_name ≢ []
    pub named : link.name ≡ digits file_name k ++ file_name

  -- The node of a position, with the link that has the position's prefix.
  pub record IsLevel (name : JsString) (k : ℕ) (node : Node i.Cid i.Data) (p : Position i hamt)
      (link : Link i.Cid) : Type 0 where
    pub has_node : p.node ≡ some node
    pub placed : p.prefix ≡ digits name k
    pub unique : IsUnique node.links
    pub found : find_prefix p.prefix node.links ≡ some link

  -- At the end of the path is the link of the file. Below the root, a link that is alone beside it
  -- is that of a file.
  pub record IsLast (name : JsString) (k : ℕ) (node : Node i.Cid i.Data) (p : Position i hamt)
      (link : Link i.Cid) : Type 0 where
    pub named : link.name ≡ p.prefix ++ name
    pub alone : k ≢ 0 → (l : Link i.Cid) → without link.name node.links ≡ l ∷ [] → IsFileAt k l

  -- Above it are links of sub-shards. Below the root, a node has another link.
  pub record IsThrough (s : i.Store) (k : ℕ) (node : Node i.Cid i.Data) (p : Position i hamt)
      (link : Link i.Cid) (below : Node i.Cid i.Data) : Type 0 where
    pub named : link.name ≡ p.prefix
    pub leads : loaded i link.hash s ≡ some below
    pub others : k ≢ 0 → without p.prefix node.links ≢ []

  -- The positions lead to the link of the file.
  abbrev pub Leads : i.Store → JsString → ℕ → Node i.Cid i.Data → List (Position i hamt) → Type 0
  Leads s name k node [] = ⊥
  Leads s name k node (p ∷ positions) =
      (link : Link i.Cid) × IsLevel name k node p link
      × (IsLast name k node p link
          ⊎ ((below : Node i.Cid i.Data) × IsThrough s k node p link below
              × Leads s name (suc k) below positions))

  -- In every larger store nothing is found under the name, and other names find what they found.
  pub record IsRemoved (s : i.Store) (name : JsString) (k : ℕ) (node : Node i.Cid i.Data)
      (r : Shard i hamt) : Type 0 where
    pub keeps : Keeps i s r.store
    pub addressed : IsAddressed i r.store
    pub stored : loaded i r.cid r.store ≡ some r.node
    pub unique : IsUnique r.node.links
    pub alone : k ≢ 0 → (l : Link i.Cid) → r.node.links ≡ l ∷ [] → IsFileAt k l
    pub gone :
        (depth : ℕ) (t : i.Store) → Keeps i r.store t → search i digits depth t name k r.node ≡ none
    pub kept :
        (depth : ℕ) (t : i.Store) (m : JsString) (c : i.Cid)
        → Keeps i r.store t
        → m ≢ name
        → m ≢ []
        → search i digits depth s m k node ≡ some c
        → (enough : ℕ) × (search i digits enough t m k r.node ≡ some c)
