-- ===== src/Files/Shards/Searches.antt =====
-- What a reader finds in a sharded directory: at each level the link with the prefix of the name, which is that of
-- the file or that of a sub-shard.
use mathlib.Core.Path.{sym}
use js_ipfs.Prelude.{
  ℕ, zero, suc, ◌≡◌, ◌≢◌, refl, ap, ◌∙◌, true, false, Option, none, some, ◌++◌, ◌==◌, JsString,
  string_eq, nat_beq, length, if◌then◌else◌, arith, Bool-cases, Option-cases, inl, inr,
}
use js_ipfs.Files.Tree.{Ipld, Link, Node}
use js_ipfs.Files.Tree.Walk.{Keeps}
use js_ipfs.Files.Shards.{find_prefix}

module _ (i : Ipld) where
  abbrev pub loaded : i.Cid → i.Store → Option (Node i.Cid i.Data)
  loaded c s = elim (i.get c s) [ none ↦ none | some b ↦ some (i.decode b) ]

  pub loaded-Keeps :
      (c : i.Cid) (s t : i.Store) (node : Node i.Cid i.Data)
      → Keeps i s t
      → loaded c s ≡ some node
      → loaded c t ≡ some node
  loaded-Keeps c s t node k e = elim (Option-cases (i.get c s)) [
    | inl missing ↦
        let g : Path (Option (Node i.Cid i.Data)) none (some node) = rw (missing, loaded) at e in cc
    | inr (b, there) ↦
        let g : Path (Option (Node i.Cid i.Data)) (some (i.decode b)) (some node) =
          rw (there, loaded) at e in
        rw (k c b there, loaded) g
  ]

  -- `digits m k` is the prefix of the name `m` at the level `k`.
  module _ (digits : JsString → ℕ → JsString) where
    -- Over at most `depth` levels.
    unfoldable pub search : ℕ → i.Store → JsString → ℕ → Node i.Cid i.Data → Option i.Cid
    search zero s m k node = none
    search (suc depth) s m k node = elim (find_prefix (digits m k) node.links) [
      | none ↦ none
      | some link ↦
          if link.name == digits m k ++ m
          then some link.hash
          else elim (nat_beq (length link.name) 2) [
            | false ↦ none
            | true ↦ elim (loaded link.hash s) [
              | none ↦ none
              | some below ↦ search depth s m (suc k) below
            ]
          ]
    ]

    -- What a search does with the link that it finds.
    abbrev pub visit : ℕ → i.Store → JsString → ℕ → Option (Link i.Cid) → Option i.Cid
    visit depth s m k none = none
    visit depth s m k (some link) =
        if link.name == digits m k ++ m
        then some link.hash
        else elim (nat_beq (length link.name) 2) [
          | false ↦ none
          | true ↦ elim (loaded link.hash s) [
            | none ↦ none
            | some below ↦ search depth s m (suc k) below
          ]
        ]

    abbrev pub enter : ℕ → i.Store → JsString → ℕ → Option (Node i.Cid i.Data) → Option i.Cid
    enter depth s m k none = none
    enter depth s m k (some below) = search depth s m (suc k) below

    pub search-visit :
        (depth : ℕ) (s : i.Store) (m : JsString) (k : ℕ) (node : Node i.Cid i.Data)
        → search (suc depth) s m k node ≡ visit depth s m k (find_prefix (digits m k) node.links)
    unfolding search
    search-visit depth s m k node = refl

    pub search-zero :
        (s : i.Store) (m : JsString) (k : ℕ) (node : Node i.Cid i.Data)
        → search zero s m k node ≡ none
    unfolding search
    search-zero s m k node = refl

    pub visit-file :
        (depth : ℕ) (s : i.Store) (m : JsString) (k : ℕ) (link : Link i.Cid)
        → link.name ≡ digits m k ++ m
        → visit depth s m k (some link) ≡ some link.hash
    visit-file depth s m k link e = ground (arith, string_eq.beq_iff link.name (digits m k ++ m))

    pub visit-shard :
        (depth : ℕ) (s : i.Store) (m : JsString) (k : ℕ) (link : Link i.Cid)
        → link.name ≢ digits m k ++ m
        → length link.name ≡ 2
        → visit depth s m k (some link) ≡ enter depth s m k (loaded link.hash s)
    visit-shard depth s m k link h e = ground (arith, string_eq.beq_iff link.name (digits m k ++ m))

    pub visit-none :
        (depth : ℕ) (s : i.Store) (m : JsString) (k : ℕ) (link : Link i.Cid)
        → link.name ≢ digits m k ++ m
        → length link.name ≢ 2
        → visit depth s m k (some link) ≡ none
    visit-none depth s m k link h e = ground (arith, string_eq.beq_iff link.name (digits m k ++ m))

    -- Each link is one of these.
    pub data LinkKind (m : JsString) (k : ℕ) (link : Link i.Cid) : Type 0 where
      file : link.name ≡ digits m k ++ m → LinkKind m k link
      shard : link.name ≢ digits m k ++ m → length link.name ≡ 2 → LinkKind m k link
      another : link.name ≢ digits m k ++ m → length link.name ≢ 2 → LinkKind m k link

    pub link_kind : (m : JsString) (k : ℕ) (link : Link i.Cid) → LinkKind m k link
    link_kind m k link = elim (Bool-cases (link.name == digits m k ++ m)) [
      | inl e ↦ file ((string_eq.beq_iff link.name (digits m k ++ m)).0 e)
      | inr e ↦
          let h : link.name ≢ digits m k ++ m =
            ground (arith, string_eq.beq_iff link.name (digits m k ++ m)) in
          elim (Bool-cases (nat_beq (length link.name) 2)) [
            | inl two ↦ shard h (ground arith)
            | inr more ↦ another h (ground arith)
          ]
    ]

    visit-Keeps :
        (depth : ℕ) (s t : i.Store) (m : JsString) (k : ℕ) (c : i.Cid)
        → Keeps i s t
        → ((node : Node i.Cid i.Data)
            → search depth s m (suc k) node ≡ some c
            → search depth t m (suc k) node ≡ some c)
        → (o : Option (Link i.Cid)) → visit depth s m k o ≡ some c
        → visit depth t m k o ≡ some c
    visit-Keeps depth s t m k c keeps below none e = cc
    visit-Keeps depth s t m k c keeps below (some link) e = elim (link_kind m k link) [
      | file h ↦ visit-file depth t m k link h ∙ sym (visit-file depth s m k link h) ∙ e
      | another h j ↦
          let g : Path (Option i.Cid) none (some c) = sym (visit-none depth s m k link h j) ∙ e in
          cc
      | shard h two ↦
          let entered : enter depth s m k (loaded link.hash s) ≡ some c =
            sym (visit-shard depth s m k link h two) ∙ e in
          elim (Option-cases (loaded link.hash s)) [
            | inl missing ↦
                let g : Path (Option i.Cid) none (some c) =
                  sym (ap (enter depth s m k) missing) ∙ entered in
                cc
            | inr (node, there) ↦
                visit-shard depth t m k link h two
                ∙ ap (enter depth t m k) (loaded-Keeps link.hash s t node keeps there)
                ∙ below node (sym (ap (enter depth s m k) there) ∙ entered)
          ]
    ]

    -- In a larger store the same is found.
    pub search-Keeps :
        (depth : ℕ) (s t : i.Store) (m : JsString) (k : ℕ) (node : Node i.Cid i.Data) (c : i.Cid)
        → Keeps i s t
        → search depth s m k node ≡ some c
        → search depth t m k node ≡ some c
    unfolding search
    search-Keeps zero s t m k node c keeps e = cc
    search-Keeps (suc depth) s t m k node c keeps e =
        visit-Keeps depth s t m k c keeps (λ below. search-Keeps depth s t m (suc k) below c keeps)
          (find_prefix (digits m k) node.links) e
