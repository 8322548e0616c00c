-- ===== src/Files/Shards/Last.antt =====
-- One level of a sharded directory: what is written, and the level that loses the file.
use mathlib.Core.Path.{sym, subst}
use js_ipfs.Prelude.{
  ℕ, zero, suc, ◌≡◌, ◌≢◌, refl, ap, ◌∙◌, Bool, true, Option, none, some, List, [], ◌++◌, ◌==◌,
  JsString, string_eq, length, take, if◌then◌else◌, arith, Bool-cases, inl, inr,
}
use js_ipfs.Files.Tree.{Ipld, Link, Node}
use js_ipfs.Files.Tree.Links.{IsIpld}
use js_ipfs.Files.Tree.Walk.{Keeps, IsAddressed, put-Keeps, put-IsAddressed}
use js_ipfs.Files.Shards.{Hamt, find_prefix, without, Position, Shard, ShardOptions, written_shard}
use js_ipfs.Files.Shards.Links.{
  IsUnique, find_prefix-sort_links, IsUniqueAt-sort_links, sort_links-single,
}
use js_ipfs.Files.Shards.Searches.{
  loaded, search, search-visit, search-zero, visit, visit-none, search-Keeps,
}
use js_ipfs.Files.Shards.Replaced.{
  take_two, longer_than_two, append_cancel, removed-IsUnique, removed_here, removed_elsewhere,
}
use js_ipfs.Files.Shards.Removed.{IsHamt, IsLevel, IsLast, IsRemoved}

module _ (i : Ipld) (law : IsIpld i) (hamt : Hamt i) (digits : JsString → ℕ → JsString)
    (shards : IsHamt i hamt digits) (o : ShardOptions i hamt) (d : i.Data)
    (flushed : o.flush ≡ true) where
  module _ (links : List (Link i.Cid)) (bucket : hamt.Bucket) (heap : hamt.Heap) (s : i.Store)
      (h : IsAddressed i s) where
    abbrev w : Shard i hamt
    w = written_shard i hamt o d links bucket heap s

    written-store : w.store ≡ i.put w.cid (i.encode w.node) s
    written-store = ap (λ (b : Bool). if b then i.put w.cid (i.encode w.node) s else s) flushed

    pub written-Keeps : Keeps i s w.store
    written-Keeps = subst (Keeps i s) (sym written-store) (put-Keeps i law s (i.encode w.node) h)

    pub written-IsAddressed : IsAddressed i w.store
    written-IsAddressed =
        subst (IsAddressed i) (sym written-store) (put-IsAddressed i law s (i.encode w.node) h)

    pub written-loaded : IsUnique links → loaded i w.cid w.store ≡ some w.node
    written-loaded u =
        ap (loaded i w.cid) written-store
        ∙ ap (λ o. elim o [ none ↦ none | some b ↦ some (i.decode b) ])
            (law.get-put_self w.cid (i.encode w.node) s)
        ∙ ap some (shards.decode-shard (hamt.shard_data d bucket heap) links u)

  pub search-at :
      (depth : ℕ) (t : i.Store) (m : JsString) (k : ℕ) (node : Node i.Cid i.Data)
      (found : Option (Link i.Cid))
      → find_prefix (digits m k) node.links ≡ found
      → search i digits (suc depth) t m k node ≡ visit i digits depth t m k found
  search-at depth t m k node found e =
      search-visit i digits depth t m k node ∙ ap (visit i digits depth t m k) e

  -- The file's link is of no use to another name.
  pub visit-other_file :
      (depth : ℕ) (t : i.Store) (m name : JsString) (k : ℕ) (link : Link i.Cid)
      → link.name ≡ digits m k ++ name
      → m ≢ name
      → name ≢ []
      → visit i digits depth t m k (some link) ≡ none
  visit-other_file depth t m name k link e h j =
      visit-none i digits depth t m k link
        (λ f. h (append_cancel (digits m k) m name (shards.digits-length m k) (sym f ∙ e)))
        (λ two.
          longer_than_two (digits m k) name (shards.digits-length m k) j
            (ap (λ x. length x) (sym e) ∙ two))

  module _ (name : JsString) (nonempty : name ≢ []) (s : i.Store) (k : ℕ) (node : Node i.Cid i.Data)
      (p : Position i hamt) (link : Link i.Cid)
      (level : IsLevel i hamt digits name k node p link) where
    pub found_in_node :
        (m : JsString) → digits m k ≡ p.prefix → find_prefix (digits m k) node.links ≡ some link
    found_in_node m e = ap (λ x. find_prefix x node.links) e ∙ level.found

    -- What is found elsewhere in the node is found in a node with the same links there.
    pub kept_elsewhere :
        (depth : ℕ) (t : i.Store) (m : JsString) (c : i.Cid) (other : Node i.Cid i.Data)
        → Keeps i s t
        → find_prefix (digits m k) other.links ≡ find_prefix (digits m k) node.links
        → search i digits depth s m k node ≡ some c
        → (enough : ℕ) × (search i digits enough t m k other ≡ some c)
    kept_elsewhere zero t m c other keeps same e =
        let g : Path (Option i.Cid) none (some c) = sym (search-zero i digits s m k node) ∙ e in cc
    kept_elsewhere (suc depth) t m c other keeps same e = (
      suc depth,
      search-at depth t m k other _ same
          ∙ sym (search-at depth t m k node _ refl)
          ∙ search-Keeps i digits (suc depth) s t m k node c keeps e,
    )

    -- A name of the same prefix is not found where the file is.
    nothing_else :
        (depth : ℕ) (m : JsString)
        → digits m k ≡ p.prefix
        → link.name ≡ p.prefix ++ name
        → m ≢ name
        → search i digits depth s m k node ≡ none
    nothing_else zero m e named other = search-zero i digits s m k node
    nothing_else (suc depth) m e named other =
        search-at depth s m k node (some link) (found_in_node m e)
        ∙ visit-other_file depth s m name k link (named ∙ ap (λ x. x ++ name) (sym e)) other
            nonempty

    pub last-IsRemoved :
        (heap : hamt.Heap)
        → IsAddressed i s
        → IsLast i hamt digits name k node p link
        → IsRemoved i hamt digits s name k node
            (written_shard i hamt o d (without link.name node.links) p.bucket heap s)
    last-IsRemoved heap h last =
        let two : length p.prefix ≡ 2 =
          ap (λ x. length x) level.placed ∙ shards.digits-length name k in
        let prefixed : take 2 link.name ≡ p.prefix =
          ap (λ x. take 2 x) last.named ∙ take_two p.prefix name two in
        let links : List (Link i.Cid) = without link.name node.links in
        let unique : IsUnique links =
          removed-IsUnique p.prefix node.links link level.unique level.found prefixed in
        let r = written_shard i hamt o d links p.bucket heap s in
        let sorted : (q : JsString) → find_prefix q r.node.links ≡ find_prefix q links =
          λ q. find_prefix-sort_links hamt.ordered q links (unique q) in
        record {
          keeps = written-Keeps links p.bucket heap s h;
          addressed = written-IsAddressed links p.bucket heap s h;
          stored = written-loaded links p.bucket heap s h unique;
          unique = λ q. IsUniqueAt-sort_links hamt.ordered q links (unique q);
          alone = λ below l e. last.alone below l (sort_links-single hamt.ordered links l e);
          gone = λ depth t k'. elim depth as (λ x. search i digits x t name k r.node ≡ none) [
            | zero ↦ search-zero i digits t name k r.node
            | suc x ↦ search-at x t name k r.node none (
                ap (λ x. find_prefix x r.node.links) (sym level.placed)
                ∙ sorted p.prefix
                ∙ removed_here p.prefix node.links link level.unique level.found prefixed)
          ];
          kept = λ depth t m c keeps other named e. elim (Bool-cases (digits m k == p.prefix)) [
            | inl same ↦
                let here : digits m k ≡ p.prefix = (string_eq.beq_iff _ _).0 same in
                let g : Path (Option i.Cid) none (some c) =
                  sym (nothing_else depth m here last.named other) ∙ e in
                cc
            | inr elsewhere ↦
                kept_elsewhere depth t m c r.node
                  (λ a b f. keeps a b (written-Keeps links p.bucket heap s h a b f))
                  (sorted (digits m k)
                    ∙ removed_elsewhere p.prefix node.links link level.unique level.found prefixed
                        (digits m k)
                        (λ f. ground (arith, elsewhere, string_eq.beq_iff (digits m k) p.prefix)))
                  e
          ];
        }
