-- ===== src/Files/Shards/Removal.antt =====
-- The removal of a name from a sharded directory, level by level.
use mathlib.Core.Path.{sym, subst}
use js_ipfs.Prelude.{
  ℕ, zero, suc, ◌≡◌, ◌≢◌, refl, ap, ◌∙◌, true, false, Option, none, some, List, [], ◌∷◌, ◌++◌, ◌==◌,
  JsString, string_eq, length, take, arith, Bool-cases, inl, inr, ok, append-nil,
}
use js_ipfs.Files.Tree.{Ipld, Link, Node}
use js_ipfs.Files.Tree.Links.{IsIpld}
use js_ipfs.Files.Tree.Walk.{Keeps}
use js_ipfs.Files.Shards.{
  Hamt, find_prefix, without, Position, Shard, ShardOptions, written_shard, update_hamt_directory,
  update_shard_parent, link_to, update_shard,
}
use js_ipfs.Files.Shards.Links.{
  IsUnique, find_prefix-sort_links, IsUniqueAt-sort_links, sort_links-single,
}
use js_ipfs.Files.Shards.Searches.{search, search-zero, enter, visit-shard}
use js_ipfs.Files.Shards.Replaced.{
  take_two, longer_than_two, replaced-IsUnique, replaced_here, replaced_elsewhere,
}
use js_ipfs.Files.Shards.Removed.{IsHamt, IsLevel, IsThrough, IsRemoved}
use js_ipfs.Files.Shards.Last.{
  search-at, kept_elsewhere, written-Keeps, written-IsAddressed, written-loaded,
}
use js_ipfs.Files.Shards.Through.{new_prefixed, gone_new, kept_new}

lone_append : {C : Type 0} (ls : List (Link C)) (a l : Link C) → ls ++ a ∷ [] ≡ l ∷ [] → ls ≡ []
lone_append [] a l e = refl
lone_append (k ∷ []) a l e = cc
lone_append (k ∷ m ∷ ls) a l e = cc

module _ (i : Ipld) (law : IsIpld i) (hamt : Hamt i) (digits : JsString → ℕ → JsString)
    (shards : IsHamt i hamt digits) (o : ShardOptions i hamt) (d : i.Data)
    (flushed : o.flush ≡ true) (name : JsString) (nonempty : name ≢ []) where
  module _ (s : i.Store) (k : ℕ) (node : Node i.Cid i.Data) (p : Position i hamt)
      (link : Link i.Cid) (level : IsLevel i hamt digits name k node p link)
      (below : Node i.Cid i.Data) (through : IsThrough i hamt digits s k node p link below)
      (sub : Shard i hamt) (removed : IsRemoved i hamt digits s name (suc k) below sub) where
    abbrev new : Link i.Cid
    new = link_to i hamt p.prefix sub

    prefix_two : length p.prefix ≡ 2
    prefix_two = ap (λ x. length x) level.placed ∙ shards.digits-length name k

    prefixed : take 2 link.name ≡ p.prefix
    prefixed =
        ap (λ x. take 2 x) (through.named ∙ sym (append-nil p.prefix))
        ∙ take_two p.prefix [] prefix_two

    at_new : take 2 new.name ≡ p.prefix
    at_new =
        new_prefixed i law hamt digits shards o d flushed name nonempty s k p.prefix level.placed
          below sub removed

    abbrev links : List (Link i.Cid)
    links = without link.name node.links ++ new ∷ []

    links-IsUnique : IsUnique links
    links-IsUnique =
        replaced-IsUnique p.prefix node.links link level.unique level.found prefixed new at_new

    abbrev r : Shard i hamt
    r = written_shard i hamt o d links p.bucket sub.heap sub.store

    sorted : (q : JsString) → find_prefix q r.node.links ≡ find_prefix q links
    sorted q = find_prefix-sort_links hamt.ordered q links (links-IsUnique q)

    found_new :
        (m : JsString) → digits m k ≡ p.prefix → find_prefix (digits m k) r.node.links ≡ some new
    found_new m e =
        ap (λ x. find_prefix x r.node.links) e
        ∙ sorted p.prefix
        ∙ replaced_here p.prefix node.links link level.unique level.found prefixed new at_new

    through-gone :
        (depth : ℕ) (t : i.Store)
        → Keeps i sub.store t
        → search i digits depth t name k r.node ≡ none
    through-gone zero t keeps = search-zero i digits t name k r.node
    through-gone (suc depth) t keeps =
        search-at i law hamt digits shards o d flushed depth t name k r.node (some new)
          (found_new name (sym level.placed))
        ∙ gone_new i law hamt digits shards o d flushed name nonempty s k p.prefix level.placed
            below sub removed depth t keeps

    -- A search that goes through the link.
    search_lower :
        (depth : ℕ) (m : JsString) (c : i.Cid)
        → m ≢ []
        → digits m k ≡ p.prefix
        → search i digits depth s m k node ≡ some c
        → (less : ℕ) × (search i digits less s m (suc k) below ≡ some c)
    search_lower zero m c j e f =
        let g : Path (Option i.Cid) none (some c) = sym (search-zero i digits s m k node) ∙ f in cc
    search_lower (suc depth) m c j e f = (
      depth,
      ap (enter i digits depth s m k) (sym through.leads)
          ∙ sym (
              visit-shard i digits depth s m k link
                (λ g.
                  longer_than_two (digits m k) m (shards.digits-length m k) j
                    (ap (λ x. length x) (sym g ∙ through.named) ∙ prefix_two))
                (ap (λ x. length x) through.named ∙ prefix_two))
          ∙ sym (
              search-at i law hamt digits shards o d flushed depth s m k node (some link)
                (ap (λ x. find_prefix x node.links) e ∙ level.found))
          ∙ f,
    )

    through-kept :
        (depth : ℕ) (t : i.Store) (m : JsString) (c : i.Cid)
        → Keeps i sub.store t
        → m ≢ name
        → m ≢ []
        → search i digits depth s m k node ≡ some c
        → (enough : ℕ) × (search i digits enough t m k r.node ≡ some c)
    through-kept depth t m c keeps other named e = elim (Bool-cases (digits m k == p.prefix)) [
      | inl same ↦
          let here : digits m k ≡ p.prefix = (string_eq.beq_iff _ _).0 same in
          let (less, f) = search_lower depth m c named here e in
          let (enough, g) =
            kept_new i law hamt digits shards o d flushed name nonempty s k p.prefix level.placed
              below sub removed less t m c keeps other named here f in
          (
            suc enough,
            search-at i law hamt digits shards o d flushed enough t m k r.node (some new)
                  (found_new m here)
                ∙ g,
          )
      | inr elsewhere ↦
          kept_elsewhere i law hamt digits shards o d flushed name nonempty s k node p link level
            depth t m c r.node (λ a b f. keeps a b (removed.keeps a b f))
            (sorted (digits m k)
              ∙ replaced_elsewhere p.prefix node.links link level.unique level.found prefixed new
                  at_new (digits m k)
                  (λ f. ground (arith, elsewhere, string_eq.beq_iff (digits m k) p.prefix)))
            e
    ]

    wrote : Keeps i sub.store r.store
    wrote =
        written-Keeps i law hamt digits shards o d flushed links p.bucket sub.heap sub.store
          removed.addressed

    alone_links : (l : Link i.Cid) → links ≡ l ∷ [] → without p.prefix node.links ≡ []
    alone_links l e =
        subst (λ n. without n node.links ≡ []) through.named
          (lone_append (without link.name node.links) new l e)

    pub through-IsRemoved : IsRemoved i hamt digits s name k node (
        written_shard i hamt o d
          (without p.prefix node.links ++ new ∷ [])
          p.bucket
          sub.heap
          sub.store)
    through-IsRemoved =
        subst
          (λ n. IsRemoved i hamt digits s name k node (
            written_shard i hamt o d (without n node.links ++ new ∷ []) p.bucket sub.heap
              sub.store))
          through.named
          (record {
            keeps = λ a b f. wrote a b (removed.keeps a b f);
            addressed =
                written-IsAddressed i law hamt digits shards o d flushed links p.bucket sub.heap
                  sub.store removed.addressed;
            stored =
                written-loaded i law hamt digits shards o d flushed links p.bucket sub.heap
                  sub.store removed.addressed links-IsUnique;
            unique = λ q. IsUniqueAt-sort_links hamt.ordered q links (links-IsUnique q);
            alone = λ inner l e.
                absurd
                  (through.others inner (alone_links l (sort_links-single hamt.ordered links l e)));
            gone = λ depth t keeps. through-gone depth t (λ a b f. keeps a b (wrote a b f));
            kept = λ depth t m c keeps. through-kept depth t m c (λ a b f. keeps a b (wrote a b f));
          })

  module _ (has_data : o.parent.meta ≡ some d) where
    pub update_shard-last :
        (p : Position i hamt) (positions : List (Position i hamt)) (node : Node i.Cid i.Data)
        (link : Link i.Cid) (heap : hamt.Heap) (s : i.Store)
        → p.node ≡ some node
        → find_prefix p.prefix node.links ≡ some link
        → link.name ≡ p.prefix ++ name
        → update_shard i hamt o name (p ∷ positions) heap s
          ≡ ok (
              written_shard i hamt o d
                (without link.name node.links)
                p.bucket
                (hamt.del p.bucket name heap)
                s)
    unfolding update_shard update_hamt_directory
    update_shard-last p positions node link heap s there found named = rw there (
        rw found (rw ((string_eq.beq_iff link.name (p.prefix ++ name)).1 named) (rw has_data refl)))

    pub update_shard-through :
        (p : Position i hamt) (positions : List (Position i hamt)) (node : Node i.Cid i.Data)
        (link : Link i.Cid) (heap : hamt.Heap) (s : i.Store) (sub : Shard i hamt)
        → p.node ≡ some node
        → find_prefix p.prefix node.links ≡ some link
        → (link.name == p.prefix ++ name) ≡ false
        → update_shard i hamt o name positions heap s ≡ ok sub
        → update_shard i hamt o name (p ∷ positions) heap s
          ≡ ok (
              written_shard i hamt o d
                (without p.prefix node.links ++ link_to i hamt p.prefix sub ∷ [])
                p.bucket
                sub.heap
                sub.store)
    unfolding update_shard update_hamt_directory update_shard_parent
    update_shard-through p positions node link heap s sub there found named rest =
        rw there (rw found (rw named (rw rest (rw has_data refl))))
