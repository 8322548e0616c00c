-- ===== src/Files/Shards/Through.antt =====
-- One level of a sharded directory above the one that loses the file: its link to what is left below.
use mathlib.Core.Path.{sym}
use js_ipfs.Prelude.{
  ℕ, zero, suc, ◌≡◌, ◌≢◌, refl, ap, ◌∙◌, Bool, true, false, Option, none, some, List, [], ◌∷◌, ◌++◌,
  ◌==◌, JsString, string_eq, length, take, drop, if◌then◌else◌, arith, Bool-cases, inl, inr,
  append-nil,
}
use js_ipfs.Files.Tree.{Ipld, Link, Node}
use js_ipfs.Files.Tree.Links.{IsIpld}
use js_ipfs.Files.Tree.Walk.{Keeps}
use js_ipfs.Files.Shards.{Hamt, find_prefix, has_prefix, Shard, ShardOptions, link_to}
use js_ipfs.Files.Shards.Searches.{
  loaded-Keeps, search, search-zero, visit, enter, visit-file, visit-shard,
}
use js_ipfs.Files.Shards.Replaced.{take_two, drop_two, longer_than_two}
use js_ipfs.Files.Shards.Removed.{IsHamt, IsFileAt, IsRemoved}
use js_ipfs.Files.Shards.Last.{search-at, visit-other_file}

module _ (i : Ipld) (hamt : Hamt i) where
  -- What is left is one link, which goes up, or more.
  data LinkTo (q : JsString) (sub : Shard i hamt) : Type 0 where
    single :
        (l : Link i.Cid)
        → sub.node.links ≡ l ∷ []
        → link_to i hamt q sub
          ≡ record { name = q ++ drop 2 l.name; tsize = l.tsize; hash = l.hash }
        → LinkTo q sub
    several :
        link_to i hamt q sub ≡ record { name = q; tsize = sub.size; hash = sub.cid } → LinkTo q sub

  LinkTo-cases :
      (q : JsString) (sub : Shard i hamt) (links : List (Link i.Cid))
      → sub.node.links ≡ links
      → LinkTo q sub
  unfolding link_to
  LinkTo-cases q sub [] e = several (rw (e, link_to) refl)
  LinkTo-cases q sub (l ∷ []) e = single l e (rw (e, link_to) refl)
  LinkTo-cases q sub (l ∷ k ∷ links) e = several (rw (e, link_to) refl)

module _ (i : Ipld) (law : IsIpld i) (hamt : Hamt i) (digits : JsString → ℕ → JsString)
    (shards : IsHamt i hamt digits) (o : ShardOptions i hamt) (d : i.Data)
    (flushed : o.flush ≡ true) (name : JsString) (nonempty : name ≢ []) (s : i.Store) (k : ℕ)
    (q : JsString) (at : q ≡ digits name k) (below : Node i.Cid i.Data) (sub : Shard i hamt)
    (removed : IsRemoved i hamt digits s name (suc k) below sub) where
  abbrev new : Link i.Cid
  new = link_to i hamt q sub

  two : length q ≡ 2
  two = ap (λ x. length x) at ∙ shards.digits-length name k

  visit_sub :
      (depth : ℕ) (t : i.Store) (m : JsString)
      → m ≢ []
      → digits m k ≡ q
      → Keeps i sub.store t
      → new ≡ record { name = q; tsize = sub.size; hash = sub.cid }
      → visit i digits depth t m k (some new) ≡ search i digits depth t m (suc k) sub.node
  visit_sub depth t m j e keeps n =
      ap (λ l. visit i digits depth t m k (some l)) n
      ∙ visit-shard i digits depth t m k (record { name = q; tsize = sub.size; hash = sub.cid })
          (λ f.
            longer_than_two (digits m k) m (shards.digits-length m k) j
              (ap (λ x. length x) (sym f) ∙ two))
          two
      ∙ ap (enter i digits depth t m k)
          (loaded-Keeps i sub.cid sub.store t sub.node keeps removed.stored)

  module _ (l : Link i.Cid) (only : sub.node.links ≡ l ∷ [])
      (n : new ≡ record { name = q ++ drop 2 l.name; tsize = l.tsize; hash = l.hash }) where
    at_one : IsFileAt i hamt digits (suc k) l
    at_one = removed.alone (λ e. omega (arith, e)) l only

    new_name : new.name ≡ q ++ at_one.file_name
    new_name =
        ap (λ x. x.name) n
        ∙ ap (λ x. q ++ drop 2 x) at_one.named
        ∙ ap (λ x. q ++ x)
            (drop_two _ at_one.file_name (shards.digits-length at_one.file_name (suc k)))

    new_hash : new.hash ≡ l.hash
    new_hash = ap (λ x. x.hash) n

    visit_moved :
        (depth : ℕ) (t : i.Store) (m : JsString)
        → digits m k ≡ q
        → m ≡ at_one.file_name
        → visit i digits depth t m k (some new) ≡ some l.hash
    visit_moved depth t m e f =
        visit-file i digits depth t m k new
          (new_name ∙ ap (λ x. x ++ at_one.file_name) (sym e) ∙ ap (λ x. digits m k ++ x) (sym f))
        ∙ ap some new_hash

    visit_unmoved :
        (depth : ℕ) (t : i.Store) (m : JsString)
        → digits m k ≡ q
        → m ≢ at_one.file_name
        → visit i digits depth t m k (some new) ≡ none
    visit_unmoved depth t m e f =
        visit-other_file i law hamt digits shards o d flushed depth t m at_one.file_name k new
          (new_name ∙ ap (λ x. x ++ at_one.file_name) (sym e)) f at_one.not_empty

    found_one :
        (m : JsString) (b : Bool)
        → has_prefix (digits m (suc k)) l ≡ b
        → find_prefix (digits m (suc k)) sub.node.links ≡ (if b then some l else none)
    found_one m b e =
        ap (λ x. find_prefix (digits m (suc k)) x) only
        ∙ ap (λ (x : Bool). if x then some l else none) e

    found_name :
        (depth : ℕ) (t : i.Store) (m : JsString) (c : i.Cid)
        → has_prefix (digits m (suc k)) l ≡ true
        → visit i digits depth t m (suc k) (some l) ≡ some c
        → (m ≡ at_one.file_name) × (c ≡ l.hash)
    found_name depth t m c matched e = elim (Bool-cases (m == at_one.file_name)) [
      | inl same ↦
          let f : m ≡ at_one.file_name = (string_eq.beq_iff _ _).0 same in
          let g : some l.hash ≡ some c =
            sym (
              visit-file i digits depth t m (suc k) l
                (at_one.named ∙ ap (λ x. digits x (suc k) ++ x) (sym f)))
            ∙ e in
          (f, cc)
      | inr different ↦
          let prefix : digits at_one.file_name (suc k) ≡ digits m (suc k) =
            sym (
              ap (λ x. take 2 x) at_one.named
              ∙ take_two _ at_one.file_name (shards.digits-length at_one.file_name (suc k)))
            ∙ (string_eq.beq_iff _ _).0 matched in
          let g : Path (Option i.Cid) none (some c) =
            sym (
              visit-other_file i law hamt digits shards o d flushed depth t m at_one.file_name
                (suc k) l (at_one.named ∙ ap (λ x. x ++ at_one.file_name) prefix)
                (λ f. ground (arith, different, string_eq.beq_iff m at_one.file_name))
                at_one.not_empty)
            ∙ e in
          cc
    ]

    -- What a search finds in the sub-shard with the one link.
    search_one :
        (depth : ℕ) (t : i.Store) (m : JsString) (c : i.Cid)
        → search i digits depth t m (suc k) sub.node ≡ some c
        → (m ≡ at_one.file_name) × (c ≡ l.hash)
    search_one zero t m c e =
        let g : Path (Option i.Cid) none (some c) =
          sym (search-zero i digits t m (suc k) sub.node) ∙ e in
        cc
    search_one (suc depth) t m c e = elim (Bool-cases (has_prefix (digits m (suc k)) l)) [
      | inr unmatched ↦
          let g : Path (Option i.Cid) none (some c) =
            sym (
              search-at i law hamt digits shards o d flushed depth t m (suc k) sub.node none
                (found_one m false unmatched))
            ∙ e in
          cc
      | inl matched ↦
          let here : visit i digits depth t m (suc k) (some l) ≡ some c =
            sym (
              search-at i law hamt digits shards o d flushed depth t m (suc k) sub.node (some l)
                (found_one m true matched))
            ∙ e in
          found_name depth t m c matched here
    ]

  pub new_prefixed : take 2 new.name ≡ q
  new_prefixed = elim (LinkTo-cases i hamt q sub sub.node.links refl) [
    | several n ↦
        ap (λ x. take 2 x.name) n ∙ ap (λ x. take 2 x) (sym (append-nil q)) ∙ take_two q [] two
    | single l only n ↦ ap (λ x. take 2 x.name) n ∙ take_two q (drop 2 l.name) two
  ]

  -- The name is not found through the new link.
  pub gone_new :
      (depth : ℕ) (t : i.Store)
      → Keeps i sub.store t
      → visit i digits depth t name k (some new) ≡ none
  gone_new depth t keeps = elim (LinkTo-cases i hamt q sub sub.node.links refl) [
    | several n ↦ visit_sub depth t name nonempty (sym at) keeps n ∙ removed.gone depth t keeps
    | single l only n ↦ visit_unmoved l only n depth t name (sym at) (λ f.
        let one = at_one l only n in
        let named : l.name ≡ digits name (suc k) ++ name =
          one.named ∙ ap (λ x. digits x (suc k) ++ x) (sym f) in
        let prefixed : has_prefix (digits name (suc k)) l ≡ true =
          (string_eq.beq_iff _ _).1
            (ap (λ x. take 2 x) named ∙ take_two _ name (shards.digits-length name (suc k))) in
        let g : Path (Option i.Cid) none (some l.hash) =
          sym (removed.gone 1 t keeps)
          ∙ search-at i law hamt digits shards o d flushed 0 t name (suc k) sub.node (some l)
              (found_one l only n name true prefixed)
          ∙ visit-file i digits 0 t name (suc k) l named in
        cc)
  ]

  -- What was found in the sub-shard is found through the new link.
  pub kept_new :
      (depth : ℕ) (t : i.Store) (m : JsString) (c : i.Cid)
      → Keeps i sub.store t
      → m ≢ name
      → m ≢ []
      → digits m k ≡ q
      → search i digits depth s m (suc k) below ≡ some c
      → (enough : ℕ) × (visit i digits enough t m k (some new) ≡ some c)
  kept_new depth t m c keeps other named e found =
      let (enough, g) = removed.kept depth t m c keeps other named found in
      elim (LinkTo-cases i hamt q sub sub.node.links refl) [
        | several n ↦ (enough, visit_sub enough t m named e keeps n ∙ g)
        | single l only n ↦
            let (f, h) = search_one l only n enough t m c g in
            (0, visit_moved l only n 0 t m e f ∙ ap some (sym h))
      ]
