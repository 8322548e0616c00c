-- ===== src/Files/Tree/Links.antt =====
-- The links of a plain directory behind `addLink` and `removeLink`.
use mathlib.Core.Path.{◌∙◌}
use js_ipfs.Prelude.{
  ◌≡◌, refl, Bool, not, none, some, List, [], ◌∷◌, ◌++◌, ◌==◌, JsString, filter, if◌then◌else◌,
  string_eq, arith, ℕ, ◌⊎◌,
}
use js_ipfs.Files.Tree.{Link, Node, Ipld, link_of, add_to_directory, remove_from_directory, without}

-- What the packages promise. A node is encoded once `prepare` has put its links in order, which
-- keeps what is found under a name; blocks with one CID are one block.
pub record IsIpld (i : Ipld) : Type 0 where
  pub decode-encode : (n : Node i.Cid i.Data) → i.decode (i.encode (i.prepare n)) ≡ i.prepare n
  pub prepare-link :
      (name : JsString) (n : Node i.Cid i.Data)
      → link_of name (i.prepare n).links ≡ link_of name n.links
  -- A node that was read has its links in order, and they stay so when one is taken out.
  pub decode-removed :
      (b : i.Block) (name : JsString)
      → let n : Node i.Cid i.Data = record {
        meta = (i.decode b).meta;
        links = without i name (i.decode b).links;
      } in
        i.decode (i.encode n) ≡ n
  pub get-put_self : (c : i.Cid) (b : i.Block) (s : i.Store) → i.get c (i.put c b s) ≡ some b
  pub get-put :
      (c d : i.Cid) (b : i.Block) (s : i.Store) → (c ≡ d) ⊎ (i.get c (i.put d b s) ≡ i.get c s)
  pub digest-injective : (a b : i.Block) → i.digest a ≡ i.digest b → a ≡ b

link_of-append :
    {C : Type 0} (name n : JsString) (links : List (Link C)) (l : Link C)
    → l.name ≡ name
    → link_of n (filter (λ k. not (k.name == name)) links ++ l ∷ [])
      ≡ (if name == n then some l else link_of n links)
link_of-append name n [] l e = rw e refl
link_of-append name n (k ∷ links) l e = ground (
  arith,
  link_of-append name n links l e,
  string_eq.beq_iff k.name name,
  string_eq.beq_iff k.name n,
  string_eq.beq_iff name n,
)

link_of-filter :
    {C : Type 0} (name n : JsString) (links : List (Link C))
    → link_of n (filter (λ k. not (k.name == name)) links)
      ≡ (if name == n then none else link_of n links)
link_of-filter name n [] = ground arith
link_of-filter name n (k ∷ links) = ground (
  arith,
  link_of-filter name n links,
  string_eq.beq_iff k.name name,
  string_eq.beq_iff k.name n,
  string_eq.beq_iff name n,
)

module _ (i : Ipld) (law : IsIpld i) where
  -- Behind `addToDirectory` the new link is what is found under its name, whether or not there was
  -- one before, and every other name finds what it found before; the CID is the digest of the
  -- encoded node.
  pub add_to_directory-link_of :
      (parent : Node i.Cid i.Data) (d : i.Data) (name : JsString) (cid : i.Cid) (size : ℕ)
      (flush : Bool) (s : i.Store) (n : JsString)
      → let r = add_to_directory i parent d name cid size flush s in
        (link_of n r.node.links ≡ (
          if name == n
          then some (record { name = name; tsize = size; hash = cid })
          else link_of n parent.links))
        × (r.cid ≡ i.digest (i.encode r.node))
  unfolding add_to_directory
  add_to_directory-link_of parent d name cid size flush s n = (
    law.prepare-link n _
        ∙ link_of-append name n parent.links (record { name = name; tsize = size; hash = cid })
            refl,
    refl,
  )

  -- Behind `removeFromDirectory` nothing is found under the name, and every other name finds what it
  -- found before; the encoded node is in the store under the CID that is returned.
  pub remove_from_directory-link_of :
      (parent : Node i.Cid i.Data) (name : JsString) (s : i.Store) (n : JsString)
      → let r = remove_from_directory i parent name s in
        (link_of n r.node.links ≡ (if name == n then none else link_of n parent.links))
        × (i.get r.cid r.store ≡ some (i.encode r.node))
  unfolding remove_from_directory
  remove_from_directory-link_of parent name s n =
      (link_of-filter name n parent.links, law.get-put_self _ _ s)
