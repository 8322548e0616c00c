-- ===== src/Files/Tree/Example.antt =====
-- A store in which the CID of a node is its whole text.
use js_ipfs.Prelude.{
  ◌≡◌, refl, true, Option, none, some, List, [], ◌∷◌, ◌++◌, ◌==◌, JsString, string_eq, Bool-cases,
  arith, ℕ, length, inl, inr, err, lookup, insert, lookup-insert, nat_beq, ◌+◌,
}
use js_ipfs.Files.Tree.{Link, Node, Ipld, Sharding, not_found}
use js_ipfs.Files.Tree.Links.{IsIpld}
use js_ipfs.Files.Tree.Walk.{IsAddressed}

append-injective :
    (xs ys a b : JsString) → length xs ≡ length ys → xs ++ a ≡ ys ++ b → (xs ≡ ys) × (a ≡ b)
append-injective [] [] a b l e = (refl, e)
append-injective [] (y ∷ ys) a b l e = ground arith
append-injective (x ∷ xs) [] a b l e = ground arith
append-injective (x ∷ xs) (y ∷ ys) a b l e =
    let tails : xs ++ a ≡ ys ++ b = cc in
    let (p, q) = append-injective xs ys a b (omega arith) tails in (cc, q)

abbrev written : List (Link JsString) → JsString
written [] = []
written (l ∷ ls) = length l.name ∷ l.name ++ (l.tsize ∷ length l.hash ∷ l.hash ++ written ls)

written-injective : (xs ys : List (Link JsString)) → written xs ≡ written ys → xs ≡ ys
written-injective [] [] e = refl
written-injective [] (y ∷ ys) e = cc
written-injective (x ∷ xs) [] e = cc
written-injective (x ∷ xs) (y ∷ ys) e =
    let names_long : length x.name ≡ length y.name = cc in
    let behind : x.name ++ (x.tsize ∷ length x.hash ∷ x.hash ++ written xs)
        ≡ y.name ++ (y.tsize ∷ length y.hash ∷ y.hash ++ written ys) =
      cc in
    let (p, q) = append-injective x.name y.name _ _ names_long behind in
    let size : x.tsize ≡ y.tsize = cc in
    let hashes_long : length x.hash ≡ length y.hash = cc in
    let rest : x.hash ++ written xs ≡ y.hash ++ written ys = cc in
    let (r, t) = append-injective x.hash y.hash (written xs) (written ys) hashes_long rest in
    let same : x ≡ y = λ i. record { name = p i; tsize = size i; hash = r i } in
    let others : xs ≡ ys = written-injective xs ys t in cc

abbrev held : Option ℕ → ℕ
held none = 0
held (some d) = 1 + d

abbrev pub digest : Node JsString ℕ → JsString
digest n = held n.meta ∷ written n.links

abbrev pub blocks : Ipld
blocks = record {
  Cid = JsString;
  Data = ℕ;
  Block = Node JsString ℕ;
  Store = List (JsString × Node JsString ℕ);
  prepare = λ n. n;
  encode = λ n. n;
  decode = λ b. b;
  size = λ b. length (digest b);
  digest = digest;
  is_dag_pb = λ c. true;
  is_sharded = λ d. nat_beq d 2;
  touched = λ d. d;
  get = λ c s. lookup c s;
  put = λ c b s. insert c b s;
}

held-injective : (a b : Option ℕ) → held a ≡ held b → a ≡ b
held-injective none none e = refl
held-injective none (some d) e = ground arith
held-injective (some d) none e = ground arith
held-injective (some c) (some d) e = let p : c ≡ d = omega arith in cc

digest-injective : (a b : Node JsString ℕ) → digest a ≡ digest b → a ≡ b
digest-injective a b e =
    let p : held a.meta ≡ held b.meta = cc in
    let q : written a.links ≡ written b.links = cc in
    let p' = held-injective a.meta b.meta p in
    let q' = written-injective a.links b.links q in λ i. record { meta = p' i; links = q' i }

pub blocks-IsIpld : IsIpld blocks
blocks-IsIpld = record {
  decode-encode = λ n. refl;
  prepare-link = λ name n. refl;
  decode-removed = λ b name. refl;
  get-put_self = λ c b s. ground (arith, lookup-insert c c b s, string_eq.beq_iff c c);
  get-put = λ c d b s. ground (arith, lookup-insert d c b s, string_eq.beq_iff d c);
  digest-injective = digest-injective;
}

-- Of the data only the type is kept: 0 for a file, 1 for a directory and 2 for one with shards.
abbrev pub file : Node JsString ℕ
file = record { meta = some 0; links = [] }

abbrev pub unsupported : Sharding blocks
unsupported = record {
  add_to_sharded_directory = λ parent l s. err not_found;
  convert_to_sharded_directory = λ parent l s. err not_found;
  remove_from_sharded_directory = λ parent n s. err not_found;
}

-- Each block stands under its digest.
abbrev pub Honest : blocks.Store → Type 0
Honest [] = Unit
Honest ((c, b) ∷ s) = (c ≡ digest b) × Honest s

pub Honest-IsAddressed : (s : blocks.Store) → Honest s → IsAddressed blocks s
Honest-IsAddressed [] h a b e = cc
Honest-IsAddressed ((c, x) ∷ s) (named, h) a b e = elim (Bool-cases (c == digest a)) [
  | inl same ↦
      let q : c ≡ digest a = (string_eq.beq_iff _ _).0 same in
      let p : x ≡ a = digest-injective x a cc in let g : some x ≡ some b = rw same at e in cc
  | inr other ↦ Honest-IsAddressed s h a b (rw other at e)
]
