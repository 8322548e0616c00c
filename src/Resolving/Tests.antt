-- ===== src/Resolving/Tests.antt =====
-- Paths through a few nodes.
use js_ipfs.Prelude.{
  ◌≡◌, refl, ℕ, ◌&&◌, none, some, [], ◌∷◌, ◌==◌, string_eq, codes, nat_beq, if◌then◌else◌,
}
use js_ipfs.Resolving.{Nodes, no_link, steps, resolve, parts_of}
use js_ipfs.Resolving.Remainders.{Covers, resolve-Covers, nameless, resolve-nameless}

-- Node 1 is of dag-pb and has a link `a`; node 2 is not, and its property `x` is the CID 1.
abbrev nodes : Nodes ℕ ℕ
nodes = record {
  load = λ c. some c;
  is_dag_pb = λ c. nat_beq c 1;
  links = λ v. if nat_beq v 1 then some (record { name = codes "a"; hash = 3 } ∷ []) else none;
  own = λ v key. if nat_beq v 2 && key == codes "x" then some 1 else none;
  as_cid = λ v. some v;
  of_cid = λ c. c;
}

resolve-Covers_example : Covers (parts_of nodes (codes "/a//b")) (resolve nodes 1 (codes "/a//b"))
resolve-Covers_example = resolve-Covers nodes 1 (codes "/a//b")

resolve-nameless_example : resolve nodes 2 (codes "x/a") ≡ resolve (nameless nodes) 2 (codes "x/a")
resolve-nameless_example = resolve-nameless nodes 2 (codes "x/a") refl

-- The link `a` is found from node 1, but not on the way from node 2 through node 1.
through_dag_pb :
    (resolve nodes 1 (codes "a") ≡ record {
      yields =
          record { value = 3; remainder_path = [] }
          ∷ record { value = 3; remainder_path = [] }
          ∷ [];
      error = none;
    })
    × (resolve nodes 2 (codes "x/a") ≡ record {
      yields = record { value = 1; remainder_path = codes "a" } ∷ [];
      error = some (no_link (codes "a") 1);
    })
unfolding resolve steps
through_dag_pb = (refl, refl)
