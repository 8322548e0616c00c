-- ===== src/Refs.antt =====
-- packages/ipfs-core/src/components/refs/index.js: the references of an object, depth first.
-- `getLinks` reads a block and decodes it by external codecs: it is a parameter, and `none` is an
-- error that it throws. `maxDepth` is finite: `Infinity` is any bound that no way through the links
-- exceeds.
pub mod Order
pub mod Reach
mod Tests
use js_ipfs.Prelude.{
  ℕ, Bool, true, false, ◌&&◌, not, Option, none, some, List, [], ◌∷◌, ◌++◌, ◌==◌, Eq, filter, map,
  if◌then◌else◌, zero, ◌||◌, suc,
}

-- A link, as `getLinks` yields it.
pub record Link (N C : Type 0) : Type 0 where
  pub name : N
  pub cid : C

-- `{ parent, node, isDuplicate }`
pub record Object (N C : Type 0) : Type 0 where
  pub parent : C
  pub node : Link N C
  pub is_duplicate : Bool

-- What a generator has yielded when it ends, the set `seen`, and whether it threw.
pub record Walked (N C : Type 0) : Type 0 where
  pub objects : List (Object N C)
  pub seen : List C
  pub thrown : Bool

abbrev pub member : {C : Type 0} → ⦃e : Eq C⦄ → C → List C → Bool
member c [] = false
member c (d ∷ ds) = d == c || member c ds

module _ {N C : Type 0} ⦃e : Eq C⦄ where
  module _ (get_links : C → Option (List (Link N C))) (unique_only : Bool) where
    -- The loop of `traverseLevel` over the links; `level` is its recursive call.
    pub over_links : (C → List C → Walked N C) → C → List (Link N C) → List C → Walked N C
    over_links level parent [] seen = record { objects = []; seen = seen; thrown = false }
    over_links level parent (l ∷ ls) seen =
        let o : Object N C = record {
          parent = parent;
          node = l;
          is_duplicate = unique_only && member l.cid seen;
        } in
        let below = level l.cid (if unique_only then l.cid ∷ seen else seen) in
        let rest = over_links level parent ls below.seen in
        if below.thrown
        then record { objects = o ∷ below.objects; seen = below.seen; thrown = true }
        else record {
          objects = o ∷ below.objects ++ rest.objects;
          seen = rest.seen;
          thrown = rest.thrown;
        }

    -- `traverseLevel`, with the number of levels that are left, `maxDepth - depth`.
    pub traverse_level : ℕ → C → List C → Walked N C
    unfolding over_links
    traverse_level zero parent seen = record { objects = []; seen = seen; thrown = false }
    traverse_level (suc levels) parent seen = elim (get_links parent) [
      | none ↦ record { objects = []; seen = seen; thrown = true }
      | some ls ↦ over_links (traverse_level levels) parent ls seen
    ]

    -- `objectStream`
    pub object_stream : ℕ → C → Walked N C
    unfolding traverse_level
    object_stream max_depth root = traverse_level max_depth root []

    -- `refsStream`, behind the resolution of its path, up to the format of a link.
    pub refs_stream : ℕ → C → List (Link N C)
    unfolding object_stream
    refs_stream max_depth root =
        map (λ o. o.node) (filter (λ o. not o.is_duplicate) (object_stream max_depth root).objects)
