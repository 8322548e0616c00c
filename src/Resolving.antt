-- ===== src/Resolving.antt =====
-- packages/ipfs-core/src/utils.js: `resolve`, which follows a path through IPLD nodes.
pub mod Remainders
mod Tests
use js_ipfs.Prelude.{
  ℕ, Bool, true, false, Option, none, some, List, [], ◌∷◌, ◌==◌, string_eq, JsString, join, split,
  nat_beq, length, find, if◌then◌else◌, filter, not,
}

pub record NamedLink (C : Type 0) : Type 0 where
  pub name : JsString
  pub hash : C

-- The blockstore with the codecs, and what is asked of a decoded value: its `Links` when they are an
-- array, its own property of a name, and the CID that it is.
pub record Nodes (C V : Type 0) : Type 0 where
  pub load : C → Option V
  pub is_dag_pb : C → Bool
  pub links : V → Option (List (NamedLink C))
  pub own : V → JsString → Option V
  pub as_cid : V → Option C
  pub of_cid : C → V

-- A block that can not be loaded, and `ERR_NO_LINK` with its key and CID.
pub data ResolveError (C : Type 0) : Type 0 where
  not_loaded : ResolveError C
  no_link : JsString → C → ResolveError C

pub record Yield (V : Type 0) : Type 0 where
  pub value : V
  pub remainder_path : JsString

-- What the generator yields, and what it throws behind that.
pub record Resolved (C V : Type 0) : Type 0 where
  pub yields : List (Yield V)
  pub error : Option (ResolveError C)

abbrev pub slash : ℕ
slash = b'/'

module _ {C V : Type 0} where
  abbrev pub thrown : ResolveError C → Resolved C V
  thrown e = record { yields = []; error = some e }

  abbrev pub yielded : V → List JsString → Resolved C V → Resolved C V
  yielded v parts r = record {
    yields = record { value = v; remainder_path = join (slash ∷ []) parts } ∷ r.yields;
    error = r.error;
  }

  module _ (n : Nodes C V) where
    -- The link that the special case for dag-pb finds.
    abbrev pub pb_link : C → JsString → V → Option (NamedLink C)
    pb_link root key value =
        if n.is_dag_pb root
        then elim (n.links value) [ none ↦ none | some ls ↦ find (λ l. l.name == key) ls ]
        else none

    -- The loop, at the parts that are left, the value and `lastCid`.
    pub steps : C → List JsString → V → C → Resolved C V
    steps root [] value last = yielded value [] (record { yields = []; error = none })
    steps root (key ∷ parts) value last = elim (pb_link root key value) [
      | some l ↦
          yielded (n.of_cid l.hash) parts
            (elim (n.load l.hash) [ none ↦ thrown not_loaded | some v ↦ steps root parts v l.hash ])
      | none ↦ elim (n.own value key) [
        | none ↦ thrown (no_link key last)
        | some v ↦ yielded v parts (elim (n.as_cid v) [
          | none ↦ steps root parts v last
          | some c ↦ elim (n.load c) [ none ↦ thrown not_loaded | some w ↦ steps root parts w c ]
        ])
      ]
    ]

    -- `path.split('/').filter(Boolean)`
    abbrev pub parts_of : JsString → List JsString
    parts_of path = filter (λ p. not (nat_beq (length p) 0)) (split slash path)

    pub resolve : C → JsString → Resolved C V
    unfolding steps
    resolve cid path = elim (n.load cid) [
      | none ↦ thrown not_loaded
      | some v ↦ steps cid (parts_of path) v cid
    ]
