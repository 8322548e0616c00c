-- ===== src/Resolving/Remainders.antt =====
-- What `resolve` yields.
use js_ipfs.Prelude.{
  ◌≡◌, refl, ◌∙◌, ap, false, Option, none, some, List, [], ◌∷◌, string_eq, JsString, join, map,
  length, take, leb, arith, is_some, Option-cases, inl, inr,
}
use js_ipfs.Resolving.{
  Nodes, not_loaded, Resolved, slash, thrown, yielded, pb_link, steps, parts_of, resolve,
}

-- What is left behind each part of a path, and behind the last value.
abbrev pub remainders : List JsString → List JsString
remainders [] = [] ∷ []
remainders (p ∷ ps) = join (slash ∷ []) ps ∷ remainders ps

module _ {C V : Type 0} where
  -- The values come with what is left of the path behind them, and the last part is reached unless
  -- there is an error.
  abbrev pub Covers : List JsString → Resolved C V → Type 0
  Covers parts r =
      (map (λ y. y.remainder_path) r.yields ≡ take (length r.yields) (remainders parts))
      × (is_some r.error ≡ leb (length r.yields) (length parts))

  same-loaded :
      (o : Option V) (k h : V → Resolved C V)
      → ((v : V) → k v ≡ h v)
      → (elim o [ none ↦ thrown {C = C} {V = V} not_loaded | some v ↦ k v ])
        ≡ (elim o [ none ↦ thrown {C = C} {V = V} not_loaded | some v ↦ h v ])
  same-loaded none k h e = refl
  same-loaded (some v) k h e = e v

  Covers-yielded :
      (key : JsString) (parts : List JsString) (v : V) (r : Resolved C V)
      → Covers parts r
      → Covers (key ∷ parts) (yielded v parts r)
  Covers-yielded key parts v r (rests, reached) =
      (ap (λ ps. join (slash ∷ []) parts ∷ ps) rests, reached ∙ ground arith)

  Covers-loaded :
      (parts : List JsString) (o : Option V) (k : V → Resolved C V)
      → ((v : V) → Covers parts (k v))
      → Covers parts (elim o [ none ↦ thrown not_loaded | some v ↦ k v ])
  Covers-loaded parts none k h = (refl, ground arith)
  Covers-loaded parts (some v) k h = h v

  module _ (n : Nodes C V) where
    -- A value of the path, which may be a CID to follow.
    Covers-followed :
        (root last : C) (parts : List JsString) (v : V) (o : Option C)
        → ((w : V) (c : C) → Covers parts (steps n root parts w c))
        → Covers parts (elim o [
          | none ↦ steps n root parts v last
          | some c ↦ elim (n.load c) [ none ↦ thrown not_loaded | some w ↦ steps n root parts w c ]
        ])
    Covers-followed root last parts v none h = h v last
    Covers-followed root last parts v (some c) h =
        Covers-loaded parts (n.load c) (λ w. steps n root parts w c) (λ w. h w c)

    steps-Covers :
        (root : C) (parts : List JsString) (value : V) (last : C)
        → Covers parts (steps n root parts value last)
    unfolding steps
    steps-Covers root [] value last = (refl, ground arith)
    steps-Covers root (key ∷ parts) value last =
        let rest : (w : V) (c : C) → Covers parts (steps n root parts w c) =
          steps-Covers root parts in
        elim (Option-cases (pb_link n root key value)) [
          | inr (l, link) ↦
              rw (link, steps)
                (Covers-yielded key parts (n.of_cid l.hash) _ (
                  Covers-loaded parts (n.load l.hash) (λ w. steps n root parts w l.hash)
                    (λ w. rest w l.hash)))
          | inl no_pb_link ↦ elim (Option-cases (n.own value key)) [
            | inl missing ↦ rw (no_pb_link, steps) (rw (missing, steps) (refl, ground arith))
            | inr (v, found) ↦
                rw (no_pb_link, steps)
                  (rw (found, steps)
                    (Covers-yielded key parts v _
                      (Covers-followed root last parts v (n.as_cid v) rest)))
          ]
        ]

    -- The values that `resolve` yields come in the order of the path, each with what is left of the
    -- path behind it, and it yields one for each part of the path and a last one with nothing left,
    -- unless it throws.
    pub resolve-Covers : (cid : C) (path : JsString) → Covers (parts_of n path) (resolve n cid path)
    unfolding resolve
    resolve-Covers cid path =
        Covers-loaded (parts_of n path) (n.load cid) (λ v. steps n cid (parts_of n path) v cid)
          (λ v. steps-Covers cid (parts_of n path) v cid)

    -- The blocks without the names of their links.
    abbrev pub nameless : Nodes C V
    nameless = record n { links = λ v. none }

    followed-nameless :
        (root last : C) (parts : List JsString) (v : V) (o : Option C)
        → ((w : V) (c : C) → steps n root parts w c ≡ steps nameless root parts w c)
        → (elim o [
          | none ↦ steps n root parts v last
          | some c ↦ elim (n.load c) [
            | none ↦ thrown {C = C} {V = V} not_loaded
            | some w ↦ steps n root parts w c
          ]
        ])
          ≡ (elim o [
            | none ↦ steps nameless root parts v last
            | some c ↦ elim (n.load c) [
              | none ↦ thrown {C = C} {V = V} not_loaded
              | some w ↦ steps nameless root parts w c
            ]
          ])
    followed-nameless root last parts v none h = h v last
    followed-nameless root last parts v (some c) h =
        same-loaded (n.load c) (λ w. steps n root parts w c) (λ w. steps nameless root parts w c)
          (λ w. h w c)

    steps-nameless :
        (root : C) (parts : List JsString) (value : V) (last : C)
        → n.is_dag_pb root ≡ false
        → steps n root parts value last ≡ steps nameless root parts value last
    unfolding steps
    steps-nameless root [] value last other = refl
    steps-nameless root (key ∷ parts) value last other = elim (Option-cases (n.own value key)) [
      | inl missing ↦ rw (other, steps) (rw (missing, steps) refl)
      | inr (v, found) ↦
          rw (other, steps)
            (rw (found, steps)
              (ap (yielded v parts) (
                followed-nameless root last parts v (n.as_cid v)
                  (λ w c. steps-nameless root parts w c other))))
    ]

    -- If the CID that the path starts at is not of dag-pb, the names of links are never used, also not
    -- in the dag-pb nodes that the path leads through.
    pub resolve-nameless :
        (cid : C) (path : JsString)
        → n.is_dag_pb cid ≡ false
        → resolve n cid path ≡ resolve nameless cid path
    unfolding resolve
    resolve-nameless cid path other =
        same-loaded (n.load cid) (λ v. steps n cid (parts_of n path) v cid)
          (λ v. steps nameless cid (parts_of n path) v cid)
          (λ v. steps-nameless cid (parts_of n path) v cid other)
