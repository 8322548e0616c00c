-- ===== src/Refs/Order.antt =====
-- `refs` against a plain listing of the links below a root.
use mathlib.Core.Path.{sym, ◌∙◌, ap, ap₂}
use js_ipfs.Prelude.{
  ◌≡◌, refl, ℕ, Bool, true, false, not, Option, some, List, [], ◌∷◌, ◌++◌, Eq, filter, map,
  if◌then◌else◌, arith, Bool-cases, zero, suc, inl, inr,
}
use js_ipfs.Refs.{
  Link, Object, Walked, member, over_links, traverse_level, object_stream, refs_stream,
}

module _ {N C : Type 0} where
  -- The links below a root, each followed by those below it.
  abbrev pub preorder_links : (C → List (Link N C)) → List (Link N C) → List (Link N C)
  preorder_links level [] = []
  preorder_links level (l ∷ ls) = l ∷ level l.cid ++ preorder_links level ls

  abbrev pub preorder : (C → List (Link N C)) → ℕ → C → List (Link N C)
  preorder links zero c = []
  preorder links (suc n) c = preorder_links (preorder links n) (links c)

module _ {N C : Type 0} ⦃e : Eq C⦄ where
  -- The links to objects that were not linked to before.
  abbrev pub first_links : List C → List (Link N C) → List (Link N C)
  first_links seen [] = []
  first_links seen (l ∷ ls) =
      if member l.cid seen then first_links (l.cid ∷ seen) ls else l ∷ first_links (l.cid ∷ seen) ls

  -- `seen` behind a listing.
  abbrev after : List C → List (Link N C) → List C
  after seen [] = seen
  after seen (l ∷ ls) = after (l.cid ∷ seen) ls

  after-append :
      (seen : List C) (xs ys : List (Link N C)) → after seen (xs ++ ys) ≡ after (after seen xs) ys
  after-append seen [] ys = refl
  after-append seen (x ∷ xs) ys = after-append (x.cid ∷ seen) xs ys

  first_links-append :
      (seen : List C) (xs ys : List (Link N C))
      → first_links seen (xs ++ ys) ≡ first_links seen xs ++ first_links (after seen xs) ys
  first_links-append seen [] ys = refl
  first_links-append seen (x ∷ xs) ys = ground (arith, first_links-append (x.cid ∷ seen) xs ys)

  abbrev shown : List (Object N C) → List (Link N C)
  shown os = map (λ o. o.node) (filter (λ o. not o.is_duplicate) os)

  shown-append : (xs ys : List (Object N C)) → shown (xs ++ ys) ≡ shown xs ++ shown ys
  shown-append [] ys = refl
  shown-append (x ∷ xs) ys = ground (arith, shown-append xs ys)

  -- What one call yields and leaves, by the listing `xs` of the links that it comes by.
  abbrev Lists : Bool → List C → List (Link N C) → Walked N C → Type 0
  Lists true seen xs w =
      (shown w.objects ≡ first_links seen xs) × (w.seen ≡ after seen xs) × (w.thrown ≡ false)
  Lists false seen xs w = (shown w.objects ≡ xs) × (w.seen ≡ seen) × (w.thrown ≡ false)

  module _ (get_links : C → Option (List (Link N C))) (links : C → List (Link N C))
      (complete : (c : C) → get_links c ≡ some (links c)) where
    over_links-Lists :
        (unique : Bool) (level : C → List C → Walked N C) (spec : C → List (Link N C)) (parent : C)
        (ls : List (Link N C)) (seen : List C)
        → ((c : C) (s : List C) → Lists unique s (spec c) (level c s))
        → Lists unique seen
            (preorder_links spec ls)
            (over_links get_links unique level parent ls seen)
    unfolding over_links
    over_links-Lists true level spec parent [] seen h = (refl, refl, refl)
    over_links-Lists false level spec parent [] seen h = (refl, refl, refl)
    over_links-Lists true level spec parent (l ∷ ls) seen h =
        let below = level l.cid (l.cid ∷ seen) in
        let (o, s, t) = h l.cid (l.cid ∷ seen) in
        let rest = over_links get_links true level parent ls below.seen in
        let (o', s', t') = over_links-Lists true level spec parent ls below.seen h in
        let listed : shown (below.objects ++ rest.objects)
            ≡ first_links (l.cid ∷ seen) (spec l.cid ++ preorder_links spec ls) =
          shown-append below.objects rest.objects
          ∙ ap₂ (λ xs ys. xs ++ ys) o o'
          ∙ ap
              (λ x.
                first_links (l.cid ∷ seen) (spec l.cid) ++ first_links x (preorder_links spec ls))
              s
          ∙ sym (first_links-append (l.cid ∷ seen) (spec l.cid) (preorder_links spec ls)) in
        let left : rest.seen ≡ after (l.cid ∷ seen) (spec l.cid ++ preorder_links spec ls) =
          s'
          ∙ ap (λ x. after x (preorder_links spec ls)) s
          ∙ sym (after-append (l.cid ∷ seen) (spec l.cid) (preorder_links spec ls)) in
        rw t (
          elim (Bool-cases (member l.cid seen)) [
            | inl old ↦ rw old listed
            | inr new ↦ rw new (ap (λ xs. l ∷ xs) listed)
          ],
          left,
          t',
        )
    over_links-Lists false level spec parent (l ∷ ls) seen h =
        let below = level l.cid seen in
        let (o, s, t) = h l.cid seen in
        let rest = over_links get_links false level parent ls below.seen in
        let (o', s', t') = over_links-Lists false level spec parent ls below.seen h in
        rw t (
          ap (λ xs. l ∷ xs)
              (shown-append below.objects rest.objects ∙ ap₂ (λ xs ys. xs ++ ys) o o'),
          s' ∙ s,
          t',
        )

    traverse_level-Lists :
        (unique : Bool) (levels : ℕ) (c : C) (seen : List C)
        → Lists unique seen
            (preorder links levels c)
            (traverse_level get_links unique levels c seen)
    unfolding traverse_level
    traverse_level-Lists true zero c seen = (refl, refl, refl)
    traverse_level-Lists false zero c seen = (refl, refl, refl)
    traverse_level-Lists unique (suc n) c seen =
        rw (complete c, traverse_level)
          (over_links-Lists unique (traverse_level get_links unique n) (preorder links n) c
            (links c) seen (traverse_level-Lists unique n))

    -- Where no block is missing, `refs` lists the links below the root in depth-first order, down to
    -- `maxDepth`; with `unique` those of them that are the first to link to their object.
    pub refs_stream-preorder :
        (unique : Bool) (max_depth : ℕ) (root : C)
        → (refs_stream get_links unique max_depth root ≡ (
            if unique
            then first_links [] (preorder links max_depth root)
            else preorder links max_depth root))
          × ((object_stream get_links unique max_depth root).thrown ≡ false)
    unfolding refs_stream object_stream
    refs_stream-preorder true max_depth root =
        let (o, s, t) = traverse_level-Lists true max_depth root [] in (o, t)
    refs_stream-preorder false max_depth root =
        let (o, s, t) = traverse_level-Lists false max_depth root [] in (o, t)
