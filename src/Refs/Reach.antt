-- ===== src/Refs/Reach.antt =====
-- What `refs` yields, by the links between objects.
use mathlib.Core.Path.{sym}
use mathlib.Core.Logic.{◌↔◌}
use js_ipfs.Prelude.{
  ◌≡◌, ℕ, suc, zero, Bool, true, false, Option, some, List, [], ◌∷◌, ◌++◌, ◌==◌, Eq, arith,
  Bool-cases, ◌⊎◌, inl, inr,
}
use js_ipfs.Refs.{Link, member, refs_stream}
use js_ipfs.Refs.Order.{preorder, preorder_links, first_links, refs_stream-preorder}

module _ {N C : Type 0} where
  abbrev pub AnyLink : (Link N C → Type 0) → List (Link N C) → Type 0
  AnyLink p [] = ⊥
  AnyLink p (l ∷ ls) = p l ⊎ AnyLink p ls

  -- A listing has a link to the object.
  abbrev pub Yields : C → List (Link N C) → Type 0
  Yields d ls = AnyLink (λ l. l.cid ≡ d) ls

  -- A way of one link or more, and of `n` links at most.
  abbrev pub Reaches : (C → List (Link N C)) → ℕ → C → C → Type 0
  Reaches links zero c d = ⊥
  Reaches links (suc n) c d = AnyLink (λ l. (l.cid ≡ d) ⊎ Reaches links n l.cid d) (links c)

  -- No two links of a listing are to one object.
  abbrev pub IsDistinct : List (Link N C) → Type 0
  IsDistinct [] = Unit
  IsDistinct (l ∷ ls) = ¬ Yields l.cid ls × IsDistinct ls

  Yields-append_left : (d : C) (xs ys : List (Link N C)) → Yields d xs → Yields d (xs ++ ys)
  Yields-append_left d [] ys x = elim x [ ]
  Yields-append_left d (x ∷ xs) ys (inl e) = inl e
  Yields-append_left d (x ∷ xs) ys (inr r) = inr (Yields-append_left d xs ys r)

  Yields-append_right : (d : C) (xs ys : List (Link N C)) → Yields d ys → Yields d (xs ++ ys)
  Yields-append_right d [] ys y = y
  Yields-append_right d (x ∷ xs) ys y = inr (Yields-append_right d xs ys y)

  append-Yields :
      (d : C) (xs ys : List (Link N C)) → Yields d (xs ++ ys) → Yields d xs ⊎ Yields d ys
  append-Yields d [] ys y = inr y
  append-Yields d (x ∷ xs) ys (inl e) = inl (inl e)
  append-Yields d (x ∷ xs) ys (inr r) = elim (append-Yields d xs ys r) [
    | inl a ↦ inl (inr a)
    | inr b ↦ inr b
  ]

  preorder_links-Yields :
      (level : C → List (Link N C)) (reached : C → C → Type 0) (d : C) (ls : List (Link N C))
      → ((c : C) → Yields d (level c) → reached c d)
      → Yields d (preorder_links level ls)
      → AnyLink (λ l. (l.cid ≡ d) ⊎ reached l.cid d) ls
  preorder_links-Yields level reached d [] h x = elim x [ ]
  preorder_links-Yields level reached d (l ∷ ls) h (inl e) = inl (inl e)
  preorder_links-Yields level reached d (l ∷ ls) h (inr y) =
      elim (append-Yields d (level l.cid) (preorder_links level ls) y) [
        | inl a ↦ inl (inr (h l.cid a))
        | inr b ↦ inr (preorder_links-Yields level reached d ls h b)
      ]

  Yields-preorder_links :
      (level : C → List (Link N C)) (reached : C → C → Type 0) (d : C) (ls : List (Link N C))
      → ((c : C) → reached c d → Yields d (level c))
      → AnyLink (λ l. (l.cid ≡ d) ⊎ reached l.cid d) ls
      → Yields d (preorder_links level ls)
  Yields-preorder_links level reached d [] h x = elim x [ ]
  Yields-preorder_links level reached d (l ∷ ls) h (inl (inl e)) = inl e
  Yields-preorder_links level reached d (l ∷ ls) h (inl (inr r)) =
      inr (Yields-append_left d (level l.cid) (preorder_links level ls) (h l.cid r))
  Yields-preorder_links level reached d (l ∷ ls) h (inr y) = inr (
      Yields-append_right d (level l.cid) (preorder_links level ls)
        (Yields-preorder_links level reached d ls h y))

  preorder-Reaches :
      (links : C → List (Link N C)) (n : ℕ) (c d : C)
      → Yields d (preorder links n c)
      → Reaches links n c d
  preorder-Reaches links zero c d x = elim x [ ]
  preorder-Reaches links (suc n) c d y =
      preorder_links-Yields (preorder links n) (Reaches links n) d (links c)
        (λ b. preorder-Reaches links n b d) y

  Reaches-preorder :
      (links : C → List (Link N C)) (n : ℕ) (c d : C)
      → Reaches links n c d
      → Yields d (preorder links n c)
  Reaches-preorder links zero c d x = elim x [ ]
  Reaches-preorder links (suc n) c d y =
      Yields-preorder_links (preorder links n) (Reaches links n) d (links c)
        (λ b. Reaches-preorder links n b d) y

module _ {N C : Type 0} ⦃e : Eq C⦄ where
  first_links-Yields :
      (d : C) (seen : List C) (ls : List (Link N C))
      → Yields d (first_links seen ls)
      → (member d seen ≡ false) × Yields d ls
  first_links-Yields d seen [] x = elim x [ ]
  first_links-Yields d seen (l ∷ ls) y = elim (Bool-cases (member l.cid seen)) [
    | inl old ↦
        let (f, r) = first_links-Yields d (l.cid ∷ seen) ls (rw old at y) in (ground arith, inr r)
    | inr new ↦ elim (rw new at y) [
      | inl same ↦ (rw (sym same) new, inl same)
      | inr later ↦
          let (f, r) = first_links-Yields d (l.cid ∷ seen) ls later in (ground arith, inr r)
    ]
  ]

  Yields-first_links :
      (d : C) (seen : List C) (ls : List (Link N C))
      → Yields d ls
      → (member d seen ≡ true) ⊎ Yields d (first_links seen ls)
  Yields-first_links d seen [] x = elim x [ ]
  Yields-first_links d seen (l ∷ ls) (inl same) = elim (Bool-cases (member l.cid seen)) [
    | inl old ↦ inl (rw (sym same) old)
    | inr new ↦ inr (rw new (inl same))
  ]
  Yields-first_links d seen (l ∷ ls) (inr later) = elim (Bool-cases (member l.cid seen)) [
    | inl old ↦ elim (Yields-first_links d (l.cid ∷ seen) ls later) [
      | inl known ↦ inl (ground (arith, e.beq_iff l.cid d))
      | inr y ↦ inr (rw old y)
    ]
    | inr new ↦ elim (Yields-first_links d (l.cid ∷ seen) ls later) [
      | inl known ↦ elim (Bool-cases (l.cid == d)) [
        | inl same ↦ inr (rw new (inl ((e.beq_iff l.cid d).0 same)))
        | inr other ↦ inl (ground arith)
      ]
      | inr y ↦ inr (rw new (inr y))
    ]
  ]

  first_links-IsDistinct : (seen : List C) (ls : List (Link N C)) → IsDistinct (first_links seen ls)
  first_links-IsDistinct seen [] = tt
  first_links-IsDistinct seen (l ∷ ls) = elim (Bool-cases (member l.cid seen)) [
    | inl old ↦ rw old (first_links-IsDistinct (l.cid ∷ seen) ls)
    | inr new ↦ rw new (
      λ y.
          let (f, r) = first_links-Yields l.cid (l.cid ∷ seen) ls y in
          ground (arith, e.beq_iff l.cid l.cid),
      first_links-IsDistinct (l.cid ∷ seen) ls,
    )
  ]

  -- Where no block is missing, `refs` with and without `unique` yields a link to an object exactly
  -- if the object is reached from the root by at least one and at most `maxDepth` links; with
  -- `unique` no two of the links are to one object.
  pub refs_stream-Reaches :
      (get_links : C → Option (List (Link N C))) (links : C → List (Link N C))
      (complete : (c : C) → get_links c ≡ some (links c)) (unique : Bool) (max_depth : ℕ)
      (root d : C)
      → (Yields d (refs_stream get_links unique max_depth root) ↔ Reaches links max_depth root d)
        × IsDistinct (refs_stream get_links true max_depth root)
  refs_stream-Reaches get_links links complete true n root d =
      let listed = (refs_stream-preorder get_links links complete true n root).0 in
      rw listed (
        (
          λ y.
              preorder-Reaches links n root d (first_links-Yields d [] (preorder links n root) y).1,
          λ r.
              elim (Yields-first_links d [] (preorder links n root)
                (Reaches-preorder links n root d r)) [ inl bad ↦ cc (bad) | inr y ↦ y ],
        ),
        first_links-IsDistinct [] (preorder links n root),
      )
  refs_stream-Reaches get_links links complete false n root d = (
    rw ((refs_stream-preorder get_links links complete false n root).0)
        (preorder-Reaches links n root d, Reaches-preorder links n root d),
    rw ((refs_stream-preorder get_links links complete true n root).0)
        (first_links-IsDistinct [] (preorder links n root)),
  )
