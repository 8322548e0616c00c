-- ===== src/Files/Shards/Links.antt =====
-- Links whose prefixes differ: what is found under a prefix when links are sorted, taken out and added.
use js_ipfs.Prelude.{
  suc, ◌≡◌, ◌≢◌, refl, ap, ◌∙◌, Bool, true, false, none, some, List, [], ◌∷◌, ◌++◌, ◌==◌, JsString,
  string_eq, length, take, if◌then◌else◌, arith, Bool-cases, inl, inr,
}
use js_ipfs.Files.Tree.{Link}
use js_ipfs.Files.Shards.{has_prefix, find_prefix, without, insert_link, sort_links}

module _ {C : Type 0} where
  -- No two links have the prefix.
  abbrev pub IsUniqueAt : JsString → List (Link C) → Type 0
  IsUniqueAt p [] = Unit
  IsUniqueAt p (l ∷ links) =
      (has_prefix p l ≡ true → find_prefix p links ≡ none) × IsUniqueAt p links

  abbrev pub IsUnique : List (Link C) → Type 0
  IsUnique links = (p : JsString) → IsUniqueAt p links

  find_prefix-insert_link :
      (ordered : JsString → JsString → Bool) (p : JsString) (l : Link C) (links : List (Link C))
      → (has_prefix p l ≡ true → find_prefix p links ≡ none)
      → find_prefix p (insert_link ordered l links) ≡ find_prefix p (l ∷ links)
  find_prefix-insert_link ordered p l [] h = refl
  find_prefix-insert_link ordered p l (k ∷ links) h =
      ground (arith, h, find_prefix-insert_link ordered p l links)

  pub find_prefix-sort_links :
      (ordered : JsString → JsString → Bool) (p : JsString) (links : List (Link C))
      → IsUniqueAt p links
      → find_prefix p (sort_links ordered links) ≡ find_prefix p links
  find_prefix-sort_links ordered p [] h = refl
  find_prefix-sort_links ordered p (l ∷ links) h =
      let e = find_prefix-sort_links ordered p links h.1 in
      find_prefix-insert_link ordered p l (sort_links ordered links) (λ m. e ∙ h.0 m)
      ∙ ap (λ o. if has_prefix p l then some l else o) e

  pub find_prefix-without_other :
      (p q n : JsString) (links : List (Link C))
      → take 2 n ≡ p
      → q ≢ p
      → find_prefix q (without n links) ≡ find_prefix q links
  find_prefix-without_other p q n [] e h = refl
  find_prefix-without_other p q n (l ∷ links) e h = ground (
    arith,
    e,
    h,
    string_eq.beq_iff l.name n,
    string_eq.beq_iff (take 2 l.name) q,
    find_prefix-without_other p q n links e h,
  )

  find_prefix-without_missing :
      (p n : JsString) (links : List (Link C))
      → find_prefix p links ≡ none
      → find_prefix p (without n links) ≡ none
  find_prefix-without_missing p n [] h = refl
  find_prefix-without_missing p n (l ∷ links) h =
      ground (arith, find_prefix-without_missing p n links)

  pub find_prefix-without :
      (p : JsString) (links : List (Link C)) (l : Link C)
      → IsUniqueAt p links
      → find_prefix p links ≡ some l
      → find_prefix p (without l.name links) ≡ none
  find_prefix-without p [] l h e = refl
  find_prefix-without p (k ∷ links) l h e = ground (
    arith,
    h.0,
    string_eq.beq_iff k.name l.name,
    find_prefix-without p links l h.1,
    find_prefix-without_missing p l.name links,
  )

  pub IsUniqueAt-without :
      (p n : JsString) (links : List (Link C)) → IsUniqueAt p links → IsUniqueAt p (without n links)
  IsUniqueAt-without p n [] h = tt
  IsUniqueAt-without p n (l ∷ links) h = elim (Bool-cases (l.name == n)) [
    | inl e ↦ rw e (IsUniqueAt-without p n links h.1)
    | inr e ↦
        rw e (λ m. find_prefix-without_missing p n links (h.0 m), IsUniqueAt-without p n links h.1)
  ]

  pub find_prefix-append :
      (p : JsString) (links : List (Link C)) (l : Link C)
      → find_prefix p (links ++ l ∷ []) ≡ elim (find_prefix p links) [
        | some k ↦ some k
        | none ↦ if has_prefix p l then some l else none
      ]
  find_prefix-append p [] l = refl
  find_prefix-append p (k ∷ links) l = ground (arith, find_prefix-append p links l)

  pub find_prefix-append_other :
      (p : JsString) (links : List (Link C)) (l : Link C)
      → has_prefix p l ≡ false
      → find_prefix p (links ++ l ∷ []) ≡ find_prefix p links
  find_prefix-append_other p [] l h = rw h refl
  find_prefix-append_other p (k ∷ links) l h = ground (arith, find_prefix-append_other p links l)

  pub IsUniqueAt-append :
      (p : JsString) (links : List (Link C)) (l : Link C)
      → IsUniqueAt p links
      → (has_prefix p l ≡ true → find_prefix p links ≡ none)
      → IsUniqueAt p (links ++ l ∷ [])
  IsUniqueAt-append p [] l h k = (λ e. refl, tt)
  IsUniqueAt-append p (m ∷ links) l h k = (
    λ e. ground (arith, h.0, k, find_prefix-append p links l),
    IsUniqueAt-append p links l h.1 (λ e. ground (arith, k)),
  )

  IsUniqueAt-insert_link :
      (ordered : JsString → JsString → Bool) (p : JsString) (l : Link C) (links : List (Link C))
      → IsUniqueAt p (l ∷ links)
      → IsUniqueAt p (insert_link ordered l links)
  IsUniqueAt-insert_link ordered p l [] h = h
  IsUniqueAt-insert_link ordered p l (k ∷ links) h = elim (Bool-cases (ordered l.name k.name)) [
    | inl e ↦ rw e h
    | inr e ↦
        let behind : has_prefix p l ≡ true → find_prefix p links ≡ none =
          λ m. ground (arith, h.0) in
        rw e (
          λ m. find_prefix-insert_link ordered p l links behind ∙ ground (arith, h.0, h.1.0),
          IsUniqueAt-insert_link ordered p l links (behind, h.1.1),
        )
  ]

  pub IsUniqueAt-sort_links :
      (ordered : JsString → JsString → Bool) (p : JsString) (links : List (Link C))
      → IsUniqueAt p links
      → IsUniqueAt p (sort_links ordered links)
  IsUniqueAt-sort_links ordered p [] h = tt
  IsUniqueAt-sort_links ordered p (l ∷ links) h =
      IsUniqueAt-insert_link ordered p l (sort_links ordered links) (
        λ m. find_prefix-sort_links ordered p links h.1 ∙ h.0 m,
        IsUniqueAt-sort_links ordered p links h.1,
      )

  insert_link-length :
      (ordered : JsString → JsString → Bool) (l : Link C) (links : List (Link C))
      → length (insert_link ordered l links) ≡ suc (length links)
  insert_link-length ordered l [] = refl
  insert_link-length ordered l (k ∷ links) = ground (arith, insert_link-length ordered l links)

  sort_links-length :
      (ordered : JsString → JsString → Bool) (links : List (Link C))
      → length (sort_links ordered links) ≡ length links
  sort_links-length ordered [] = refl
  sort_links-length ordered (l ∷ links) =
      insert_link-length ordered l (sort_links ordered links)
      ∙ ap suc (sort_links-length ordered links)

  -- Links that are one link when they are sorted.
  pub sort_links-single :
      (ordered : JsString → JsString → Bool) (links : List (Link C)) (l : Link C)
      → sort_links ordered links ≡ l ∷ []
      → links ≡ l ∷ []
  sort_links-single ordered [] l e = cc
  sort_links-single ordered (k ∷ []) l e = e
  sort_links-single ordered (k ∷ m ∷ links) l e =
      absurd (omega (arith, sort_links-length ordered (k ∷ m ∷ links), ap (λ x. length x) e))
