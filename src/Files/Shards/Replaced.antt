-- ===== src/Files/Shards/Replaced.antt =====
-- A link taken out of links whose prefixes differ, or replaced by another.
use mathlib.Core.Path.{sym, subst}
use js_ipfs.Prelude.{
  ◌≡◌, ◌≢◌, refl, ap, ◌∙◌, true, none, some, List, [], ◌∷◌, ◌++◌, JsString, string_eq, length, take,
  drop, if◌then◌else◌, arith, Bool-cases, inl, inr, length-append,
}
use js_ipfs.Files.Tree.{Link}
use js_ipfs.Files.Shards.{find_prefix, has_prefix, without}
use js_ipfs.Files.Shards.Links.{
  IsUnique, find_prefix-without_other, find_prefix-without, IsUniqueAt-without, find_prefix-append,
  IsUniqueAt-append, find_prefix-append_other,
}

pub take_two : (p s : JsString) → length p ≡ 2 → take 2 (p ++ s) ≡ p
take_two [] s h = absurd (omega arith)
take_two (a ∷ []) s h = absurd (omega arith)
take_two (a ∷ b ∷ []) s h = refl
take_two (a ∷ b ∷ c ∷ p) s h = absurd (omega arith)

pub drop_two : (p s : JsString) → length p ≡ 2 → drop 2 (p ++ s) ≡ s
drop_two [] s h = absurd (omega arith)
drop_two (a ∷ []) s h = absurd (omega arith)
drop_two (a ∷ b ∷ []) s h = refl
drop_two (a ∷ b ∷ c ∷ p) s h = absurd (omega arith)

pub longer_than_two : (p s : JsString) → length p ≡ 2 → s ≢ [] → length (p ++ s) ≢ 2
longer_than_two p [] h e = absurd (e refl)
longer_than_two p (c ∷ s) h e = λ g. omega (arith, length-append p (c ∷ s))

pub append_cancel : (p s t : JsString) → length p ≡ 2 → p ++ s ≡ p ++ t → s ≡ t
append_cancel p s t h e = sym (drop_two p s h) ∙ ap (λ x. drop 2 x) e ∙ drop_two p t h

module _ {C : Type 0} (p : JsString) (links : List (Link C)) (link : Link C)
    (unique : IsUnique links) (found : find_prefix p links ≡ some link)
    (prefixed : take 2 link.name ≡ p) where
  pub removed-IsUnique : IsUnique (without link.name links)
  removed-IsUnique q = IsUniqueAt-without q link.name links (unique q)

  pub removed_here : find_prefix p (without link.name links) ≡ none
  removed_here = find_prefix-without p links link (unique p) found

  pub removed_elsewhere :
      (q : JsString) → q ≢ p → find_prefix q (without link.name links) ≡ find_prefix q links
  removed_elsewhere q h = find_prefix-without_other p q link.name links prefixed h

  -- With another link of the same prefix in its place.
  module _ (new : Link C) (at : take 2 new.name ≡ p) where
    matches : (q : JsString) → has_prefix q new ≡ true → q ≡ p
    matches q m = sym ((string_eq.beq_iff (take 2 new.name) q).0 m) ∙ at

    pub replaced-IsUnique : IsUnique (without link.name links ++ new ∷ [])
    replaced-IsUnique q =
        IsUniqueAt-append q (without link.name links) new (removed-IsUnique q) (λ m.
          subst (λ x. find_prefix x (without link.name links) ≡ none) (sym (matches q m))
            removed_here)

    pub replaced_here : find_prefix p (without link.name links ++ new ∷ []) ≡ some new
    replaced_here =
        find_prefix-append p (without link.name links) new
        ∙ ap (λ o. elim o [ some k ↦ some k | none ↦ if has_prefix p new then some new else none ])
            removed_here
        ∙ ap (λ b. if b then some new else none) ((string_eq.beq_iff (take 2 new.name) p).1 at)

    pub replaced_elsewhere :
        (q : JsString)
        → q ≢ p
        → find_prefix q (without link.name links ++ new ∷ []) ≡ find_prefix q links
    replaced_elsewhere q h =
        find_prefix-append_other q (without link.name links) new
          (elim (Bool-cases (has_prefix q new)) [ inl m ↦ absurd (h (matches q m)) | inr m ↦ m ])
        ∙ removed_elsewhere q h
