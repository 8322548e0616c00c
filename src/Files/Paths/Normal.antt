-- ===== src/Files/Paths/Normal.antt =====
-- The path that `toMfsPath` makes of its argument, and the errors that it throws.
use js_ipfs.Prelude.{
  ℕ, ◌≡◌, refl, ◌≢◌, ◌⊎◌, inl, inr, Bool, true, false, not, ◌&&◌, [], ◌∷◌, arith, JsString, nat_beq,
  if◌then◌else◌, Bool-cases, trim, ends_with, but_last, Result, ok, err, nat_beq_iff,
}
use js_ipfs.Files.Paths.{
  slash, collapse, normal_trimmed, normal_path, PathError, no_path, invalid_path, checked,
  strip_slash,
}
use mathlib.Core.Path.{subst, sym}

-- No two slashes stand side by side; `after` tells that a slash stands in front.
abbrev pub is_tidy : Bool → JsString → Bool
is_tidy after [] = true
is_tidy after (c ∷ s) = not (after && nat_beq c slash) && is_tidy (nat_beq c slash) s

collapse-is_tidy : (after : Bool) (s : JsString) → is_tidy after (collapse after s) ≡ true
unfolding collapse
collapse-is_tidy after [] = refl
collapse-is_tidy after (c ∷ s) = ground (arith, collapse-is_tidy (nat_beq c slash) s)

but_last-is_tidy :
    (after : Bool) (s : JsString) → is_tidy after s ≡ true → is_tidy after (but_last s) ≡ true
but_last-is_tidy after [] h = refl
but_last-is_tidy after (c ∷ []) h = refl
but_last-is_tidy after (c ∷ d ∷ s) h = ground (arith, but_last-is_tidy (nat_beq c slash) (d ∷ s))

ends_with-but_last :
    (after : Bool) (c d : ℕ) (s : JsString)
    → is_tidy after (c ∷ d ∷ s) ≡ true
    → ends_with (c ∷ d ∷ s) slash ≡ true
    → ends_with (but_last (c ∷ d ∷ s)) slash ≡ false
ends_with-but_last after c d [] h e = ground arith
ends_with-but_last after c d (x ∷ s) h e =
    ground (arith, ends_with-but_last (nat_beq c slash) d x s)

-- What the rest of `toMfsPath` relies on.
pub record IsNormal (p : JsString) : Type 0 where
  pub tidy : is_tidy false p ≡ true
  pub open_end : ends_with p slash ≡ false
  pub absolute : (p ≡ []) ⊎ ((s : JsString) × (p ≡ slash ∷ s))

abbrev Succeeds : Result PathError JsString → Type 0
Succeeds out = (r : JsString) × (out ≡ ok r) × IsNormal r

checked-slash :
    (t : JsString) → is_tidy true t ≡ true → Succeeds (checked (strip_slash (slash ∷ t)))
unfolding checked strip_slash
checked-slash [] h = ([], refl, record { tidy = refl; open_end = refl; absolute = inl refl })
checked-slash (d ∷ u) h = elim (Bool-cases (ends_with (d ∷ u) slash)) [
  | inl e ↦
      let shut : ends_with (slash ∷ but_last (d ∷ u)) slash ≡ false =
        ends_with-but_last false slash d u h e in
      (
        slash ∷ but_last (d ∷ u),
        ground arith,
        record {
          tidy = but_last-is_tidy true (d ∷ u) h;
          open_end = shut;
          absolute = inr (but_last (d ∷ u), refl);
        },
      )
  | inr e ↦
      (slash ∷ d ∷ u, ground arith, record { tidy = h; open_end = e; absolute = inr (d ∷ u, refl) })
]

normal_trimmed-slash : (s : JsString) → Succeeds (normal_trimmed (slash ∷ s))
unfolding normal_trimmed
normal_trimmed-slash s = checked-slash (collapse true s) (collapse-is_tidy true s)

checked-invalid :
    (c : ℕ) (t : JsString) → c ≢ slash → checked (strip_slash (c ∷ t)) ≡ err invalid_path
unfolding checked strip_slash
checked-invalid c [] h = ground arith
checked-invalid c (d ∷ u) h = ground arith

-- What `toMfsPath` makes of a path, by the first character that is not white space: nothing is
-- left of an empty path, any other must begin with a slash, and then the result is empty or begins
-- with a slash, holds no two slashes side by side, and does not end with one.
abbrev pub Outcome : JsString → Result PathError JsString → Type 0
Outcome [] out = out ≡ err no_path
Outcome (c ∷ s) out = if nat_beq c slash then Succeeds out else out ≡ err invalid_path

choose : {A B : Type 0} (b : Bool) → (b ≡ true → A) → (b ≡ false → B) → if b then A else B
choose true f g = f refl
choose false f g = g refl

trimmed-Outcome : (s : JsString) → Outcome s (normal_trimmed s)
unfolding normal_trimmed collapse strip_slash checked
trimmed-Outcome [] = refl
trimmed-Outcome (c ∷ s) =
    choose (nat_beq c slash)
      (λ e.
        subst (λ k. Succeeds (normal_trimmed (k ∷ s))) (sym ((nat_beq_iff c slash).0 e))
          (normal_trimmed-slash s))
      (λ e.
        checked-invalid c (collapse (nat_beq c slash) s) (λ q. cc ((nat_beq_iff c slash).1 q, e)))

-- An empty path, or one of white space, is refused with `ERR_NO_PATH`; one whose first other
-- character is not a slash with `ERR_INVALID_PATH`; every other gives a path that is empty or
-- begins with a slash, has no two slashes side by side, and does not end with a slash.
pub normal_path-Outcome : (path : JsString) → Outcome (trim path) (normal_path path)
unfolding normal_path
normal_path-Outcome path = trimmed-Outcome (trim path)
