-- ===== src/Files/Paths/Components.antt =====
-- What the components of a path are, and reading back a joined path.
use js_ipfs.Prelude.{
  ℕ, ◌≡◌, refl, ap, sym, ◌∙◌, ◌≢◌, inl, inr, Bool, true, false, not, ◌&&◌, ◌||◌, List, [], ◌∷◌,
  ◌++◌, arith, JsString, All, nat_beq, if◌then◌else◌, Bool-cases, append-nil, if_ind, append_assoc,
  join, trim,
}
use mathlib.Core.Path.{subst}
use js_ipfs.Files.Paths.{slash, backslash, is_separator, emit, matches, to_path_components, rooted}

-- The texts that the expression matches whole: no bare slash, caret or backslash. After a backslash
-- there stands a slash.
abbrev pub is_run : Bool → JsString → Bool
is_run pending [] = not pending
is_run true (c ∷ s) = nat_beq c slash && is_run false s
is_run false (c ∷ s) =
    (nat_beq c backslash && is_run true s)
    || (not (nat_beq c backslash) && (not (is_separator c) && is_run false s))

abbrev pub IsComponent : JsString → Type 0
IsComponent s = (is_run false s ≡ true) × (s ≢ [])

is_run-append :
    (pending : Bool) (s t : JsString)
    → is_run pending s ≡ true
    → is_run false t ≡ true
    → is_run pending (s ++ t) ≡ true
is_run-append true [] t h k = cc
is_run-append false [] t h k = k
is_run-append true (c ∷ s) t h k = ground (arith, is_run-append false s t)
is_run-append false (c ∷ s) t h k = ground (arith, is_run-append false s t, is_run-append true s t)

emit-All :
    (cur : JsString) (rest : List JsString)
    → is_run false cur ≡ true
    → All IsComponent rest
    → All IsComponent (emit cur rest)
emit-All [] rest h k = k
emit-All (c ∷ cur) rest h k = ((h, λ e. cc), k)

one_run :
    (c : ℕ) → nat_beq c backslash ≡ false → is_separator c ≡ false → is_run false (c ∷ []) ≡ true
one_run c f g = rw (f, g)

matches-All :
    (cur : JsString) (pending : Bool) (s : JsString)
    → is_run false cur ≡ true
    → All IsComponent (matches cur pending s)
unfolding matches
matches-All cur pending [] h = emit-All cur [] h tt
matches-All cur true (c ∷ s) h =
    if_ind (All IsComponent) (nat_beq c slash) _ _
      (λ e.
        matches-All (cur ++ backslash ∷ slash ∷ []) false s
          (is_run-append false cur (backslash ∷ slash ∷ []) h refl))
      (λ e. emit-All cur _ h (
        if_ind (All IsComponent) (nat_beq c backslash) _ _ (λ e. matches-All [] true s refl)
          (λ f.
            if_ind (All IsComponent) (is_separator c) _ _ (λ e. matches-All [] false s refl)
              (λ g. matches-All (c ∷ []) false s (one_run c f g)))))
matches-All cur false (c ∷ s) h =
    if_ind (All IsComponent) (nat_beq c backslash) _ _ (λ e. matches-All cur true s h)
      (λ f.
        if_ind (All IsComponent) (is_separator c) _ _
          (λ e. emit-All cur _ h (matches-All [] false s refl))
          (λ g.
            matches-All (cur ++ c ∷ []) false s
              (is_run-append false cur (c ∷ []) h (one_run c f g))))

-- Every component is non-empty, and has a slash only behind a backslash, a backslash only before a
-- slash, and no caret.
pub to_path_components-All : (path : JsString) → All IsComponent (to_path_components path)
unfolding to_path_components
to_path_components-All path = matches-All [] false (trim path) refl

abbrev held : Bool → JsString → JsString
held pending w = if pending then backslash ∷ w else w

-- A run is read into the current match whole.
matches-run :
    (cur : JsString) (pending : Bool) (w rest : JsString)
    → is_run pending w ≡ true
    → matches cur pending (w ++ rest) ≡ matches (cur ++ held pending w) false rest
unfolding matches
matches-run cur true [] rest h = cc
matches-run cur false [] rest h = ap (λ k. matches k false rest) (sym (append-nil cur))
matches-run cur true (c ∷ w) rest h =
    let e : c ≡ slash = ground arith in
    let r : is_run false w ≡ true = ground arith in
    rw (e, matches-run (cur ++ backslash ∷ slash ∷ []) false w rest r)
      (ap (λ k. matches k false rest) (append_assoc cur (backslash ∷ slash ∷ []) w))
matches-run cur false (c ∷ w) rest h = elim (Bool-cases (nat_beq c backslash)) [
  | inl e ↦
      let b : c ≡ backslash = ground arith in
      let r : is_run true w ≡ true = ground arith in rw (b, matches-run cur true w rest r)
  | inr e ↦
      let g : is_separator c ≡ false = ground arith in
      let r : is_run false w ≡ true = ground arith in
      rw (e, g, matches-run (cur ++ c ∷ []) false w rest r)
        (ap (λ k. matches k false rest) (append_assoc cur (c ∷ []) w))
]

pub matches-slash :
    (w rest : JsString)
    → IsComponent w
    → matches [] false (w ++ slash ∷ rest) ≡ w ∷ matches [] false rest
unfolding matches
matches-slash [] rest h = absurd (h.1 refl)
matches-slash (c ∷ w) rest h = matches-run [] false (c ∷ w) (slash ∷ rest) h.0

matches-component : (w : JsString) → IsComponent w → matches [] false w ≡ w ∷ []
unfolding matches
matches-component [] h = absurd (h.1 refl)
matches-component (c ∷ w) h =
    subst (λ k. matches [] false k ≡ (c ∷ w) ∷ []) (append-nil (c ∷ w))
      (matches-run [] false (c ∷ w) [] h.0)

matches-join :
    (parts : List JsString)
    → All IsComponent parts
    → matches [] false (join (slash ∷ []) parts) ≡ parts
unfolding matches
matches-join [] h = refl
matches-join (p ∷ []) h = matches-component p h.0
matches-join (p ∷ q ∷ parts) h =
    matches-slash p (join (slash ∷ []) (q ∷ parts)) h.0
    ∙ ap (λ l. p ∷ l) (matches-join (q ∷ parts) h.1)

-- Components that are joined behind a slash are read back, where `trim` takes nothing off the
-- joined path.
pub to_path_components-rooted :
    (parts : List JsString)
    → All IsComponent parts
    → trim (rooted parts) ≡ rooted parts
    → to_path_components (rooted parts) ≡ parts
unfolding to_path_components
to_path_components-rooted parts h e = rw e (matches-join parts h)
