-- ===== src/Files/Commands/Trails.antt =====
-- Lists, and paths below the entries of a trail.
use mathlib.Core.Path.{◌∙◌, ap}
use js_ipfs.Prelude.{
  ◌≡◌, ◌++◌, ◌-◌, take, last?, length, length-append, arith, refl, some, List, [], ◌∷◌, JsString,
  string_eq, map, append-nil,
}
use js_ipfs.Files.Tree.{TrailEntry, reversed_onto}
use js_ipfs.Files.Tree.Walk.{below, reversed_onto-twice}

pub last?-append : {A : Type 0} (xs : List A) (x : A) → last? (xs ++ x ∷ []) ≡ some x
last?-append [] x = refl
last?-append (y ∷ []) x = refl
last?-append (y ∷ z ∷ xs) x = last?-append (z ∷ xs) x

take-length : {A : Type 0} (xs ys : List A) → take (length xs) (xs ++ ys) ≡ xs
take-length [] ys = refl
take-length (x ∷ xs) ys = ap (λ zs. x ∷ zs) (take-length xs ys)

pub but_last-append :
    {A : Type 0} (xs : List A) (x : A) → take (length (xs ++ x ∷ []) - 1) (xs ++ x ∷ []) ≡ xs
but_last-append xs x =
    let l : length (xs ++ x ∷ []) - 1 ≡ length xs = omega (arith, length-append xs (x ∷ [])) in
    rw l (take-length xs (x ∷ []))

pub below-append :
    {C : Type 0} (name : JsString) (es : List (TrailEntry C)) (p r : List JsString)
    → below name es (p ++ r) ≡ below name es p ++ r
below-append name [] p r = refl
below-append name (e ∷ es) p r = below-append e.name es (name ∷ p) r

map-reversed_onto :
    {A B : Type 0} (f : A → B) (xs ys : List A)
    → map f (reversed_onto xs ys) ≡ reversed_onto (map f xs) (map f ys)
map-reversed_onto f [] ys = refl
map-reversed_onto f (x ∷ xs) ys = map-reversed_onto f xs (x ∷ ys)

pub turned :
    {A B : Type 0} (f : A → B) (xs : List A)
    → reversed_onto (map f (reversed_onto xs [])) [] ≡ map f xs
turned f xs =
    ap (λ ys. reversed_onto ys []) (map-reversed_onto f xs [])
    ∙ reversed_onto-twice (map f xs) [] []
    ∙ append-nil (map f xs)
