-- ===== src/Port/Transport/Dictionary.antt =====
-- What is found in the lists of a transport.
use js_ipfs.Prelude.{
  ◌≡◌, refl, ℕ, Bool, true, false, ◌||◌, Option, none, some, List, [], ◌∷◌, ◌++◌, ◌==◌, nat_eq, map,
  if◌then◌else◌, lookup, erase, is_some, arith, Bool-cases, inl, inr, lookup-erase, ◌∙◌,
}
use js_ipfs.Port.Transport.{Query, Message, asks, gives_up, post_query, cleared, is_set}

-- A message that asks the query with this id.
abbrev pub is_asked : {I : Type 0} → ℕ → List (Message I) → Bool
is_asked id [] = false
is_asked id (asks j i ∷ ms) = if j == id then true else is_asked id ms
is_asked id (gives_up j ∷ ms) = is_asked id ms

-- The first entry is the one that is found.
abbrev pub first : {V : Type 0} → Option V → Option V → Option V
first (some v) o = some v
first none o = o

module _ {V : Type 0} where
  pub lookup-append :
      (id : ℕ) (xs ys : List (ℕ × V)) → lookup id (xs ++ ys) ≡ first (lookup id xs) (lookup id ys)
  lookup-append id [] ys = refl
  lookup-append id ((j, v) ∷ xs) ys = elim (Bool-cases (j == id)) [
    | inl e ↦ rw e refl
    | inr e ↦ rw e (lookup-append id xs ys)
  ]

  pub is_some-first : (o p : Option V) → is_some (first o p) ≡ (is_some o || is_some p)
  is_some-first none p = refl
  is_some-first (some v) p = refl

pub is_set-append :
    (id : ℕ) (xs ys : List ℕ) → is_set id (xs ++ ys) ≡ (is_set id xs || is_set id ys)
is_set-append id [] ys = refl
is_set-append id (x ∷ xs) ys = elim (Bool-cases (x == id)) [
  | inl e ↦ rw e refl
  | inr e ↦ rw e (is_set-append id xs ys)
]

pub is_set-cleared :
    (id j : ℕ) (ids : List ℕ)
    → is_set id (cleared j ids) ≡ (if j == id then false else is_set id ids)
is_set-cleared id j [] = ground arith
is_set-cleared id j (x ∷ ids) =
    ground
      (arith, nat_eq.beq_iff x j, nat_eq.beq_iff x id, nat_eq.beq_iff j id, is_set-cleared id j ids)

module _ {I : Type 0} where
  pub is_asked-append :
      (id : ℕ) (xs ys : List (Message I))
      → is_asked id (xs ++ ys) ≡ (is_asked id xs || is_asked id ys)
  is_asked-append id [] ys = refl
  is_asked-append id (asks j i ∷ xs) ys = elim (Bool-cases (j == id)) [
    | inl e ↦ rw e refl
    | inr e ↦ rw e (is_asked-append id xs ys)
  ]
  is_asked-append id (gives_up j ∷ xs) ys = is_asked-append id xs ys

  pub is_asked-map :
      (id : ℕ) (qs : List (ℕ × Query I)) → is_asked id (map post_query qs) ≡ is_some (lookup id qs)
  is_asked-map id [] = refl
  is_asked-map id ((j, q) ∷ qs) = elim (Bool-cases (j == id)) [
    | inl e ↦ rw e refl
    | inr e ↦ rw e (is_asked-map id qs)
  ]

-- One more entry at the end, or one less.
pub has-append :
    {V : Type 0} (id j : ℕ) (v : V) (xs : List (ℕ × V))
    → is_some (lookup id (xs ++ (j, v) ∷ [])) ≡ (is_some (lookup id xs) || j == id)
has-append id j v [] = ground (arith, nat_eq.beq_iff j id)
has-append id j v ((k, w) ∷ xs) =
    ground (arith, nat_eq.beq_iff j id, nat_eq.beq_iff k id, has-append id j v xs)

pub has-erase :
    {V : Type 0} (id j : ℕ) (xs : List (ℕ × V))
    → is_some (lookup id (erase j xs)) ≡ (if j == id then false else is_some (lookup id xs))
has-erase id j xs = ground (arith, nat_eq.beq_iff j id, lookup-erase j id xs)

pub is_set-one : (id j : ℕ) (xs : List ℕ) → is_set id (xs ++ j ∷ []) ≡ (is_set id xs || j == id)
is_set-one id j [] = ground (arith, nat_eq.beq_iff j id)
is_set-one id j (k ∷ xs) =
    ground (arith, nat_eq.beq_iff j id, nat_eq.beq_iff k id, is_set-one id j xs)

module _ {I : Type 0} where
  pub is_asked-one :
      (id j : ℕ) (i : I) (xs : List (Message I))
      → is_asked id (xs ++ asks j i ∷ []) ≡ (is_asked id xs || j == id)
  is_asked-one id j i xs =
      is_asked-append id xs (asks j i ∷ []) ∙ ground (arith, nat_eq.beq_iff j id)

  pub is_asked-gives_up :
      (id j : ℕ) (xs : List (Message I)) → is_asked id (xs ++ gives_up j ∷ []) ≡ is_asked id xs
  is_asked-gives_up id j xs = is_asked-append id xs (gives_up j ∷ []) ∙ ground arith
