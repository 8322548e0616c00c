-- ===== src/Files/Mode/Chmod.antt =====
-- What a symbolic mode does to each permission bit.
use js_ipfs.Prelude.{
  ℕ, ◌≡◌, ◌∙◌, inl, inr, refl, Bool, true, false, ◌&&◌, some, arith, JsString, codes, includes,
  if◌then◌else◌, Bool-cases, ◌==◌, string_eq, nat_eq,
}
use Prim.Native.Nat.{differ, min, max}
use js_ipfs.Prelude.Bits.{get_bit, get_bit-bit_and, get_bit-bit_or, get_bit-bit_xor, get_bit_le}
use js_ipfs.Files.Mode.{
  assign_group, apply_operator, all_references, requested, match_mode, parse_symbolic_mode,
}
use js_ipfs.Files.Mode.Bits.{
  Who, What, letter, index, bit_of, asks, execute, get_bit-requested, user, group, other,
}

-- One permission bit under an operator: whether its group is named, whether it is asked for, and
-- its old value.
abbrev pub new_bit : JsString → Bool → ℕ → ℕ → ℕ
new_bit operator named asked old =
    if operator == codes "="
    then (if named then asked else old)
    else if operator == codes "+"
    then max asked old
    else if operator == codes "-"
    then differ asked old
    else old

get_bit-assign :
    (k mask m mode : ℕ) (b : Bool)
    → get_bit k (assign_group b mask m mode)
      ≡ (if b then max (min (get_bit k mode) (get_bit k mask)) (get_bit k m) else get_bit k mode)
get_bit-assign k mask m mode true = rw (get_bit-bit_or, get_bit-bit_and)
get_bit-assign k mask m mode false = refl

-- The three steps of `=`, at a bit of one group: the mask of that group blanks it, the two others
-- keep it.
abbrev steps : ℕ → ℕ → Bool → Bool → Bool → ℕ
steps m old bu bg bo =
    assign_group bo 0o7770 m (assign_group bg 0o7707 m (assign_group bu 0o7077 m old))

module _ (k m old : ℕ) (bu bg bo asked : Bool) where
  assign-user :
      get_bit k 0o7077 ≡ 0
      → get_bit k 0o7707 ≡ 1
      → get_bit k 0o7770 ≡ 1
      → get_bit k m ≡ bit_of (bu && asked)
      → get_bit k (steps m old bu bg bo) ≡ (if bu then bit_of asked else get_bit k old)
  assign-user hu hg ho hm = ground (
    arith,
    get_bit-assign k 0o7770 m (assign_group bg 0o7707 m (assign_group bu 0o7077 m old)) bo,
    get_bit-assign k 0o7707 m (assign_group bu 0o7077 m old) bg,
    get_bit-assign k 0o7077 m old bu,
    get_bit_le k old,
  )

  assign-group :
      get_bit k 0o7077 ≡ 1
      → get_bit k 0o7707 ≡ 0
      → get_bit k 0o7770 ≡ 1
      → get_bit k m ≡ bit_of (bg && asked)
      → get_bit k (steps m old bu bg bo) ≡ (if bg then bit_of asked else get_bit k old)
  assign-group hu hg ho hm = ground (
    arith,
    get_bit-assign k 0o7770 m (assign_group bg 0o7707 m (assign_group bu 0o7077 m old)) bo,
    get_bit-assign k 0o7707 m (assign_group bu 0o7077 m old) bg,
    get_bit-assign k 0o7077 m old bu,
    get_bit_le k old,
  )

  assign-other :
      get_bit k 0o7077 ≡ 1
      → get_bit k 0o7707 ≡ 1
      → get_bit k 0o7770 ≡ 0
      → get_bit k m ≡ bit_of (bo && asked)
      → get_bit k (steps m old bu bg bo) ≡ (if bo then bit_of asked else get_bit k old)
  assign-other hu hg ho hm = ground (
    arith,
    get_bit-assign k 0o7770 m (assign_group bg 0o7707 m (assign_group bu 0o7077 m old)) bo,
    get_bit-assign k 0o7707 m (assign_group bu 0o7077 m old) bg,
    get_bit-assign k 0o7077 m old bu,
    get_bit_le k old,
  )

named_asked :
    (n a : Bool) (x : ℕ) → (if n then bit_of a else x) ≡ (if n then bit_of (n && a) else x)
named_asked true a x = refl
named_asked false a x = refl

module _ (references mode : JsString) (old : ℕ) (d : Bool) where
  abbrev m : ℕ
  m = requested references mode old d

  abbrev names : Who → Bool
  names who = includes references (letter who)

  get_bit-steps :
      (who : Who) (what : What)
      → get_bit (index who what) (steps m old (names user) (names group) (names other))
        ≡ (if names who then bit_of (asks mode old d what) else get_bit (index who what) old)
  unfolding get_bit
  get_bit-steps user execute =
      assign-user (index user execute) m old (names user) (names group) (names other)
        (asks mode old d execute) refl refl refl
        (get_bit-requested user execute references mode old d)
  get_bit-steps group execute =
      assign-group (index group execute) m old (names user) (names group) (names other)
        (asks mode old d execute) refl refl refl
        (get_bit-requested group execute references mode old d)
  get_bit-steps other execute =
      assign-other (index other execute) m old (names user) (names group) (names other)
        (asks mode old d execute) refl refl refl
        (get_bit-requested other execute references mode old d)
  get_bit-steps user what =
      assign-user (index user what) m old (names user) (names group) (names other)
        (asks mode old d what) refl refl refl (get_bit-requested user what references mode old d)
  get_bit-steps group what =
      assign-group (index group what) m old (names user) (names group) (names other)
        (asks mode old d what) refl refl refl (get_bit-requested group what references mode old d)
  get_bit-steps other what =
      assign-other (index other what) m old (names user) (names group) (names other)
        (asks mode old d what) refl refl refl (get_bit-requested other what references mode old d)

  get_bit-apply_operator :
      (operator : JsString) (who : Who) (what : What)
      → get_bit (index who what) (apply_operator references operator m old)
        ≡ new_bit operator
            (names who)
            (bit_of (names who && asks mode old d what))
            (get_bit (index who what) old)
  unfolding apply_operator
  get_bit-apply_operator operator who what =
      let asked = get_bit-requested who what references mode old d in
      elim (Bool-cases (operator == codes "=")) [
        | inl e ↦ rw e (
            get_bit-steps who what
            ∙ named_asked (names who) (asks mode old d what) (get_bit (index who what) old))
        | inr e ↦ elim (Bool-cases (operator == codes "+")) [
          | inl p ↦ rw (e, p, get_bit-bit_or, asked)
          | inr p ↦ elim (Bool-cases (operator == codes "-")) [
            | inl q ↦ rw (e, p, q, get_bit-bit_xor, asked)
            | inr q ↦ rw (e, p, q)
          ]
        ]
      ]

-- A symbolic mode that parses sets each of the nine permission bits by its operator: `=` gives the
-- named groups what is asked for and leaves the others; `+` adds what is asked for; `-` inverts
-- what is asked for, so that it also grants a permission that was not there; with any other
-- operator the bit is left alone.
pub parse_symbolic_mode-bits :
    (input : JsString) (old : ℕ) (d : Bool) (found operator mode : JsString)
    → match_mode input ≡ some (found, operator, mode)
    → let references = all_references found in
      (r : ℕ) × (parse_symbolic_mode input old d ≡ some r)
      × ((who : Who) (what : What)
          → get_bit (index who what) r
            ≡ new_bit operator
                (includes references (letter who))
                (bit_of (includes references (letter who) && asks mode old d what))
                (get_bit (index who what) old))
unfolding parse_symbolic_mode
parse_symbolic_mode-bits input old d found operator mode e = (
  apply_operator (all_references found) operator (requested (all_references found) mode old d) old,
  rw (e, parse_symbolic_mode),
  λ who what. get_bit-apply_operator (all_references found) mode old d operator who what,
)
