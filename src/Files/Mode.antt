-- ===== src/Files/Mode.antt =====
-- packages/ipfs-core/src/components/files/chmod.js (the arithmetic of modes), and
-- packages/ipfs-core-utils/src/files/format-mode.js.
pub mod Bits
pub mod Chmod
mod Tests
use js_ipfs.Prelude.{
  ℕ, ◌+◌, ◌*◌, Bool, true, false, ◌&&◌, ◌||◌, not, Option, none, some, List, [], ◌∷◌, ◌++◌, ◌==◌,
  JsString, codes, includes, split, nat_beq, leb, ltb, if◌then◌else◌, string_eq, nat_eq,
}
use Prim.Native.Nat.{bit_and, bit_or, bit_xor, ◌-◌}

abbrev pub nonzero : ℕ → Bool
nonzero n = not (nat_beq n 0)

pub calculate_modification : JsString → ℕ → Bool → ℕ
calculate_modification mode original_mode is_directory =
    (if includes mode b'x'
        || (includes mode b'X'
            && (is_directory
                || (nonzero (bit_and original_mode 0o1)
                    || (nonzero (bit_and original_mode 0o10)
                        || nonzero (bit_and original_mode 0o100)))))
      then 1
      else 0)
    + (if includes mode b'w' then 2 else 0)
    + (if includes mode b'r' then 4 else 0)

-- `modification << 6` and `<< 3` are written as products.
pub calculate_ugo : JsString → ℕ → ℕ
calculate_ugo references modification =
    (if includes references b'u' then modification * 64 else 0)
    + (if includes references b'g' then modification * 8 else 0)
    + (if includes references b'o' then modification else 0)

pub calculate_special : JsString → JsString → ℕ → ℕ
calculate_special references mode modification =
    modification
    + (if includes mode b't' then 0o1000 else 0)
    + (if includes mode b's'
        then (if includes references b'u' then 0o4000 else 0)
          + (if includes references b'g' then 0o2000 else 0)
        else 0)

-- `c?` of a regular expression: the character if it is next, and the rest.
abbrev pub optional : ℕ → JsString → JsString × JsString
optional c [] = ([], [])
optional c (d ∷ s) = if nat_beq d c then (d ∷ [], s) else ([], d ∷ s)

-- A row of optional characters, in order.
pub optionals : List ℕ → JsString → JsString × JsString
optionals [] s = ([], s)
optionals (c ∷ cs) s =
    let (found, rest) = optional c s in
    let (more, rest') = optionals cs rest in (found ++ more, rest')

-- The groups of `/^(u?g?o?a?)(-?\+?=?)?(r?w?x?X?s?t?)$/`, or none where it does not match.
pub match_mode : JsString → Option (JsString × JsString × JsString)
unfolding optionals
match_mode input =
    let (references, s) = optionals (codes "ugoa") input in
    let (operator, s') = optionals (codes "-+=") s in
    let (mode, rest) = optionals (codes "rwxXst") s' in
    elim rest [ [] ↦ some (references, operator, mode) | c ∷ cs ↦ none ]

-- One group of `=`: its bits are blanked, and the new ones put in.
abbrev pub assign_group : Bool → ℕ → ℕ → ℕ → ℕ
assign_group asked mask modification mode =
    if asked then bit_or (bit_and mode mask) modification else mode

pub apply_operator : JsString → JsString → ℕ → ℕ → ℕ
apply_operator references operator modification original_mode =
    if operator == codes "="
    then assign_group (includes references b'o') 0o7770 modification (
        assign_group (includes references b'g') 0o7707 modification
          (assign_group (includes references b'u') 0o7077 modification original_mode))
    else if operator == codes "+"
    then bit_or modification original_mode
    else if operator == codes "-"
    then bit_xor modification original_mode
    else original_mode

-- `references === 'a' || !references` stands for all three.
abbrev pub all_references : JsString → JsString
all_references references =
    if references == codes "a" || references == [] then codes "ugo" else references

-- The bits that a symbolic mode asks for.
pub requested : JsString → JsString → ℕ → Bool → ℕ
unfolding calculate_modification calculate_ugo calculate_special
requested references mode original_mode is_directory =
    calculate_special references mode
      (calculate_ugo references (calculate_modification mode original_mode is_directory))

-- `none` is the `Invalid file mode` error.
pub parse_symbolic_mode : JsString → ℕ → Bool → Option ℕ
unfolding match_mode requested apply_operator
parse_symbolic_mode input original_mode is_directory = elim (match_mode input) [
  | none ↦ none
  | some (found, operator, mode) ↦
      let references = all_references found in
      some (
        apply_operator references operator (requested references mode original_mode is_directory)
          original_mode)
]

-- `/^\d+$/`
pub all_digits : JsString → Bool
all_digits [] = true
all_digits (c ∷ s) = leb b'0' c && (leb c b'9' && all_digits s)

abbrev octal_digit : ℕ → Bool
octal_digit c = leb b'0' c && leb c b'7'

octal_from : ℕ → JsString → ℕ
octal_from acc [] = acc
octal_from acc (c ∷ s) =
    let more = octal_from (acc * 8 + (c - b'0')) s in if octal_digit c then more else acc

-- `parseInt(s, 8)` on decimal digits: the octal digits in front; `none` is NaN.
pub parse_octal : JsString → Option ℕ
unfolding octal_from
parse_octal [] = none
parse_octal (c ∷ s) = if octal_digit c then some (octal_from 0 (c ∷ s)) else none

-- The `reduce` of `calculateMode` over the parts between commas.
pub apply_parts : List JsString → ℕ → Bool → Option ℕ
unfolding parse_symbolic_mode
apply_parts [] current is_directory = some current
apply_parts (part ∷ parts) current is_directory =
    elim (parse_symbolic_mode part current is_directory) [
      | none ↦ none
      | some next ↦ apply_parts parts next is_directory
    ]

pub data ModeResult : Type 0 where
  invalid nan : ModeResult
  mode_is : ℕ → ModeResult

-- `calculateMode` of a string; `metadata.mode || 0` is `original_mode`.
pub calculate_mode : JsString → ℕ → Bool → ModeResult
unfolding all_digits parse_octal apply_parts
calculate_mode mode original_mode is_directory =
    if all_digits mode && not (mode == [])
    then elim (parse_octal mode) [ none ↦ nan | some n ↦ mode_is n ]
    else elim (apply_parts (split b',' mode) original_mode is_directory) [
      | none ↦ invalid
      | some n ↦ mode_is n
    ]

-- `checkPermission`
abbrev pub check_permission : ℕ → ℕ → ℕ → ℕ
check_permission mode perm type = if nat_beq (bit_and mode perm) perm then type else b'-'

pub format_mode : ℕ → Bool → JsString
format_mode mode is_directory =
    (if is_directory then b'd' else b'-')
    ∷ check_permission mode 0o400 b'r'
    ∷ check_permission mode 0o200 b'w'
    ∷ (if nat_beq (bit_and mode 0o4000) 0o4000 then b's' else check_permission mode 0o100 b'x')
    ∷ check_permission mode 0o40 b'r'
    ∷ check_permission mode 0o20 b'w'
    ∷ (if nat_beq (bit_and mode 0o2000) 0o2000 then b's' else check_permission mode 0o10 b'x')
    ∷ check_permission mode 0o4 b'r'
    ∷ check_permission mode 0o2 b'w'
    ∷ (if nat_beq (bit_and mode 0o1000) 0o1000 then b't' else check_permission mode 0o1 b'x')
    ∷ []
