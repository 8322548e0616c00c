-- ===== src/Files/Mode/Bits.antt =====
-- The permission bits that a symbolic mode asks for.
use js_ipfs.Prelude.{
  ℕ, ◌+◌, ◌*◌, ◌≤◌, ◌≡◌, refl, Bool, true, false, ◌&&◌, ◌||◌, arith, JsString, includes,
  if◌then◌else◌,
}
use Prim.Native.Nat.{bit_and}
use js_ipfs.Prelude.Bits.{get_bit}
use js_ipfs.Files.Mode.{
  nonzero, calculate_modification, calculate_ugo, calculate_special, requested,
}

pub data Who : Type 0 where
  user group other : Who

pub data What : Type 0 where
  execute write read : What

abbrev pub letter : Who → ℕ
letter user = b'u'
letter group = b'g'
letter other = b'o'

-- The place of the bit in a mode.
abbrev pub index : Who → What → ℕ
index user execute = 6
index user write = 7
index user read = 8
index group execute = 3
index group write = 4
index group read = 5
index other execute = 0
index other write = 1
index other read = 2

abbrev pub bit_of : Bool → ℕ
bit_of true = 1
bit_of false = 0

-- What the letters of the mode ask for, as `chmod` reads them.
abbrev pub asks : JsString → ℕ → Bool → What → Bool
asks mode original is_directory read = includes mode b'r'
asks mode original is_directory write = includes mode b'w'
asks mode original is_directory execute =
    includes mode b'x'
    || (includes mode b'X'
        && (is_directory
            || (nonzero (bit_and original 0o1)
                || (nonzero (bit_and original 0o10) || nonzero (bit_and original 0o100)))))

abbrev pick : Bool → ℕ → ℕ
pick true m = m
pick false m = 0

-- The sums of `calculateUGO` and `calculateSpecial` are the digits of one number.
requested_digits :
    (references mode : JsString) (original : ℕ) (d : Bool)
    → let m = calculate_modification mode original d in
      (special : ℕ) × (requested references mode original d
        ≡ pick (includes references b'u') m * 64
          + pick (includes references b'g') m * 8
          + pick (includes references b'o') m
          + special * 512)
unfolding requested calculate_ugo calculate_special
requested_digits references mode original d = (
  (if includes mode b't' then 1 else 0)
      + (if includes mode b's'
          then (if includes references b'u' then 4 else 0)
            + (if includes references b'g' then 2 else 0)
          else 0),
  ground arith,
)

modification-le :
    (mode : JsString) (original : ℕ) (d : Bool) → calculate_modification mode original d ≤ 7
unfolding calculate_modification
modification-le mode original d = ground arith

abbrev place : What → ℕ
place execute = 0
place write = 1
place read = 2

abbrev digit_of : Who → ℕ → ℕ → ℕ → ℕ
digit_of user u g o = u
digit_of group u g o = g
digit_of other u g o = o

get_bit-digits :
    (who : Who) (what : What) (u g o s : ℕ)
    → u ≤ 7
    → g ≤ 7
    → o ≤ 7
    → get_bit (index who what) (u * 64 + g * 8 + o + s * 512)
      ≡ get_bit (place what) (digit_of who u g o)
unfolding get_bit
get_bit-digits user execute u g o s hu hg ho = omega arith
get_bit-digits group execute u g o s hu hg ho = omega arith
get_bit-digits other execute u g o s hu hg ho = omega arith
get_bit-digits _ _ u g o s hu hg ho = omega arith

get_bit-modification :
    (what : What) (mode : JsString) (original : ℕ) (d : Bool)
    → get_bit (place what) (calculate_modification mode original d)
      ≡ bit_of (asks mode original d what)
unfolding get_bit calculate_modification
get_bit-modification execute mode original d = ground arith
get_bit-modification _ mode original d = ground arith

get_bit-pick :
    (what : What) (b : Bool) (mode : JsString) (original : ℕ) (d : Bool)
    → get_bit (place what) (pick b (calculate_modification mode original d))
      ≡ bit_of (b && asks mode original d what)
unfolding get_bit
get_bit-pick what true mode original d = get_bit-modification what mode original d
get_bit-pick execute false mode original d = refl
get_bit-pick _ false mode original d = refl

pick-le : (b : Bool) (m : ℕ) → m ≤ 7 → pick b m ≤ 7
pick-le true m h = h
pick-le false m h = omega arith

digit_of-pick :
    (who : Who) (references : JsString) (m : ℕ)
    → digit_of who
        (pick (includes references b'u') m)
        (pick (includes references b'g') m)
        (pick (includes references b'o') m)
      ≡ pick (includes references (letter who)) m
digit_of-pick user references m = refl
digit_of-pick _ references m = refl

-- A permission is asked for when its group and its letter are named.
pub get_bit-requested :
    (who : Who) (what : What) (references mode : JsString) (original : ℕ) (d : Bool)
    → get_bit (index who what) (requested references mode original d)
      ≡ bit_of (includes references (letter who) && asks mode original d what)
get_bit-requested who what references mode original d =
    let m = calculate_modification mode original d in
    let small = modification-le mode original d in
    let (special, e) = requested_digits references mode original d in
    rw
      (
        e,
        get_bit-digits who what _ _ _ special (pick-le (includes references b'u') m small)
            (pick-le (includes references b'g') m small)
            (pick-le (includes references b'o') m small),
        digit_of-pick who references m,
      )
      (get_bit-pick what (includes references (letter who)) mode original d)
