-- ===== src/Adding.antt =====
-- packages/ipfs-core/src/components/add-all/utils.js: the strings that choose a chunker.
pub mod Formats
pub mod Candidates
mod Tests
use js_ipfs.Prelude.{
  ℕ, ◌+◌, ◌-◌, ◌*◌, Bool, true, false, Option, none, some, List, [], ◌∷◌, JsString, codes, split,
  starts_with, trim_start, nat_beq, leb, ◌&&◌, ◌||◌, if◌then◌else◌, Result, ok, err, ◌>>=◌,
  or_throw, get_elem?, or_else,
}

pub data ChunkerError : Type 0 where
  not_an_integer incorrect_format unrecognized : ChunkerError

-- `ChunkerOptions`; a rabin chunker has its least, average and greatest size.
pub data ChunkerOptions : Type 0 where
  fixed : Option ℕ → ChunkerOptions
  rabin : Option ℕ → ℕ → Option ℕ → ChunkerOptions

abbrev pub hyphen : ℕ
hyphen = b'-'

abbrev pub is_digit : ℕ → Bool
is_digit c = leb b'0' c && leb c b'9'

-- The number that the characters up to the first other one give.
pub digits_from : ℕ → JsString → ℕ
digits_from acc [] = acc
digits_from acc (c ∷ s) =
    let more = digits_from (acc * 10 + (c - b'0')) s in if is_digit c then more else acc

-- The value of a hexadecimal digit.
abbrev pub hex_digit : ℕ → Option ℕ
hex_digit c =
    if is_digit c
    then some (c - b'0')
    else if leb b'a' c && leb c b'f'
    then some (c - b'a' + 10)
    else if leb b'A' c && leb c b'F'
    then some (c - b'A' + 10)
    else none

pub hex_from : ℕ → JsString → ℕ
hex_from acc [] = acc
hex_from acc (c ∷ s) = elim (hex_digit c) [ none ↦ acc | some d ↦ hex_from (acc * 16 + d) s ]

pub decimal : JsString → Option ℕ
unfolding digits_from
decimal [] = none
decimal (c ∷ s) = if is_digit c then some (digits_from 0 (c ∷ s)) else none

pub hexadecimal : JsString → Option ℕ
unfolding hex_from
hexadecimal [] = none
hexadecimal (c ∷ s) = elim (hex_digit c) [ none ↦ none | some d ↦ some (hex_from 0 (c ∷ s)) ]

pub unsigned : JsString → Option ℕ
unfolding decimal hexadecimal
unsigned [] = none
unsigned (c ∷ []) = decimal (c ∷ [])
unsigned (c ∷ x ∷ s) =
    if nat_beq c b'0' && (nat_beq x b'x' || nat_beq x b'X')
    then hexadecimal s
    else decimal (c ∷ x ∷ s)

abbrev pub without_plus : JsString → JsString
without_plus [] = []
without_plus (c ∷ s) = if nat_beq c b'+' then s else c ∷ s

-- `parseInt` of a string without a hyphen; `none` is NaN, and the number is the exact one.
pub parse_int : JsString → Option ℕ
unfolding unsigned trim_start
parse_int s = unsigned (without_plus (trim_start s))

pub parse_chunk_size : JsString → Result ChunkerError ℕ
unfolding parse_int
parse_chunk_size s = or_throw (parse_int s) not_an_integer

pub parse_rabin_parts : List JsString → Result ChunkerError ChunkerOptions
unfolding parse_chunk_size
parse_rabin_parts [] = err incorrect_format
parse_rabin_parts (r ∷ []) = ok (rabin none 262144 none)
parse_rabin_parts (r ∷ p ∷ []) = do avg ← parse_chunk_size p; ok (rabin none avg none)
parse_rabin_parts (r ∷ p ∷ q ∷ []) = err incorrect_format
parse_rabin_parts (r ∷ p ∷ q ∷ t ∷ []) = do
  least ← parse_chunk_size p
  avg ← parse_chunk_size q
  greatest ← parse_chunk_size t
  ok (rabin (some least) avg (some greatest))
parse_rabin_parts (r ∷ p ∷ q ∷ t ∷ u ∷ ps) = err incorrect_format

pub parse_rabin_string : JsString → Result ChunkerError ChunkerOptions
unfolding parse_rabin_parts
parse_rabin_string chunker = parse_rabin_parts (split hyphen chunker)

pub parse_size_string : JsString → Result ChunkerError ChunkerOptions
unfolding parse_chunk_size
parse_size_string chunker = do
  size ← parse_chunk_size (or_else (get_elem? (split hyphen chunker) 1) [])
  ok (fixed (some size))

-- A string that is not given is the empty one.
pub parse_chunker_string : JsString → Result ChunkerError ChunkerOptions
unfolding parse_rabin_string parse_size_string
parse_chunker_string [] = ok (fixed none)
parse_chunker_string (c ∷ s) =
    if starts_with (c ∷ s) (codes "size-")
    then parse_size_string (c ∷ s)
    else if starts_with (c ∷ s) (codes "rabin")
    then parse_rabin_string (c ∷ s)
    else err unrecognized
