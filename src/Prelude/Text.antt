-- ===== src/Prelude/Text.antt =====
-- JavaScript strings as lists of code units, and the `String` methods that the program calls.
use Prim.Native.Char.{code}
use Prim.Native.Nat.{ℕ}
use Prim.Native.String.{String}
use mathlib.Core.List.{List, [], ◌∷◌, ◌++◌, reverse}
use mathlib.Core.Bool.{Bool, true, false, ◌&&◌, ◌||◌}
use js_ipfs.Prelude.Tests.{nat_beq, leb, if◌then◌else◌}

-- A string is its sequence of code units.
abbrev pub JsString : Type 0
JsString = List ℕ

-- The code units of an ASCII literal.
abbrev pub codes : String → JsString
codes String.[] = []
codes (String.◌∷◌ c s) = code c ∷ codes s

abbrev pub starts_with : JsString → JsString → Bool
starts_with s [] = true
starts_with [] (p ∷ ps) = false
starts_with (c ∷ s) (p ∷ ps) = nat_beq c p && starts_with s ps

-- `s.includes(c)` for a single character
abbrev pub includes : JsString → ℕ → Bool
includes [] c = false
includes (d ∷ s) c = nat_beq d c || includes s c

-- `s.endsWith(c)` for a single character
abbrev pub ends_with : JsString → ℕ → Bool
ends_with [] c = false
ends_with (d ∷ []) c = nat_beq d c
ends_with (d ∷ e ∷ s) c = ends_with (e ∷ s) c

-- `s.substring(0, s.length - 1)`
abbrev pub but_last : JsString → JsString
but_last [] = []
but_last (d ∷ []) = []
but_last (d ∷ e ∷ s) = d ∷ but_last (e ∷ s)

-- `parts.join(sep)`
abbrev pub join : JsString → List JsString → JsString
join sep [] = []
join sep (p ∷ []) = p
join sep (p ∷ q ∷ ps) = p ++ (sep ++ join sep (q ∷ ps))

abbrev pub push_first : ℕ → List JsString → List JsString
push_first c [] = (c ∷ []) ∷ []
push_first c (p ∷ ps) = (c ∷ p) ∷ ps

-- `s.split(c)` for a single character
abbrev pub split : ℕ → JsString → List JsString
split c [] = [] ∷ []
split c (d ∷ s) = let rest = split c s in if nat_beq d c then [] ∷ rest else push_first d rest

-- The white space and line terminators that `trim` takes off.
abbrev pub is_space : ℕ → Bool
is_space c =
    (leb 9 c && leb c 13)
    || nat_beq c 32
    || nat_beq c 0xa0
    || nat_beq c 0x1680
    || (leb 0x2000 c && leb c 0x200a)
    || nat_beq c 0x2028
    || nat_beq c 0x2029
    || nat_beq c 0x202f
    || nat_beq c 0x205f
    || nat_beq c 0x3000
    || nat_beq c 0xfeff

unfoldable pub trim_start : JsString → JsString
trim_start [] = []
trim_start (c ∷ s) = if is_space c then trim_start s else c ∷ s

unfoldable pub trim : JsString → JsString
unfolding trim_start
trim s = reverse (trim_start (reverse (trim_start s)))
