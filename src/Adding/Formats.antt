-- ===== src/Adding/Formats.antt =====
-- The documented formats of a chunker string.
use js_ipfs.Prelude.{ℕ, ◌+◌, ◌-◌, ◌*◌, Bool, true, false, [], ◌∷◌, JsString, ◌&&◌}
use js_ipfs.Adding.{is_digit}

abbrev pub is_numeral : JsString → Bool
is_numeral [] = true
is_numeral (c ∷ s) = is_digit c && is_numeral s

-- The number that decimal digits stand for.
abbrev pub value_from : ℕ → JsString → ℕ
value_from acc [] = acc
value_from acc (c ∷ s) = value_from (acc * 10 + (c - b'0')) s

-- Decimal digits, at least one.
abbrev pub is_number : JsString → Bool
is_number [] = false
is_number (c ∷ s) = is_numeral (c ∷ s)

abbrev pub value : JsString → ℕ
value s = value_from 0 s
