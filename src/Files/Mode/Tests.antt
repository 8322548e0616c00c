-- ===== src/Files/Mode/Tests.antt =====
-- Runs of chmod.js and format-mode.js.
use js_ipfs.Prelude.{◌≡◌, refl, true, false, some, codes, includes, ◌&&◌, ℕ}
use js_ipfs.Prelude.Bits.{get_bit}
use js_ipfs.Files.Mode.{
  parse_symbolic_mode, calculate_mode, match_mode, nan, invalid, mode_is, format_mode,
}
use js_ipfs.Files.Mode.Bits.{Who, What, letter, index, bit_of, asks}
use js_ipfs.Files.Mode.Chmod.{new_bit, parse_symbolic_mode-bits}

adds : parse_symbolic_mode (codes "ug+rw") 0o111 false ≡ some 0o771
unfolding parse_symbolic_mode
adds = refl

-- `-x` on a file that nobody can execute makes it executable for all.
minus_grants : parse_symbolic_mode (codes "-x") 0o644 false ≡ some 0o755
unfolding parse_symbolic_mode
minus_grants = refl

assigns : calculate_mode (codes "a=rX,u+w") 0o750 false ≡ mode_is 0o755
unfolding calculate_mode
assigns = refl

octal : calculate_mode (codes "0755") 0o644 false ≡ mode_is 0o755
unfolding calculate_mode
octal = refl

not_octal : calculate_mode (codes "900") 0o644 false ≡ nan
unfolding calculate_mode
not_octal = refl

no_mode : calculate_mode (codes "q") 0o644 false ≡ invalid
unfolding calculate_mode
no_mode = refl

formats : format_mode 0o4751 true ≡ codes "drwsr-x--x"
unfolding format_mode
formats = refl

parse_symbolic_mode-bits_example :
    (r : ℕ) × (parse_symbolic_mode (codes "g-w") 0o755 false ≡ some r)
    × ((who : Who) (what : What)
        → get_bit (index who what) r
          ≡ new_bit
              (codes "-")
              (includes (codes "g") (letter who))
              (bit_of (includes (codes "g") (letter who) && asks (codes "w") 0o755 false what))
              (get_bit (index who what) 0o755))
unfolding match_mode
parse_symbolic_mode-bits_example =
    parse_symbolic_mode-bits (codes "g-w") 0o755 false (codes "g") (codes "-") (codes "w") refl
