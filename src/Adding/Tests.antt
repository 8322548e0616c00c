-- ===== src/Adding/Tests.antt =====
-- Chunker strings.
use js_ipfs.Prelude.{◌≡◌, refl, none, some, codes, ok, err, trim_start}
use js_ipfs.Adding.{
  fixed, rabin, not_an_integer, incorrect_format, digits_from, hex_from, decimal, hexadecimal,
  unsigned, parse_int, parse_chunk_size, parse_rabin_parts, parse_rabin_string, parse_size_string,
  parse_chunker_string,
}

-- What is accepted besides: anything behind the digits, hexadecimal digits, and other words.
loose :
    (parse_chunker_string (codes "size-10x-7") ≡ ok (fixed (some 10)))
    × (parse_chunker_string (codes "size-0x1F") ≡ ok (fixed (some 31)))
    × (parse_chunker_string (codes "rabinfoo") ≡ ok (rabin none 262144 none))
    × (parse_chunker_string (codes "rabin-9-5-1") ≡ ok (rabin (some 9) 5 (some 1)))
    × (parse_chunker_string (codes "rabin-x") ≡ err not_an_integer)
    × (parse_chunker_string (codes "rabin-1-2") ≡ err incorrect_format)
unfolding parse_chunker_string parse_size_string parse_rabin_string parse_rabin_parts
    parse_chunk_size parse_int trim_start unsigned decimal hexadecimal digits_from hex_from
loose = (refl, refl, refl, refl, refl, refl)
