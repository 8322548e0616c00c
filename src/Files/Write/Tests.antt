-- ===== src/Files/Write/Tests.antt =====
-- Runs of write.js on a five-byte file.
use js_ipfs.Prelude.{
  ℕ, ◌≡◌, refl, false, Option, none, some, [], ◌∷◌, arith, take, drop, flatten, append-nil,
}
use js_ipfs.Files.Write.{Bytes, Stream, Destination, WriteOptions, write, write_content}
use js_ipfs.Files.Write.Stream.{take_limit}
use js_ipfs.Files.Write.Content.{old_bytes, IsExported, spliced, flatten-write_content}

abbrev old : Bytes
old = 1 ∷ 2 ∷ 3 ∷ 4 ∷ 5 ∷ []

abbrev old_content : ℕ → Option ℕ → Stream
old_content o none = drop o old ∷ []
old_content o (some n) = take n (drop o old) ∷ []

abbrev file : Destination
file = record {
  unixfs = some (record { file_size = 5; mode = some 420; mtime = none });
  content = old_content;
}

file-IsExported : IsExported file
file-IsExported = record {
  size = λ u h. ground arith;
  range = λ o n. append-nil (take n (drop o old));
  rest = λ o. append-nil (drop o old);
}

abbrev options : WriteOptions
options = record { offset = 7; length = some 3; truncate = false; mode = none; mtime = none }

abbrev source : Stream
source = (10 ∷ 11 ∷ []) ∷ [] ∷ (12 ∷ 13 ∷ []) ∷ (14 ∷ []) ∷ []

write_past_end :
    flatten (write_content 3 4 file source options) ≡ 1 ∷ 2 ∷ 3 ∷ 4 ∷ 5 ∷ 0 ∷ 0 ∷ 10 ∷ 11 ∷ 12 ∷ []
unfolding write_content
write_past_end = refl

write_inside :
    flatten (write_content 3 4 file source (record options { offset = 1 }))
    ≡ 1 ∷ 10 ∷ 11 ∷ 12 ∷ 5 ∷ []
unfolding write_content
write_inside = refl

flatten-write_content_example :
    flatten (write 3 4 file source options).content
    ≡ spliced (old_bytes file) (take_limit (some 3) (flatten source)) 7 false
flatten-write_content_example =
    flatten-write_content 3 4 file source options file-IsExported (omega arith)
