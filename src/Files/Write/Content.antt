-- ===== src/Files/Write/Content.antt =====
-- What `files.write` leaves in the file, against a description of the result on whole texts.
use js_ipfs.Prelude.{
  ℕ, zero, suc, ◌+◌, ◌-◌, ◌*◌, ◌≤◌, ◌≡◌, refl, ap, sym, inl, inr, Bool, true, false, Option, none,
  some, [], ◌∷◌, ◌++◌, arith, ltb, length, take, drop, replicate, flatten, Bool-cases, append_assoc,
  append-nil, take-nil, drop-nil, drop_all, length-append, length-take, length-replicate,
  if◌then◌else◌,
}
use js_ipfs.Files.Write.{
  Bytes, Stream, FileMeta, Destination, WriteOptions, padding, write_sources, existing_end, write,
  write_content, limit_async_stream_bytes, cat_async_iterators,
}
use js_ipfs.Files.Write.Stream.{
  take_limit, flatten-append, flatten-limit_async_stream_bytes, flatten-async_zeroes,
  flatten-count_bytes_streamed, cat_async_iterators-eq-flatten,
}
use mathlib.Core.Path.{ap₂}

-- The bytes of the file before the call: none if there is no UnixFS file.
abbrev pub old_bytes : Destination → Bytes
old_bytes d = elim d.unixfs [ none ↦ [] | some u ↦ flatten (d.content 0 none) ]

-- What the exporter promises of the stream of a file: the asked for range, and its size.
pub record IsExported (d : Destination) : Type 0 where
  pub size : (u : FileMeta) → d.unixfs ≡ some u → u.file_size ≡ length (flatten (d.content 0 none))
  pub range :
      (o n : ℕ) → flatten (d.content o (some n)) ≡ take n (drop o (flatten (d.content 0 none)))
  pub rest : (o : ℕ) → flatten (d.content o none) ≡ drop o (flatten (d.content 0 none))

-- The old text up to `offset`, filled up with zeros.
abbrev pub padded : Bytes → ℕ → Bytes
padded old offset = take offset old ++ replicate (offset - length old) 0

-- The result on whole texts: the padded beginning, the new bytes, and the old end unless the file
-- is truncated.
abbrev pub spliced : Bytes → Bytes → ℕ → Bool → Bytes
spliced old new offset truncate =
    padded old offset ++ (new ++ (if truncate then [] else drop (offset + length new) old))

length-padded : (old : Bytes) (offset : ℕ) → length (padded old offset) ≡ offset
length-padded old offset = omega (
  arith,
  length-append (take offset old) (replicate (offset - length old) 0),
  length-take offset old,
  length-replicate {0} {A = ℕ} (offset - length old) 0,
)

padded_zero : (old : Bytes) (offset : ℕ) → offset ≡ 0 → padded old offset ≡ []
padded_zero old zero h = let e : 0 - length old ≡ 0 = omega arith in rw e
padded_zero old (suc n) h = absurd (omega arith)

abbrev dest : Option FileMeta → (ℕ → Option ℕ → Stream) → Destination
dest m c = record { unixfs = m; content = c }

module _ (pulls chunk_size : ℕ) where
  flatten-padding :
      (m : Option FileMeta) (c : ℕ → Option ℕ → Stream) (offset : ℕ)
      → IsExported (dest m c)
      → offset ≤ pulls * chunk_size
      → flatten (flatten (padding pulls chunk_size (dest m c) offset))
        ≡ padded (old_bytes (dest m c)) offset
  unfolding padding
  flatten-padding none c offset x h =
      rw (append-nil, flatten-async_zeroes pulls chunk_size offset h, take-nil offset)
        (ap (λ n. replicate n 0) (omega arith))
  flatten-padding (some u) c offset x h =
      let size : u.file_size ≡ length (flatten (c 0 none)) = x.size u refl in
      elim (Bool-cases (ltb u.file_size offset)) [
        | inl short ↦ rw (
          short,
          append-nil,
          flatten-append (c 0 (some offset)),
          x.range 0 offset,
          flatten-async_zeroes pulls chunk_size (offset - u.file_size) (omega arith),
          size,
        )
        | inr long ↦
            let none_missing : offset - length (flatten (c 0 none)) ≡ 0 = ground (arith, size) in
            rw (long, append-nil, x.range 0 offset, none_missing, append-nil)
      ]

  flatten-existing_end :
      (m : Option FileMeta) (c : ℕ → Option ℕ → Stream) (truncate : Bool) (wrote : ℕ)
      → IsExported (dest m c)
      → flatten (existing_end (dest m c) truncate wrote)
        ≡ (if truncate then [] else drop wrote (old_bytes (dest m c)))
  unfolding existing_end
  flatten-existing_end none c true wrote x = refl
  flatten-existing_end none c false wrote x = sym (drop-nil wrote)
  flatten-existing_end (some u) c true wrote x = refl
  flatten-existing_end (some u) c false wrote x =
      let size : u.file_size ≡ length (flatten (c 0 none)) = x.size u refl in
      elim (Bool-cases (ltb wrote u.file_size)) [
        | inl more ↦ rw more (x.rest wrote)
        | inr done ↦ rw done (sym (drop_all wrote (flatten (c 0 none)) (ground (arith, size))))
      ]

  flatten-write_sources :
      (d : Destination) (source : Stream) (o : WriteOptions)
      → IsExported d
      → o.offset ≤ pulls * chunk_size
      → flatten (flatten (write_sources pulls chunk_size d source o))
        ≡ padded (old_bytes d) o.offset ++ take_limit o.length (flatten source)
  unfolding write_sources
  flatten-write_sources d source o x h =
      let limited = flatten-limit_async_stream_bytes o.length source in
      let pad = padding pulls chunk_size d o.offset in
      let pads = flatten-padding d.unixfs d.content o.offset x h in
      elim (Bool-cases (ltb 0 o.offset)) [
        | inl later ↦
            rw
              (
                later,
                flatten-append pad (limit_async_stream_bytes source o.length ∷ []),
                append-nil,
              )
              (rw (flatten-append (flatten pad) (limit_async_stream_bytes source o.length))
                (ap₂ (λ a b. a ++ b) pads limited))
        | inr start ↦
            rw (start, append-nil, padded_zero (old_bytes d) o.offset (ground arith)) limited
      ]

  -- The bytes handed to the importer are the old ones up to `offset`, filled up with zeros, then
  -- at most `length` bytes of the source, then, unless `truncate` is set, the old bytes behind
  -- those: for a destination whose stream the exporter gives, however the streams are cut, and
  -- where the generator of zeros may be asked for as many bytes as the offset.
  pub flatten-write_content :
      (d : Destination) (source : Stream) (o : WriteOptions)
      → IsExported d
      → o.offset ≤ pulls * chunk_size
      → flatten (write pulls chunk_size d source o).content
        ≡ spliced (old_bytes d) (take_limit o.length (flatten source)) o.offset o.truncate
  unfolding write write_content
  flatten-write_content d source o x h =
      let sources = write_sources pulls chunk_size d source o in
      let new = take_limit o.length (flatten source) in
      let old = old_bytes d in
      let start : flatten (cat_async_iterators sources) ≡ padded old o.offset ++ new =
        rw (cat_async_iterators-eq-flatten sources) (flatten-write_sources d source o x h) in
      let count : length (padded old o.offset ++ new) ≡ o.offset + length new =
        omega (arith, length-append (padded old o.offset) new, length-padded old o.offset) in
      rw
        (
          flatten-count_bytes_streamed (cat_async_iterators sources) (existing_end d o.truncate),
          start,
          count,
          flatten-existing_end d.unixfs d.content o.truncate (o.offset + length new) x,
        )
        (append_assoc (padded old o.offset) new _)
