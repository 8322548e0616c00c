-- ===== src/Files/Write.antt =====
-- packages/ipfs-core/src/components/files/write.js: the bytes that `files.write` imports.
-- A stream of `Uint8Array`s is the list of its chunks, in order; a limit of `none` is `Infinity`.
pub mod Stream
pub mod Content
mod Tests
use js_ipfs.Prelude.{
  ℕ, ◌+◌, ◌-◌, Bool, true, false, ◌&&◌, not, Option, none, some, List, [], ◌∷◌, ◌++◌, ltb, length,
  take, replicate, flatten, is_some, if◌then◌else◌,
}

abbrev pub Bytes : Type 0
Bytes = List ℕ

abbrev pub Stream : Type 0
Stream = List Bytes

-- `n > limit`
abbrev pub exceeds : ℕ → Option ℕ → Bool
exceeds n none = false
exceeds n (some limit) = ltb limit n

-- `limit - emitted`, where it is negative: the number of bytes over the limit.
abbrev pub excess : ℕ → Option ℕ → ℕ
excess n none = 0
excess n (some limit) = n - limit

-- `buf.subarray(0, -n)` for a positive `n`: all but the last `n` bytes.
abbrev pub drop_last : ℕ → Bytes → Bytes
drop_last n buf = take (length buf - n) buf

-- The loop of `limitAsyncStreamBytes`, on the bytes `emitted` so far.
pub limit_from : Option ℕ → ℕ → Stream → Stream
limit_from limit emitted [] = []
limit_from limit emitted (buf ∷ stream) =
    let emitted' = emitted + length buf in
    let rest = limit_from limit emitted' stream in
    if exceeds emitted' limit then drop_last (excess emitted' limit) buf ∷ [] else buf ∷ rest

pub limit_async_stream_bytes : Stream → Option ℕ → Stream
unfolding limit_from
limit_async_stream_bytes stream limit = limit_from limit 0 stream

-- `asyncZeroes`: the endless generator is asked for `pulls` chunks of `chunk_size` zeros.
pub async_zeroes : ℕ → ℕ → ℕ → Stream
unfolding limit_async_stream_bytes
async_zeroes pulls chunk_size count =
    limit_async_stream_bytes (replicate pulls (replicate chunk_size 0)) (some count)

-- `catAsyncIterators`
pub cat_async_iterators : List Stream → Stream
cat_async_iterators [] = []
cat_async_iterators (source ∷ sources) = source ++ cat_async_iterators sources

pub wrote_from : ℕ → Stream → ℕ
wrote_from wrote [] = wrote
wrote_from wrote (buf ∷ source) = wrote_from (wrote + length buf) source

-- `countBytesStreamed`: the source, then what `notify` adds for the bytes counted.
pub count_bytes_streamed : Stream → (ℕ → Stream) → Stream
unfolding wrote_from
count_bytes_streamed source notify = source ++ notify (wrote_from 0 source)

-- `UnixFS` of a file: its size, mode and modification time (seconds).
pub record FileMeta : Type 0 where
  pub file_size : ℕ
  pub mode : Option ℕ
  pub mtime : Option ℕ

-- The destination that `toMfsPath` returned. `content offset length` is the exporter's stream.
pub record Destination : Type 0 where
  pub unixfs : Option FileMeta
  pub content : ℕ → Option ℕ → Stream

pub record WriteOptions : Type 0 where
  pub offset : ℕ
  pub length : Option ℕ
  pub truncate : Bool
  pub mode : Option ℕ
  pub mtime : Option ℕ

-- What is handed to the importer.
pub record Candidate : Type 0 where
  pub content : Stream
  pub mode : Option ℕ
  pub mtime : Option ℕ

-- The end of the existing file, after `wrote` bytes were written.
pub existing_end : Destination → Bool → ℕ → Stream
existing_end d truncate wrote = elim d.unixfs [
  | none ↦ []
  | some u ↦ if not truncate && ltb wrote u.file_size then d.content wrote none else []
]

-- `options.mode` if it is given, else that of the existing file; so too the time.
abbrev pub kept : Option ℕ → Option ℕ → Option ℕ
kept (some new) old = some new
kept none old = old

module _ (pulls chunk_size : ℕ) where
  -- "pad start of file if necessary"
  pub padding : Destination → ℕ → List Stream
  unfolding async_zeroes
  padding d offset = elim d.unixfs [
    | none ↦ async_zeroes pulls chunk_size offset ∷ []
    | some u ↦
        d.content 0 (some offset)
        ∷ (if ltb u.file_size offset
            then async_zeroes pulls chunk_size (offset - u.file_size) ∷ []
            else [])
  ]

  pub write_sources : Destination → Stream → WriteOptions → List Stream
  unfolding padding limit_async_stream_bytes
  write_sources d source o =
      (if ltb 0 o.offset then padding d o.offset else [])
      ++ limit_async_stream_bytes source o.length ∷ []

  pub write_content : Destination → Stream → WriteOptions → Stream
  unfolding write_sources existing_end cat_async_iterators count_bytes_streamed
  write_content d source o =
      count_bytes_streamed (cat_async_iterators (write_sources d source o))
        (existing_end d o.truncate)

  -- `write`, up to the call of the importer.
  pub write : Destination → Stream → WriteOptions → Candidate
  unfolding write_content
  write d source o = record {
    content = write_content d source o;
    mode = kept o.mode (elim d.unixfs [ none ↦ none | some u ↦ u.mode ]);
    mtime = kept o.mtime (elim d.unixfs [ none ↦ none | some u ↦ u.mtime ]);
  }
