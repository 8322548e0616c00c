-- ===== src/Files/Write/Stream.antt =====
-- The bytes of limited, padded, joined and counted streams.
use js_ipfs.Prelude.{
  ℕ, zero, suc, ◌+◌, ◌-◌, ◌*◌, ◌≤◌, ◌≡◌, refl, ap, sym, ◌∙◌, inl, inr, Option, none, some, List, [],
  ◌∷◌, ◌++◌, arith, ltb, length, take, replicate, flatten, Bool-cases, append_assoc, take_all,
  take-append, length-append, take-nil, replicate-add, take-replicate,
}
use js_ipfs.Files.Write.{
  Bytes, Stream, limit_from, limit_async_stream_bytes, async_zeroes, cat_async_iterators,
  wrote_from, count_bytes_streamed,
}

-- The first `limit` bytes of a text, all of it under no limit.
abbrev pub take_limit : Option ℕ → Bytes → Bytes
take_limit none bytes = bytes
take_limit (some n) bytes = take n bytes

pub flatten-append {ℓ} :
    {A : Type ℓ} (xs ys : List (List A)) → flatten (xs ++ ys) ≡ flatten xs ++ flatten ys
flatten-append [] ys = refl
flatten-append (x ∷ xs) ys =
    rw (flatten-append xs ys) (sym (append_assoc x (flatten xs) (flatten ys)))

limit_from-none : (emitted : ℕ) (stream : Stream) → limit_from none emitted stream ≡ stream
unfolding limit_from
limit_from-none emitted [] = refl
limit_from-none emitted (buf ∷ stream) =
    ap (λ s. buf ∷ s) (limit_from-none (emitted + length buf) stream)

flatten-limit_from :
    (n emitted : ℕ) (stream : Stream)
    → emitted ≤ n
    → flatten (limit_from (some n) emitted stream) ≡ take (n - emitted) (flatten stream)
unfolding limit_from
flatten-limit_from n emitted [] h = sym (take-nil (n - emitted))
flatten-limit_from n emitted (buf ∷ stream) h = elim (Bool-cases (ltb n (emitted + length buf))) [
  | inl over ↦
      let kept : length buf - (emitted + length buf - n) ≡ n - emitted = ground arith in
      let spent : n - emitted - length buf ≡ 0 = ground arith in
      rw (over, kept, take-append (n - emitted) buf (flatten stream), spent)
  | inr within ↦
      let fits : emitted + length buf ≤ n = ground arith in
      let left : n - (emitted + length buf) ≡ n - emitted - length buf = omega arith in
      let ih : flatten (limit_from (some n) (emitted + length buf) stream)
          ≡ take (n - emitted - length buf) (flatten stream) =
        rw (← left) (flatten-limit_from n (emitted + length buf) stream fits) in
      rw (
        within,
        ih,
        take-append (n - emitted) buf (flatten stream),
        take_all (n - emitted) buf (omega arith),
      )
]

-- A limited stream holds the first `limit` bytes of the stream, however it is cut into chunks.
pub flatten-limit_async_stream_bytes :
    (limit : Option ℕ) (stream : Stream)
    → flatten (limit_async_stream_bytes stream limit) ≡ take_limit limit (flatten stream)
unfolding limit_async_stream_bytes
flatten-limit_async_stream_bytes none stream = ap flatten (limit_from-none 0 stream)
flatten-limit_async_stream_bytes (some n) stream =
    flatten-limit_from n 0 stream (omega arith) ∙ ap (λ k. take k (flatten stream)) (omega arith)

flatten-replicate :
    (pulls size : ℕ)
    → flatten (replicate pulls (replicate {A = ℕ} size 0)) ≡ replicate (pulls * size) 0
flatten-replicate zero size = let e : 0 * size ≡ 0 = omega arith in rw e
flatten-replicate (suc pulls) size =
    let e : suc pulls * size ≡ size + pulls * size = grind arith in
    rw (e, flatten-replicate pulls size) (sym (replicate-add size (pulls * size) 0))

-- Once the generator is asked often enough, `asyncZeroes` gives exactly `count` zeros.
pub flatten-async_zeroes :
    (pulls chunk_size count : ℕ)
    → count ≤ pulls * chunk_size
    → flatten (async_zeroes pulls chunk_size count) ≡ replicate count 0
unfolding async_zeroes
flatten-async_zeroes pulls chunk_size count h =
    flatten-limit_async_stream_bytes (some count) (replicate pulls (replicate chunk_size 0))
    ∙ (rw (flatten-replicate pulls chunk_size) (take-replicate count (pulls * chunk_size) 0 h))

pub cat_async_iterators-eq-flatten :
    (sources : List Stream) → cat_async_iterators sources ≡ flatten sources
unfolding cat_async_iterators
cat_async_iterators-eq-flatten [] = refl
cat_async_iterators-eq-flatten (source ∷ sources) =
    ap (λ t. source ++ t) (cat_async_iterators-eq-flatten sources)

pub wrote_from_lem :
    (wrote : ℕ) (source : Stream) → wrote_from wrote source ≡ wrote + length (flatten source)
unfolding wrote_from
wrote_from_lem wrote [] = omega arith
wrote_from_lem wrote (buf ∷ source) =
    omega (arith, wrote_from_lem (wrote + length buf) source, length-append buf (flatten source))

-- The bytes of the source are followed by what is added for their number.
pub flatten-count_bytes_streamed :
    (source : Stream) (notify : ℕ → Stream)
    → flatten (count_bytes_streamed source notify)
      ≡ flatten source ++ flatten (notify (length (flatten source)))
unfolding count_bytes_streamed
flatten-count_bytes_streamed source notify =
    let e : wrote_from 0 source ≡ length (flatten source) =
      omega (arith, wrote_from_lem 0 source) in
    rw e (flatten-append source (notify (length (flatten source))))
