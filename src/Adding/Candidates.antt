-- ===== src/Adding/Candidates.antt =====
-- packages/ipfs-core-utils/src/files: normalise-content.js and normalise-candidate-single.js, the file that an argument of
-- `add` stands for. Iterables are the lists of what they yield; the parsers of ipfs-unixfs, UTF-8 and the
-- conversions of JavaScript between numbers and texts are parameters.
mod Contents
mod Tests
use js_ipfs.Prelude.{
  ℕ, ◌%◌, Bool, true, false, not, Option, none, some, List, [], ◌∷◌, ◌==◌, JsString, string_eq, map,
  if◌then◌else◌, or_else, Result, ok, err, ◌>>=◌,
}

abbrev pub Bytes : Type 0
Bytes = List ℕ

-- What an iterable yields: `bytes` for any kind of buffer, `array` for an array of bytes or other
-- natural numbers, `number` for a natural number. Integers below 0 are not among the inputs.
pub data Chunk : Type 0 where
  number : ℕ → Chunk
  bytes : Bytes → Chunk
  text : JsString → Chunk
  array : List ℕ → Chunk
  strange : Chunk

pub data Content : Type 0 where
  whole_bytes : Bytes → Content
  whole_text : JsString → Content
  blob : List Bytes → Content
  readable_stream iterable : List Chunk → Content
  other : Content

-- Other objects have at most these four fields.
pub data AddInput (M T : Type 0) : Type 0 where
  nothing : AddInput M T
  content_of : Content → AddInput M T
  an_object : Option JsString → Option M → Option T → Option Content → AddInput M T

pub data AddError : Type 0 where
  unexpected_input multiple_items : AddError

pub record File (Mode Time : Type 0) : Type 0 where
  pub path : Option JsString
  pub mode : Option Mode
  pub mtime : Option Time
  pub content : Option (List Bytes)

-- Conversions of JavaScript, and of UTF-8.
pub record Conversions : Type 0 where
  pub utf8 : JsString → Bytes
  pub to_text : Chunk → JsString
  -- What `Uint8Array.from` makes of an item that is no number.
  pub coerced : Chunk → ℕ

abbrev pub is_truthy : Content → Bool
is_truthy (whole_text s) = not (s == [])
is_truthy _ = true

module _ (js : Conversions) where
  -- `toBytes` of an item
  pub to_bytes : Chunk → Bytes
  to_bytes (bytes b) = b
  to_bytes (text s) = js.utf8 s
  to_bytes (array ns) = map (λ n. n % 256) ns
  to_bytes (number n) = js.utf8 (js.to_text (number n))
  to_bytes strange = js.utf8 (js.to_text strange)

  -- An item of `Uint8Array.from`
  pub to_byte : Chunk → ℕ
  to_byte (number n) = n % 256
  to_byte (bytes b) = js.coerced (bytes b)
  to_byte (text s) = js.coerced (text s)
  to_byte (array ns) = js.coerced (array ns)
  to_byte strange = js.coerced strange

  -- An iterable, by its first item.
  pub normalise_chunks : List Chunk → Result AddError (List Bytes)
  unfolding to_bytes to_byte
  normalise_chunks [] = ok ([] ∷ [])
  normalise_chunks (number n ∷ chunks) = ok (map to_byte (number n ∷ chunks) ∷ [])
  normalise_chunks (bytes b ∷ chunks) = ok (map to_bytes (bytes b ∷ chunks))
  normalise_chunks (text s ∷ chunks) = ok (map to_bytes (text s ∷ chunks))
  normalise_chunks (array ns ∷ chunks) = err unexpected_input
  normalise_chunks (strange ∷ chunks) = err unexpected_input

  -- `normaliseContent`
  pub normalise_content : Content → Result AddError (List Bytes)
  unfolding normalise_chunks
  normalise_content (whole_bytes b) = ok (b ∷ [])
  normalise_content (whole_text s) = ok (js.utf8 s ∷ [])
  normalise_content (blob parts) = ok parts
  normalise_content (readable_stream chunks) = normalise_chunks chunks
  normalise_content (iterable chunks) = normalise_chunks chunks
  normalise_content other = err unexpected_input

  module _ {M T Mode Time : Type 0} (parse_mode : Option M → Option Mode)
      (parse_mtime : Option T → Option Time) where
    -- `toFileObject` of an input that is content.
    pub file_of_content : Content → Result AddError (File Mode Time)
    unfolding normalise_content
    file_of_content c = normalise_content c >>= λ content. ok (record {
      path = some [];
      mode = parse_mode none;
      mtime = parse_mtime none;
      content = some content;
    })

    -- `toFileObject` of an object. Without a path and content it is taken for content, and is none.
    pub file_of_object :
        Option JsString → Option M → Option T → Option Content → Result AddError (File Mode Time)
    unfolding normalise_content
    file_of_object path mode mtime content =
        let file : Option (List Bytes) → File Mode Time = λ parts. record {
          path = some (or_else path []);
          mode = parse_mode mode;
          mtime = parse_mtime mtime;
          content = parts;
        } in
        let without : Result AddError (File Mode Time) =
          if or_else path [] == []
          then (normalise_content other >>= λ parts. ok (file (some parts)))
          else ok (file none) in
        elim content [
          | none ↦ without
          | some c ↦
              if is_truthy c
              then (normalise_content c >>= λ parts. ok (file (some parts)))
              else without
        ]

    pub single_chunks : Content → List Chunk → Result AddError (File Mode Time)
    unfolding file_of_content
    single_chunks c [] = ok (record { path = none; mode = none; mtime = none; content = some [] })
    single_chunks c (array ns ∷ chunks) = err multiple_items
    single_chunks c (strange ∷ chunks) = err multiple_items
    single_chunks c (_ ∷ chunks) = file_of_content c

    abbrev pub is_file_object : Option JsString → Option Content → Bool
    is_file_object path none = not (or_else path [] == [])
    is_file_object path (some c) = if or_else path [] == [] then is_truthy c else true

    -- `normaliseCandidateSingle`, which yields one file or throws.
    pub normalise_candidate_single : AddInput M T → Result AddError (File Mode Time)
    unfolding file_of_content file_of_object single_chunks
    normalise_candidate_single nothing = err unexpected_input
    normalise_candidate_single (content_of (readable_stream chunks)) =
        single_chunks (readable_stream chunks) chunks
    normalise_candidate_single (content_of (iterable chunks)) =
        single_chunks (iterable chunks) chunks
    normalise_candidate_single (content_of other) = err unexpected_input
    normalise_candidate_single (content_of c) = file_of_content c
    normalise_candidate_single (an_object path mode mtime content) =
        if is_file_object path content
        then file_of_object path mode mtime content
        else err unexpected_input
