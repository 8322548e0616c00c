-- ===== src/Adding/Candidates/Contents.antt =====
-- The bytes of the file that an argument of `add` stands for.
use mathlib.Core.Path.{sym}
use js_ipfs.Prelude.{
  ◌>>=◌, ◌%◌, ◌<◌, ◌≡◌, refl, ap, ◌∙◌, Bool, true, false, not, if◌then◌else◌, Option, none, some,
  List, [], ◌∷◌, ◌==◌, JsString, map, flatten, append-nil, All, Result, ok, err, ◌⊎◌, inl, inr,
  arith, or_else, string_eq, Bool-cases,
}
use js_ipfs.Adding.Candidates.{
  Bytes, Chunk, number, bytes, text, array, strange, Content, whole_bytes, whole_text, blob,
  readable_stream, iterable, other, AddInput, content_of, an_object, AddError, unexpected_input,
  File, Conversions, is_truthy, to_bytes, to_byte, normalise_chunks, normalise_content,
  file_of_content, file_of_object, single_chunks, normalise_candidate_single,
}

module _ (js : Conversions) where
  abbrev chunk_bytes : Chunk → Bytes
  chunk_bytes (number n) = n ∷ []
  chunk_bytes (bytes b) = b
  chunk_bytes (text s) = js.utf8 s
  chunk_bytes (array ns) = ns
  chunk_bytes strange = []

  -- The bytes that content stands for: its parts, one behind the other.
  abbrev pub content_bytes : Content → Bytes
  content_bytes (whole_bytes b) = b
  content_bytes (whole_text s) = js.utf8 s
  content_bytes (blob parts) = flatten parts
  content_bytes (readable_stream chunks) = flatten (map chunk_bytes chunks)
  content_bytes (iterable chunks) = flatten (map chunk_bytes chunks)
  content_bytes other = []

  abbrev IsByte : Chunk → Type 0
  IsByte (number n) = n < 256
  IsByte _ = ⊥

  abbrev IsPiece : Chunk → Type 0
  IsPiece (bytes b) = Unit
  IsPiece (text s) = Unit
  IsPiece _ = ⊥

  -- Only bytes as numbers, or only buffers and texts.
  abbrev IsUniform : List Chunk → Type 0
  IsUniform chunks = All IsByte chunks ⊎ All IsPiece chunks

  abbrev pub IsProper : Content → Type 0
  IsProper (readable_stream chunks) = IsUniform chunks
  IsProper (iterable chunks) = IsUniform chunks
  IsProper other = ⊥
  IsProper _ = Unit

  map-to_byte :
      (chunks : List Chunk)
      → All IsByte chunks
      → map (to_byte js) chunks ≡ flatten (map chunk_bytes chunks)
  unfolding to_byte
  map-to_byte [] h = refl
  map-to_byte (number n ∷ chunks) h =
      let e : n % 256 ≡ n = omega (arith, h.0) in rw e (ap (λ l. n ∷ l) (map-to_byte chunks h.1))
  map-to_byte (bytes b ∷ chunks) h = absurd h.0
  map-to_byte (text s ∷ chunks) h = absurd h.0
  map-to_byte (array ns ∷ chunks) h = absurd h.0
  map-to_byte (strange ∷ chunks) h = absurd h.0

  map-to_bytes :
      (chunks : List Chunk) → All IsPiece chunks → map (to_bytes js) chunks ≡ map chunk_bytes chunks
  unfolding to_bytes
  map-to_bytes [] h = refl
  map-to_bytes (number n ∷ chunks) h = absurd h.0
  map-to_bytes (bytes b ∷ chunks) h = ap (λ l. b ∷ l) (map-to_bytes chunks h.1)
  map-to_bytes (text s ∷ chunks) h = ap (λ l. js.utf8 s ∷ l) (map-to_bytes chunks h.1)
  map-to_bytes (array ns ∷ chunks) h = absurd h.0
  map-to_bytes (strange ∷ chunks) h = absurd h.0

  -- Chunks that hold some bytes.
  abbrev Gives : Result AddError (List Bytes) → Bytes → Type 0
  Gives r b = (parts : List Bytes) × (r ≡ ok parts) × (flatten parts ≡ b)

  normalise_chunks-Gives :
      (chunks : List Chunk)
      → IsUniform chunks
      → Gives (normalise_chunks js chunks) (flatten (map chunk_bytes chunks))
  unfolding normalise_chunks
  normalise_chunks-Gives [] h = ([] ∷ [], refl, refl)
  normalise_chunks-Gives (number n ∷ chunks) (inl h) =
      (_, refl, append-nil _ ∙ map-to_byte (number n ∷ chunks) h)
  normalise_chunks-Gives (number n ∷ chunks) (inr h) = absurd h.0
  normalise_chunks-Gives (bytes b ∷ chunks) (inl h) = absurd h.0
  normalise_chunks-Gives (bytes b ∷ chunks) (inr h) =
      (_, refl, ap (λ l. flatten l) (map-to_bytes (bytes b ∷ chunks) h))
  normalise_chunks-Gives (text s ∷ chunks) (inl h) = absurd h.0
  normalise_chunks-Gives (text s ∷ chunks) (inr h) =
      (_, refl, ap (λ l. flatten l) (map-to_bytes (text s ∷ chunks) h))
  normalise_chunks-Gives (array ns ∷ chunks) (inl h) = absurd h.0
  normalise_chunks-Gives (strange ∷ chunks) (inl h) = absurd h.0
  normalise_chunks-Gives (array ns ∷ chunks) (inr h) = absurd h.0
  normalise_chunks-Gives (strange ∷ chunks) (inr h) = absurd h.0

  normalise_content-Gives :
      (c : Content) → IsProper c → Gives (normalise_content js c) (content_bytes c)
  unfolding normalise_content
  normalise_content-Gives (whole_bytes b) h = (b ∷ [], refl, append-nil b)
  normalise_content-Gives (whole_text s) h = (js.utf8 s ∷ [], refl, append-nil (js.utf8 s))
  normalise_content-Gives (blob parts) h = (parts, refl, refl)
  normalise_content-Gives (readable_stream chunks) h = normalise_chunks-Gives chunks h
  normalise_content-Gives (iterable chunks) h = normalise_chunks-Gives chunks h
  normalise_content-Gives other h = absurd h

  module _ {M T Mode Time : Type 0} (parse_mode : Option M → Option Mode)
      (parse_mtime : Option T → Option Time) where
    abbrev Outcome : Type 0
    Outcome = Result AddError (File Mode Time)

    -- A file with these bytes.
    abbrev pub Holds : Bytes → Outcome → Type 0
    Holds b r =
        (f : File Mode Time) × (parts : List Bytes) × (r ≡ ok f)
        × (f.content ≡ some parts)
        × (flatten parts ≡ b)

    abbrev plain : List Bytes → File Mode Time
    plain parts = record {
      path = some [];
      mode = parse_mode none;
      mtime = parse_mtime none;
      content = some parts;
    }

    file_of_content-Holds :
        (c : Content)
        → IsProper c
        → Holds (content_bytes c) (file_of_content js parse_mode parse_mtime c)
    unfolding file_of_content
    file_of_content-Holds c h =
        let (parts, e, g) = normalise_content-Gives c h in
        (plain parts, parts, ap (λ r. r >>= λ l. ok (plain l)) e, refl, g)

    single_chunks-Holds :
        (c : Content) (chunks : List Chunk)
        → IsProper c
        → IsUniform chunks
        → (chunks ≡ [] → content_bytes c ≡ [])
        → Holds (content_bytes c) (single_chunks js parse_mode parse_mtime c chunks)
    unfolding single_chunks
    single_chunks-Holds c [] h u e = (_, [], refl, refl, sym (e refl))
    single_chunks-Holds c (number n ∷ chunks) h u e = file_of_content-Holds c h
    single_chunks-Holds c (bytes b ∷ chunks) h u e = file_of_content-Holds c h
    single_chunks-Holds c (text s ∷ chunks) h u e = file_of_content-Holds c h
    single_chunks-Holds c (array ns ∷ chunks) h (inl u) e = absurd u.0
    single_chunks-Holds c (strange ∷ chunks) h (inl u) e = absurd u.0
    single_chunks-Holds c (array ns ∷ chunks) h (inr u) e = absurd u.0
    single_chunks-Holds c (strange ∷ chunks) h (inr u) e = absurd u.0

    abbrev single : AddInput M T → Outcome
    single input = normalise_candidate_single js parse_mode parse_mtime input

    single-Holds : (c : Content) → IsProper c → Holds (content_bytes c) (single (content_of c))
    unfolding normalise_candidate_single
    single-Holds (whole_bytes b) h = file_of_content-Holds (whole_bytes b) h
    single-Holds (whole_text s) h = file_of_content-Holds (whole_text s) h
    single-Holds (blob parts) h = file_of_content-Holds (blob parts) h
    single-Holds (readable_stream chunks) h =
        single_chunks-Holds (readable_stream chunks) chunks h h
          (ap (λ l. flatten (map chunk_bytes l)))
    single-Holds (iterable chunks) h =
        single_chunks-Holds (iterable chunks) chunks h h (ap (λ l. flatten (map chunk_bytes l)))
    single-Holds other h = absurd h

    -- Content that an object cannot give: it counts as no content.
    abbrev pub is_empty_text : Content → Bool
    is_empty_text (whole_text []) = true
    is_empty_text _ = false

    truthy-is_empty_text : (c : Content) → is_truthy c ≡ not (is_empty_text c)
    truthy-is_empty_text (whole_bytes b) = refl
    truthy-is_empty_text (whole_text []) = refl
    truthy-is_empty_text (whole_text (n ∷ s)) = refl
    truthy-is_empty_text (blob parts) = refl
    truthy-is_empty_text (readable_stream chunks) = refl
    truthy-is_empty_text (iterable chunks) = refl
    truthy-is_empty_text other = refl

    abbrev pub described :
        Option JsString → Option M → Option T → Option (List Bytes) → File Mode Time
    described path mode mtime parts = record {
      path = some (or_else path []);
      mode = parse_mode mode;
      mtime = parse_mtime mtime;
      content = parts;
    }

    -- What comes of an object whose content has these parts.
    abbrev pub OfObject : Option JsString → Option M → Option T → Content → List Bytes → Type 0
    OfObject path mode mtime c parts = single (an_object path mode mtime (some c)) ≡ (
        if is_empty_text c
        then (if or_else path [] == []
            then err unexpected_input
            else ok (described path mode mtime none))
        else ok (described path mode mtime (some parts)))

    object-file :
        (path : Option JsString) (mode : Option M) (mtime : Option T) (c : Content)
        (parts : List Bytes)
        → normalise_content js c ≡ ok parts
        → OfObject path mode mtime c parts
    unfolding normalise_candidate_single file_of_object
    object-file path mode mtime c parts g =
        let t = truthy-is_empty_text c in
        elim (Bool-cases (is_empty_text c)) [
          | inl x ↦ elim (Bool-cases (or_else path [] == [])) [
            | inl e ↦ rw (e, x) (rw (t, x) refl)
            | inr e ↦ rw (e, x) (rw (t, x) refl)
          ]
          | inr x ↦ elim (Bool-cases (or_else path [] == [])) [
            | inl e ↦ rw (e, x) (rw (t, x, g) refl)
            | inr e ↦ rw (e, x) (rw (t, x, g) refl)
          ]
        ]

    -- Bytes, texts, blobs, and streams and iterables that yield only bytes as numbers or only buffers
    -- and texts, make one file with exactly the bytes that they stand for, given as they are or as the
    -- content of an object; the file of an object has the object's path, or the empty one, its mode
    -- and its time. The empty text is as the content of an object no content: the file has none when the
    -- object has a path, and the object is refused otherwise.
    pub normalise_candidate_single-Holds :
        (c : Content) (path : Option JsString) (mode : Option M) (mtime : Option T)
        → IsProper c
        → Holds
            (content_bytes c)
            (normalise_candidate_single js parse_mode parse_mtime (content_of c))
          × ((parts : List Bytes) × OfObject path mode mtime c parts
              × (flatten parts ≡ content_bytes c))
    normalise_candidate_single-Holds c path mode mtime h =
        let (parts, e, g) = normalise_content-Gives c h in
        (single-Holds c h, (parts, object-file path mode mtime c parts e, g))
