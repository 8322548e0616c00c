-- ===== src/Grpc/Add/Rounds.antt =====
-- The rounds of the server between the first message of a file and its last.
use js_ipfs.Prelude.{
  ℕ, suc, ◌≡◌, ◌≢◌, refl, ap, ◌∙◌, Bool, true, false, Option, none, some, List, [], ◌∷◌, ◌++◌,
  length, arith, nat_beq, All, lookup, insert, erase, nat_eq, beq_refl,
}
use js_ipfs.Grpc.Add.{
  Bytes, Mtime, Candidate, Message, Stream, Input, Receiver, secs_of, nsecs_of, chunk_message,
  end_message, nonzero, mtime_of, changed, pushed, ended_stream, input_of, receive_content,
  receive_file, receive, receive_all,
}

lookup-head : (i p : ℕ) → lookup i ((i, p) ∷ []) ≡ some p
lookup-head i p = rw (beq_refl i)

erase-head : (i p : ℕ) → erase i ((i, p) ∷ []) ≡ []
erase-head i p = rw (beq_refl i)

suc_not_zero : (n : ℕ) → nat_beq (suc n) 0 ≡ false
suc_not_zero n = ground arith

module _ {T : Type 0} where
  -- The file of a candidate with the chunks that the server has of it. The message that ends it
  -- carries no mode and no time: a file without a chunk has neither.
  abbrev pub file_of : Candidate T → List Bytes → Bool → Input T
  file_of c content ended = record {
    path = c.path;
    mode = nonzero c.mode;
    mtime = c.mtime;
    content = some (record { chunks = content; ended = ended });
  }

  abbrev empty_file_of : Candidate T → Bool → Input T
  empty_file_of c ended = record {
    path = c.path;
    mode = none;
    mtime = none;
    content = some (record { chunks = []; ended = ended });
  }

  abbrev pub content_received : Candidate T → List Bytes → Input T
  content_received c [] = empty_file_of c true
  content_received c (buf ∷ bufs) = file_of c (buf ∷ bufs) true

  abbrev pub received : Candidate T → Input T
  received c = elim c.content [
    | some content ↦ content_received c content
    | none ↦ record { path = c.path; mode = nonzero c.mode; mtime = c.mtime; content = none }
  ]

  -- A candidate has content of which no chunk is empty, or else a path that is not empty.
  abbrev pub IsSendableWith : Candidate T → Option (List Bytes) → Type 0
  IsSendableWith c none = length c.path ≢ 0
  IsSendableWith c (some content) = All (λ (buf : Bytes). length buf ≢ 0) content

  abbrev pub IsSendable : Candidate T → Type 0
  IsSendable c = IsSendableWith c c.content

  pub mtime_of-secs_of : (m : Option (Mtime T)) → mtime_of (secs_of m) (nsecs_of m) ≡ m
  mtime_of-secs_of none = refl
  mtime_of-secs_of (some m) = refl

  changed-last :
      (f : Stream → Stream) (xs : List (Input T)) (x : Input T)
      → changed f (length xs) (xs ++ x ∷ []) ≡ xs ++ changed f 0 (x ∷ [])
  changed-last f [] x = refl
  changed-last f (y ∷ xs) x = ap (λ l. y ∷ l) (changed-last f xs x)

  pub receive_all-append :
      (ms ns : List (Message T)) (r : Receiver T)
      → receive_all (ms ++ ns) r ≡ receive_all ns (receive_all ms r)
  unfolding receive_all
  receive_all-append [] ns r = refl
  receive_all-append (m ∷ ms) ns r = receive_all-append ms ns (receive m r)

  -- Between two files no stream is open.
  abbrev pub done : List (Input T) → Receiver T
  done inputs = record { inputs = inputs; streams = [] }

  abbrev pub in_progress : ℕ → List (Input T) → Input T → Receiver T
  in_progress i inputs x = record { inputs = inputs ++ x ∷ []; streams = (i, length inputs) ∷ [] }

  receive_content-more :
      (i : ℕ) (c : Candidate T) (inputs : List (Input T)) (content : List Bytes) (buf : Bytes)
      → length buf ≢ 0
      → receive_content
          (chunk_message i c buf)
          (length inputs)
          (in_progress i inputs (file_of c content false))
        ≡ in_progress i inputs (file_of c (content ++ buf ∷ []) false)
  unfolding receive_content
  receive_content-more i c inputs content [] h = absurd (h refl)
  receive_content-more i c inputs content (b ∷ buf) h = rw (suc_not_zero (length buf)) (
      ap (λ l. record { inputs = l; streams = (i, length inputs) ∷ [] })
        (changed-last (pushed (b ∷ buf)) inputs (file_of c content false)))

  receive_file-open :
      (m : Message T) (place : ℕ) (r : Receiver T)
      → lookup m.index r.streams ≡ some place
      → receive_file m r ≡ receive_content m place r
  unfolding receive_file
  receive_file-open m place r found = rw (found, receive_file)

  receive_file-new :
      (m : Message T) (r : Receiver T)
      → lookup m.index r.streams ≡ none
      → receive_file m r
        ≡ receive_content m (length r.inputs) (record {
          inputs = r.inputs ++ input_of m (some (record { chunks = []; ended = false })) ∷ [];
          streams = insert m.index (length r.inputs) r.streams;
        })
  unfolding receive_file
  receive_file-new m r missing = rw (missing, receive_file)

  pub receive-more :
      (i : ℕ) (c : Candidate T) (inputs : List (Input T)) (content : List Bytes) (buf : Bytes)
      → length buf ≢ 0
      → receive (chunk_message i c buf) (in_progress i inputs (file_of c content false))
        ≡ in_progress i inputs (file_of c (content ++ buf ∷ []) false)
  unfolding receive
  receive-more i c inputs content buf h =
      receive_file-open (chunk_message i c buf) (length inputs)
        (in_progress i inputs (file_of c content false)) (lookup-head i (length inputs))
      ∙ receive_content-more i c inputs content buf h

  pub receive-first :
      (i : ℕ) (c : Candidate T) (inputs : List (Input T)) (buf : Bytes)
      → length buf ≢ 0
      → receive (chunk_message i c buf) (done inputs)
        ≡ in_progress i inputs (file_of c (buf ∷ []) false)
  unfolding receive
  receive-first i c inputs buf h =
      receive_file-new (chunk_message i c buf) (done inputs) refl
      ∙ ap
          (λ m.
            receive_content (chunk_message i c buf) (length inputs)
              (in_progress i inputs (record (file_of c [] false) { mtime = m })))
          (mtime_of-secs_of c.mtime)
      ∙ receive_content-more i c inputs [] buf h

  receive_content-last :
      (i : ℕ) (c : Candidate T) (inputs : List (Input T)) (x : Input T)
      → receive_content (end_message i c) (length inputs) (in_progress i inputs x)
        ≡ done (inputs ++ changed ended_stream 0 (x ∷ []))
  unfolding receive_content
  receive_content-last i c inputs x =
      rw (erase-head i (length inputs), changed-last ended_stream inputs x)

  pub receive-last :
      (i : ℕ) (c : Candidate T) (inputs : List (Input T)) (x : Input T)
      → receive (end_message i c) (in_progress i inputs x)
        ≡ done (inputs ++ changed ended_stream 0 (x ∷ []))
  unfolding receive
  receive-last i c inputs x =
      receive_file-open (end_message i c) (length inputs) (in_progress i inputs x)
        (lookup-head i (length inputs))
      ∙ receive_content-last i c inputs x

  pub receive-empty :
      (i : ℕ) (c : Candidate T) (inputs : List (Input T))
      → receive (end_message i c) (done inputs) ≡ done (inputs ++ empty_file_of c true ∷ [])
  unfolding receive
  receive-empty i c inputs =
      receive_file-new (end_message i c) (done inputs) refl
      ∙ receive_content-last i c inputs (empty_file_of c false)
