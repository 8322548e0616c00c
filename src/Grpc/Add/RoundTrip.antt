-- ===== src/Grpc/Add/RoundTrip.antt =====
-- What the server hands to `addAll` of the candidates that a client sends.
use mathlib.Core.Path.{subst, sym}
use js_ipfs.Prelude.{
  ℕ, ◌+◌, ◌<◌, ◌≡◌, ◌≢◌, refl, ap, ◌∙◌, true, false, Option, none, Option-cases, inl, inr, List, [],
  ◌∷◌, ◌++◌, map, length, append-nil, append_assoc, All, nat_eq,
}
use js_ipfs.Grpc.Add.{
  Bytes, Candidate, Message, Input, SendError, chunk_message, end_message, send_directory,
  send_file, send_files, nonzero, receive, receive_all, end_streams, add,
}
use js_ipfs.Grpc.Add.Rounds.{
  file_of, content_received, received, IsSendableWith, IsSendable, mtime_of-secs_of,
  receive_all-append, done, in_progress, receive-more, receive-first, receive-last, receive-empty,
}
use js_ipfs.Grpc.Add.Wire.{
  ℤ, IsWire, IsInRange, send_files-file, send_files-directory, map-send_files,
}

module _ {T : Type 0} where
  -- The chunks of a file that has started, and its end.
  receive_all-chunks :
      (i : ℕ) (c : Candidate T) (inputs : List (Input T)) (content bufs : List Bytes)
      → All (λ (buf : Bytes). length buf ≢ 0) bufs
      → receive_all
          (map (chunk_message i c) bufs ++ end_message i c ∷ [])
          (in_progress i inputs (file_of c content false))
        ≡ done (inputs ++ file_of c (content ++ bufs) true ∷ [])
  unfolding receive_all
  receive_all-chunks i c inputs content [] h =
      rw (append-nil content) (receive-last i c inputs (file_of c content false))
  receive_all-chunks i c inputs content (buf ∷ bufs) h =
      ap (λ r. receive_all (map (chunk_message i c) bufs ++ end_message i c ∷ []) r)
        (receive-more i c inputs content buf h.0)
      ∙ receive_all-chunks i c inputs (content ++ buf ∷ []) bufs h.1
      ∙ ap (λ l. done (inputs ++ file_of c l true ∷ [])) (append_assoc content (buf ∷ []) bufs)

  receive_all-send_file :
      (i : ℕ) (c : Candidate T) (inputs : List (Input T)) (content : List Bytes)
      → All (λ (buf : Bytes). length buf ≢ 0) content
      → receive_all (send_file i c content) (done inputs)
        ≡ done (inputs ++ content_received c content ∷ [])
  unfolding receive_all send_file
  receive_all-send_file i c inputs [] h = receive-empty i c inputs
  receive_all-send_file i c inputs (buf ∷ bufs) h =
      ap (λ r. receive_all (map (chunk_message i c) bufs ++ end_message i c ∷ []) r)
        (receive-first i c inputs buf h.0)
      ∙ receive_all-chunks i c inputs (buf ∷ []) bufs h.1

  receive_all-send_directory :
      (i : ℕ) (c : Candidate T) (inputs : List (Input T))
      → receive_all (send_directory i c) (done inputs)
        ≡ done (
            inputs
            ++ record { path = c.path; mode = nonzero c.mode; mtime = c.mtime; content = none }
              ∷ [])
  unfolding receive_all receive send_directory
  receive_all-send_directory i c inputs = rw (mtime_of-secs_of c.mtime)

  -- What the server has received when all candidates were sent.
  abbrev Arrives :
      List (Input T) → List (Candidate T) → List (Message T) × Option SendError → Type 0
  Arrives inputs cs out =
      (receive_all out.0 (done inputs) ≡ done (inputs ++ map received cs)) × (out.1 ≡ none)

  Arrives-step :
      (inputs : List (Input T)) (c : Candidate T) (cs : List (Candidate T)) (ms : List (Message T))
      (out : List (Message T) × Option SendError)
      → receive_all ms (done inputs) ≡ done (inputs ++ received c ∷ [])
      → Arrives (inputs ++ received c ∷ []) cs out
      → Arrives inputs (c ∷ cs) (ms ++ out.0, out.1)
  Arrives-step inputs c cs ms out e a = (
    receive_all-append ms out.0 (done inputs)
        ∙ ap (receive_all out.0) e
        ∙ a.0
        ∙ ap (λ l. done l) (append_assoc inputs (received c ∷ []) (map received cs)),
    a.1,
  )

  send_files-Arrives :
      (i : ℕ) (cs : List (Candidate T)) (inputs : List (Input T))
      → All IsSendable cs
      → Arrives inputs cs (send_files i cs)
  unfolding send_files receive_all
  send_files-Arrives i [] inputs h = (ap (λ l. done l) (sym (append-nil inputs)), refl)
  send_files-Arrives i (c ∷ cs) inputs h =
      let rest : Arrives (inputs ++ received c ∷ []) cs (send_files (i + 1) cs) =
        send_files-Arrives (i + 1) cs (inputs ++ received c ∷ []) h.1 in
      elim (Option-cases c.content) [
        | inl e ↦
            let first : receive_all (send_directory i c) (done inputs)
                ≡ done (inputs ++ received c ∷ []) =
              rw (e) (receive_all-send_directory i c inputs) in
            subst (Arrives inputs (c ∷ cs))
              (sym (send_files-directory i c cs e (subst (IsSendableWith c) e h.0)))
              (Arrives-step inputs c cs (send_directory i c) (send_files (i + 1) cs) first rest)
        | inr (content, e) ↦
            let first : receive_all (send_file i c content) (done inputs)
                ≡ done (inputs ++ received c ∷ []) =
              rw (e) (receive_all-send_file i c inputs content (subst (IsSendableWith c) e h.0)) in
            subst (Arrives inputs (c ∷ cs)) (sym (send_files-file i c cs content e))
              (Arrives-step inputs c cs (send_file i c content) (send_files (i + 1) cs) first rest)
      ]

  add-sent :
      {E : Type 0} (cs : List (Candidate T))
      → All IsSendable cs
      → ((send_files 1 cs).1 ≡ none)
        × (add {E = E} (send_files 1 cs).0 none ≡ (map received cs, none))
  unfolding add end_streams
  add-sent {E = E} cs h =
      let a : Arrives [] cs (send_files 1 cs) = send_files-Arrives 1 cs [] h in (a.1, rw (a.0))

-- When every candidate has content of which no chunk is empty, or else a path that is not empty,
-- and its texts and numbers are ones that the fields of a message can have (a time is of whole
-- seconds of 32 bits with the sign, its nanoseconds and a mode have 32 bits), there are fewer than
-- 2^31 - 1 of them, and such messages pass the wire unchanged, then the client sends them all
-- without an error, and the server, which no error of the source meets, hands on one input for
-- each, in order: with its path, its time, its mode unless that is 0, and for a file the same chunks
-- and the end of its stream; a file without a chunk loses its mode and its time.
pub add-send_files :
    (wire : Message ℤ → Message ℤ) (E : Type 0) (cs : List (Candidate ℤ))
    → IsWire wire
    → length cs + 1 < 2147483648
    → All IsInRange cs
    → All IsSendable cs
    → ((send_files 1 cs).1 ≡ none)
      × (add {E = E} (map wire (send_files 1 cs).0) none ≡ (map received cs, none))
add-send_files wire E cs law small r h =
    let (e, g) = add-sent {E = E} cs h in (e, rw (map-send_files wire law cs small r h) g)
