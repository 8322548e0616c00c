-- ===== src/Grpc/Add/Wire.antt =====
-- packages/ipfs-grpc-protocol/src/root.proto, the fields of an `AddRequest`. How a message is
-- encoded and decoded (utils/load-services.js has it done by protobufjs) is a parameter.
use mathlib.Core.Path.{subst}
use js_ipfs.Prelude.{
  ℕ, ◌+◌, ◌*◌, ◌<◌, ◌≡◌, ◌≢◌, refl, ap, ◌∙◌, Bool, true, false, not, Option, none, some,
  Option-cases, inl, inr, List, [], ◌∷◌, ◌++◌, map, length, arith, nat_beq, All, All-append,
  JsString, ltb, leb, ◌&&◌,
}
use js_ipfs.Grpc.Add.{
  Bytes, Candidate, Message, secs_of, nsecs_of, chunk_message, end_message, send_directory,
  send_file, send_files,
}
use js_ipfs.Grpc.Add.Rounds.{IsSendableWith, IsSendable}

-- Whole numbers; `negsuc n` is -(n + 1).
pub data ℤ : Type 0 where
  pos : ℕ → ℤ
  negsuc : ℕ → ℤ

abbrev pub FitsInt32 : ℤ → Type 0
FitsInt32 (pos n) = n < 2147483648
FitsInt32 (negsuc n) = n < 2147483648

abbrev pub FitsUint32 : ℤ → Type 0
FitsUint32 (pos n) = n < 4294967296
FitsUint32 (negsuc n) = ⊥

abbrev pub WhenSet : {A : Type 0} → (A → Type 0) → Option A → Type 0
WhenSet P none = Unit
WhenSet P (some a) = P a

abbrev is_low : ℕ → Bool
is_low n = leb 56320 n && ltb n 57344

abbrev is_high : ℕ → Bool
is_high n = leb 55296 n && ltb n 56320

-- The code units of a text are those of characters: each surrogate has its other half.
abbrev pub is_paired : Bool → JsString → Bool
is_paired pending [] = not pending
is_paired true (n ∷ s) = is_low n && is_paired (is_high n) s
is_paired false (n ∷ s) = not (is_low n) && is_paired (is_high n) s

abbrev pub is_well_formed : JsString → Bool
is_well_formed s = is_paired false s

-- A message of this path and so many bytes of content is shorter than 2 GiB.
abbrev pub IsShort : JsString → ℕ → Type 0
IsShort path n = 3 * length path + n + 64 < 2147483648

abbrev pub content_length : Option Bytes → ℕ
content_length none = 0
content_length (some b) = length b

-- The fields of a message have values of their types: `int32 index`, `string path`, `uint32 mode`,
-- `int32 mtime`, `uint32 mtime_nsecs`.
pub record IsEncodable (m : Message ℤ) : Type 0 where
  pub index : m.index < 2147483648
  pub path : is_well_formed m.path ≡ true
  pub mode : WhenSet (λ n. n < 4294967296) m.mode
  pub mtime : WhenSet FitsInt32 m.mtime
  pub mtime_nsecs : WhenSet FitsUint32 m.mtime_nsecs
  pub short : IsShort m.path (content_length m.content)

-- What the server decodes of a message that the client encoded: values of the types of their
-- fields come back.
abbrev pub IsWire : (Message ℤ → Message ℤ) → Type 0
IsWire wire = (m : Message ℤ) → IsEncodable m → wire m ≡ m

-- A candidate of which every message is encodable.
pub record IsInRange (c : Candidate ℤ) : Type 0 where
  pub path : is_well_formed c.path ≡ true
  pub mode : WhenSet (λ n. n < 4294967296) c.mode
  pub secs : WhenSet FitsInt32 (secs_of c.mtime)
  pub nsecs : WhenSet FitsUint32 (nsecs_of c.mtime)
  pub short : IsShort c.path 0
  pub chunks : WhenSet (All (λ (buf : Bytes). IsShort c.path (length buf))) c.content

module _ {T : Type 0} where
  pub send_files-file :
      (i : ℕ) (c : Candidate T) (cs : List (Candidate T)) (content : List Bytes)
      → c.content ≡ some content
      → send_files i (c ∷ cs)
        ≡ (send_file i c content ++ (send_files (i + 1) cs).0, (send_files (i + 1) cs).1)
  unfolding send_files send_file
  send_files-file i c cs content e = rw (e, send_files)

  pub send_files-directory :
      (i : ℕ) (c : Candidate T) (cs : List (Candidate T))
      → c.content ≡ none
      → length c.path ≢ 0
      → send_files i (c ∷ cs)
        ≡ (send_directory i c ++ (send_files (i + 1) cs).0, (send_files (i + 1) cs).1)
  unfolding send_files send_directory
  send_files-directory i c cs e h =
      let g : nat_beq (length c.path) 0 ≡ false = ground arith in rw (e, send_files) (rw g refl)

module _ (wire : Message ℤ → Message ℤ) (law : IsWire wire) where
  abbrev Passes : List (Message ℤ) → Type 0
  Passes ms = All (λ m. wire m ≡ m) ms

  map-wire : (ms : List (Message ℤ)) → Passes ms → map wire ms ≡ ms
  map-wire [] h = refl
  map-wire (m ∷ ms) h = ap (λ n. n ∷ map wire ms) h.0 ∙ ap (λ l. m ∷ l) (map-wire ms h.1)

  chunk_messages-Passes :
      (i : ℕ) (c : Candidate ℤ) (bufs : List Bytes)
      → i < 2147483648
      → IsInRange c
      → All (λ (buf : Bytes). IsShort c.path (length buf)) bufs
      → Passes (map (chunk_message i c) bufs)
  chunk_messages-Passes i c [] small r h = tt
  chunk_messages-Passes i c (buf ∷ bufs) small r h = (
    law (chunk_message i c buf) (record {
      index = small;
      path = r.path;
      mode = r.mode;
      mtime = r.secs;
      mtime_nsecs = r.nsecs;
      short = h.0;
    }),
    chunk_messages-Passes i c bufs small r h.1,
  )

  end_message-wire :
      (i : ℕ) (c : Candidate ℤ)
      → i < 2147483648
      → IsInRange c
      → wire (end_message i c) ≡ end_message i c
  end_message-wire i c small r = law (end_message i c) (record {
    index = small;
    path = r.path;
    mode = tt;
    mtime = tt;
    mtime_nsecs = tt;
    short = r.short;
  })

  send_directory-Passes :
      (i : ℕ) (c : Candidate ℤ) → i < 2147483648 → IsInRange c → Passes (send_directory i c)
  unfolding send_directory
  send_directory-Passes i c small r = (
    law _ (record {
      index = small;
      path = r.path;
      mode = r.mode;
      mtime = r.secs;
      mtime_nsecs = r.nsecs;
      short = r.short;
    }),
    tt,
  )

  send_file-Passes :
      (i : ℕ) (c : Candidate ℤ) (content : List Bytes)
      → c.content ≡ some content
      → i < 2147483648
      → IsInRange c
      → Passes (send_file i c content)
  unfolding send_file
  send_file-Passes i c content e small r =
      All-append (λ m. wire m ≡ m) (map (chunk_message i c) content) (end_message i c ∷ [])
        (chunk_messages-Passes i c content small r
          (subst (WhenSet (All (λ (buf : Bytes). IsShort c.path (length buf)))) e r.chunks))
        (end_message-wire i c small r, tt)

  send_files-Passes :
      (i : ℕ) (cs : List (Candidate ℤ))
      → i + length cs < 2147483648
      → All IsInRange cs
      → All IsSendable cs
      → Passes (send_files i cs).0
  unfolding send_files
  send_files-Passes i [] small r h = tt
  send_files-Passes i (c ∷ cs) small r h =
      let rest : Passes (send_files (i + 1) cs).0 =
        send_files-Passes (i + 1) cs (omega (arith, small)) r.1 h.1 in
      let here : i < 2147483648 = omega (arith, small) in
      elim (Option-cases c.content) [
        | inl e ↦ rw (send_files-directory i c cs e (subst (IsSendableWith c) e h.0)) (
            All-append (λ m. wire m ≡ m) (send_directory i c) (send_files (i + 1) cs).0
              (send_directory-Passes i c here r.0) rest)
        | inr (content, e) ↦ rw (send_files-file i c cs content e) (
            All-append (λ m. wire m ≡ m) (send_file i c content) (send_files (i + 1) cs).0
              (send_file-Passes i c content e here r.0) rest)
      ]

  pub map-send_files :
      (cs : List (Candidate ℤ))
      → length cs + 1 < 2147483648
      → All IsInRange cs
      → All IsSendable cs
      → map wire (send_files 1 cs).0 ≡ (send_files 1 cs).0
  map-send_files cs small r h =
      map-wire (send_files 1 cs).0 (send_files-Passes 1 cs (omega (arith, small)) r h)
