-- ===== src/Grpc/Add.antt =====
-- packages/ipfs-grpc-client/src/core-api/add-all.js sends files as messages, of which
-- packages/ipfs-grpc-server/src/endpoints/add.js makes the input of `addAll`. The candidates are what
-- `normaliseInput` yields; the channel between the two keeps the order, and Wire has the fields
-- of a message.
mod Wire
mod Rounds
mod RoundTrip
mod Tests
use js_ipfs.Prelude.{
  ℕ, ◌+◌, Bool, true, false, not, Option, none, some, List, [], ◌∷◌, ◌++◌, ◌==◌, nat_eq, nat_beq,
  JsString, Result, map, length, if◌then◌else◌, lookup, insert, erase, is_some, zero, suc,
}

abbrev pub Bytes : Type 0
Bytes = List ℕ

pub record Mtime (T : Type 0) : Type 0 where
  pub secs : T
  pub nsecs : Option T

pub record Candidate (T : Type 0) : Type 0 where
  pub path : JsString
  pub mode : Option ℕ
  pub mtime : Option (Mtime T)
  pub content : Option (List Bytes)

pub data Kind : Type 0 where
  directory file : Kind

-- A field that is not set is `none`.
pub record Message (T : Type 0) : Type 0 where
  pub index : ℕ
  pub type : Option Kind
  pub path : JsString
  pub mode : Option ℕ
  pub mtime : Option T
  pub mtime_nsecs : Option T
  pub content : Option Bytes

pub data SendError : Type 0 where
  no_path_or_content : SendError

-- What was pushed into the stream of a file.
pub record Stream : Type 0 where
  pub chunks : List Bytes
  pub ended : Bool

pub record Input (T : Type 0) : Type 0 where
  pub path : JsString
  pub mode : Option ℕ
  pub mtime : Option (Mtime T)
  pub content : Option Stream

-- The input stream of the server, and for each index with an open stream the place of its file.
pub record Receiver (T : Type 0) : Type 0 where
  pub inputs : List (Input T)
  pub streams : List (ℕ × ℕ)

-- `mode !== 0 ? mode : undefined`
abbrev pub nonzero : Option ℕ → Option ℕ
nonzero none = none
nonzero (some m) = if nat_beq m 0 then none else some m

abbrev pub is_directory : Option Kind → Bool
is_directory none = true
is_directory (some directory) = true
is_directory (some file) = false

abbrev pub pushed : Bytes → Stream → Stream
pushed chunk s = record s { chunks = s.chunks ++ chunk ∷ [] }

abbrev pub ended_stream : Stream → Stream
ended_stream s = record s { ended = true }

module _ {T : Type 0} where
  abbrev pub secs_of : Option (Mtime T) → Option T
  secs_of none = none
  secs_of (some m) = some m.secs

  abbrev pub nsecs_of : Option (Mtime T) → Option T
  nsecs_of none = none
  nsecs_of (some m) = m.nsecs

  -- `sendDirectory`
  pub send_directory : ℕ → Candidate T → List (Message T)
  send_directory i c =
      record {
        index = i;
        type = some directory;
        path = c.path;
        mode = c.mode;
        mtime = secs_of c.mtime;
        mtime_nsecs = nsecs_of c.mtime;
        content = none;
      }
      ∷ []

  abbrev pub chunk_message : ℕ → Candidate T → Bytes → Message T
  chunk_message i c buf = record {
    index = i;
    type = some file;
    path = c.path;
    mode = c.mode;
    mtime = secs_of c.mtime;
    mtime_nsecs = nsecs_of c.mtime;
    content = some buf;
  }

  abbrev pub end_message : ℕ → Candidate T → Message T
  end_message i c = record {
    index = i;
    type = some file;
    path = c.path;
    mode = none;
    mtime = none;
    mtime_nsecs = none;
    content = none;
  }

  -- `sendFile`
  pub send_file : ℕ → Candidate T → List Bytes → List (Message T)
  send_file i c content = map (chunk_message i c) content ++ end_message i c ∷ []

  -- `sendFiles` from the index `i` on: the messages, and the error that ends them, if any.
  pub send_files : ℕ → List (Candidate T) → List (Message T) × Option SendError
  unfolding send_directory send_file
  send_files i [] = ([], none)
  send_files i (c ∷ cs) =
      let (ms, e) = send_files (i + 1) cs in
      elim c.content [
        | some content ↦ (send_file i c content ++ ms, e)
        | none ↦
            if nat_beq (length c.path) 0
            then ([], some no_path_or_content)
            else (send_directory i c ++ ms, e)
      ]

  abbrev pub new_receiver : Receiver T
  new_receiver = record { inputs = []; streams = [] }

  abbrev pub mtime_of : Option T → Option T → Option (Mtime T)
  mtime_of none nsecs = none
  mtime_of (some secs) nsecs = some (record { secs = secs; nsecs = nsecs })

  -- The file at a place with its stream changed.
  abbrev pub changed : (Stream → Stream) → ℕ → List (Input T) → List (Input T)
  changed f n [] = []
  changed f zero (x ∷ xs) =
      record x { content = elim x.content [ none ↦ none | some s ↦ some (f s) ] } ∷ xs
  changed f (suc n) (x ∷ xs) = x ∷ changed f n xs

  abbrev pub input_of : Message T → Option Stream → Input T
  input_of m content = record {
    path = m.path;
    mode = nonzero m.mode;
    mtime = mtime_of m.mtime m.mtime_nsecs;
    content = content;
  }

  -- The file of an index at its place: in progress, or finished.
  pub receive_content : Message T → ℕ → Receiver T → Receiver T
  receive_content m place r = elim m.content [
    | none ↦ record {
      inputs = changed ended_stream place r.inputs;
      streams = erase m.index r.streams;
    }
    | some chunk ↦
        if nat_beq (length chunk) 0
        then record {
          inputs = changed ended_stream place r.inputs;
          streams = erase m.index r.streams;
        }
        else record { inputs = changed (pushed chunk) place r.inputs; streams = r.streams }
  ]

  pub receive_file : Message T → Receiver T → Receiver T
  unfolding receive_content
  receive_file m r = elim (lookup m.index r.streams) [
    | some place ↦ receive_content m place r
    | none ↦
        let place = length r.inputs in
        receive_content m place (record {
          inputs = r.inputs ++ input_of m (some (record { chunks = []; ended = false })) ∷ [];
          streams = insert m.index place r.streams;
        })
  ]

  -- A round of the loop over the messages.
  pub receive : Message T → Receiver T → Receiver T
  unfolding receive_file
  receive m r =
      if is_directory m.type
      then record { inputs = r.inputs ++ input_of m none ∷ []; streams = r.streams }
      else receive_file m r

  pub receive_all : List (Message T) → Receiver T → Receiver T
  unfolding receive
  receive_all [] r = r
  receive_all (m ∷ ms) r = receive_all ms (receive m r)

  -- `finally`: the streams that are still open are ended.
  pub end_streams : List (ℕ × ℕ) → List (Input T) → List (Input T)
  end_streams [] inputs = inputs
  end_streams ((index, place) ∷ streams) inputs =
      end_streams streams (changed ended_stream place inputs)

  -- The input that the server hands to `addAll` of the messages of its source, and the error that
  -- ends it: the one with which the source ended, if any.
  pub add : {E : Type 0} → List (Message T) → Option E → List (Input T) × Option E
  unfolding receive_all end_streams
  add messages error =
      let r = receive_all messages new_receiver in (end_streams r.streams r.inputs, error)
