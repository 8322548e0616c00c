-- ===== src/Grpc/Channel.antt =====
-- packages/ipfs-grpc-server/src/utils/web-socket-message-channel.js. Bytes are numbers below 256; the codecs of
-- the handler, `paramCase`, `JSON.stringify`, UTF-8 and the socket are outside of the repository.
mod Framing
mod Tests
use js_ipfs.Prelude.{
  ℕ, zero, suc, ◌+◌, ◌*◌, ◌/◌, ◌%◌, ◌^◌, Bool, true, false, Option, none, some, List, [], ◌∷◌, ◌++◌,
  ◌==◌, nat_eq, JsString, string_eq, Result, ok, err, map, length, take, drop, if◌then◌else◌,
  nat_beq, ltb, insert, codes, ◌>>=◌,
}

abbrev pub Bytes : Type 0
Bytes = List ℕ

abbrev pub header_size : ℕ
header_size = 5

abbrev pub trailer_bytes : ℕ
trailer_bytes = 128

-- `DataView.setUint32` and `Buffer.readUInt32BE`
abbrev pub uint32_bytes : ℕ → Bytes
uint32_bytes n = n / 2 ^ 24 % 256 ∷ n / 2 ^ 16 % 256 ∷ n / 2 ^ 8 % 256 ∷ n % 256 ∷ []

abbrev pub read_uint32 : Bytes → Option ℕ
read_uint32 (a ∷ b ∷ c ∷ d ∷ _) = some (((a * 256 + b) * 256 + c) * 256 + d)
read_uint32 _ = none

-- What the socket delivers: bytes, or something of another type.
pub data SocketData : Type 0 where
  bytes : Bytes → SocketData
  other : JsString → SocketData

pub data ChannelError (E : Type 0) : Type 0 where
  incorrect_message_type : JsString → ChannelError E
  handler_error : E → ChannelError E

-- The calls that the channel makes on its source, its sink and the socket.
pub data Call (M E : Type 0) : Type 0 where
  source_push : M → Call M E
  source_end : Option (ChannelError E) → Call M E
  sink_end terminate close : Call M E
  send : Bytes → Call M E

-- A header's value: not there, a function, or something that `JSON.stringify` prints.
pub data HeaderValue (V : Type 0) : Type 0 where
  missing function : HeaderValue V
  value : V → HeaderValue V

module _ {V : Type 0} (param_case : JsString → JsString) (stringify : V → JsString) where
  -- The entries of `output`.
  abbrev pub header_entries :
      List (JsString × HeaderValue V)
      → List (JsString × HeaderValue V)
      → List (JsString × HeaderValue V)
  header_entries [] output = output
  header_entries ((key, missing) ∷ rest) output =
      header_entries rest (insert (param_case key) missing output)
  header_entries ((key, function) ∷ rest) output = header_entries rest output
  header_entries ((key, value v) ∷ rest) output =
      header_entries rest (insert (param_case key) (value v) output)

  abbrev pub header_lines : List (JsString × HeaderValue V) → List JsString
  header_lines [] = []
  header_lines ((key, value v) ∷ rest) = (key ++ 58 ∷ 32 ∷ stringify v) ∷ header_lines rest
  header_lines ((key, _) ∷ rest) = header_lines rest

  -- `join('\r\n')`
  abbrev pub join_lines : List JsString → JsString
  join_lines [] = []
  join_lines (line ∷ []) = line
  join_lines (line ∷ next ∷ rest) = line ++ 13 ∷ 10 ∷ join_lines (next ∷ rest)

  pub object_to_headers : (JsString → Bytes) → List (JsString × HeaderValue V) → Bytes
  object_to_headers utf8 object = utf8 (join_lines (header_lines (header_entries object [])))

abbrev pub is_finish_send : Bytes → Bool
is_finish_send [] = false
is_finish_send (flag ∷ _) = nat_beq flag 1

module _ {M E : Type 0} where
  -- `handler.deserialize` may throw.
  pub push_deserialized : Result E M → Result (ChannelError E) (List (Call M E))
  push_deserialized (err e) = err (handler_error e)
  push_deserialized (ok m) = ok (source_push m ∷ [])

  -- A buffer from its flag on.
  pub on_frame : (Bytes → Result E M) → Bytes → Result (ChannelError E) (List (Call M E))
  unfolding push_deserialized
  on_frame deserialize buf =
      if ltb (length buf) (header_size + 1) then ok [] else elim (read_uint32 (drop 2 buf)) [
        | none ↦ ok []
        | some size ↦
            if ltb (length buf) (size + (1 + header_size))
            then ok []
            else push_deserialized (deserialize (take size (drop (1 + header_size) buf)))
      ]

  -- `ws.on('message')`
  pub on_message : (Bytes → Result E M) → SocketData → Result (ChannelError E) (List (Call M E))
  unfolding on_frame
  on_message deserialize (other type) =
      ok (source_end (some (incorrect_message_type type)) ∷ sink_end ∷ terminate ∷ [])
  on_message deserialize (bytes buf) =
      if is_finish_send buf then ok (source_end none ∷ []) else on_frame deserialize buf

  -- `ws.once('end')`
  pub on_end : List (Call M E)
  on_end = source_end none ∷ sink_end ∷ []

-- What `sendTrailer` reads of an error.
pub record ErrorFields (V : Type 0) : Type 0 where
  pub message : HeaderValue V
  pub stack : HeaderValue V
  pub code : HeaderValue V

module _ {V : Type 0} (number : ℕ → V) where
  abbrev pub trailer_fields : Option (ErrorFields V) → List (JsString × HeaderValue V)
  trailer_fields none =
      (codes "grpc-status", value (number 0))
      ∷ (codes "grpc-message", missing)
      ∷ (codes "grpc-stack", missing)
      ∷ (codes "grpc-code", missing)
      ∷ []
  trailer_fields (some e) =
      (codes "grpc-status", value (number 1))
      ∷ (codes "grpc-message", e.message)
      ∷ (codes "grpc-stack", e.stack)
      ∷ (codes "grpc-code", e.code)
      ∷ []

abbrev pub framed : ℕ → Bytes → Bytes
framed kind payload = kind ∷ uint32_bytes (length payload) ++ payload

module _ {M E V : Type 0} (to_headers : List (JsString × HeaderValue V) → Bytes) where
  pub send_metadata : List (JsString × HeaderValue V) → List (Call M E)
  send_metadata metadata = send (to_headers metadata) ∷ []

  module _ (number : ℕ → V) where
    pub send_trailer : Option (ErrorFields V) → List (Call M E)
    send_trailer e = send (framed trailer_bytes (to_headers (trailer_fields number e))) ∷ []

    -- `handler.serialize` may throw, in which case nothing is sent.
    pub send_message : {R : Type 0} → (R → Result E Bytes) → R → Result E (List (Call M E))
    unfolding send_trailer
    send_message serialize m =
        serialize m >>= λ response. ok (send (framed 0 response) ∷ send_trailer none)

    pub end : Option (ErrorFields V) → List (Call M E)
    unfolding send_trailer
    end e = send_trailer e ++ source_end none ∷ sink_end ∷ close ∷ []
