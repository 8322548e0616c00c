-- ===== src/Grpc/Channel/Tests.antt =====
-- Frames of handlers that send a number in one byte.
use js_ipfs.Prelude.{
  ℕ, ◌≡◌, refl, [], ◌∷◌, ◌++◌, List, codes, Result, ok, err, JsString, arith, some, ◌+◌,
}
use js_ipfs.Grpc.Channel.{
  Bytes, bytes, other, Call, source_push, source_end, send, HeaderValue, value, missing, function,
  object_to_headers, on_message, send_message, incorrect_message_type, sink_end, terminate,
}
use js_ipfs.Grpc.Channel.Framing.{IsWhole, on_message-IsWhole, on_message-send_message}

abbrev serialize : ℕ → Result ℕ Bytes
serialize n = ok (n ∷ [])

abbrev deserialize : Bytes → Result ℕ ℕ
deserialize (n ∷ []) = ok n
deserialize _ = err 3

abbrev to_headers : List (JsString × HeaderValue ℕ) → Bytes
to_headers object = object_to_headers (λ key. key) (λ n. (n + 48) ∷ []) (λ s. s) object

on_message-send_message_example :
    (frame : Bytes) × (calls : List (Call ℕ ℕ)) × (send_message to_headers (λ n. n) serialize 9
      ≡ ok (send frame ∷ calls))
    × (on_message deserialize (bytes (0 ∷ frame ++ 4 ∷ [])) ≡ ok (source_push 9 ∷ []))
on_message-send_message_example =
    on_message-send_message to_headers (λ n. n) serialize deserialize 9 9 (9 ∷ []) (4 ∷ []) refl
      refl (omega arith)

on_message-IsWhole_example :
    (buf : Bytes) × (payload : Bytes) × (bytes (0 ∷ 0 ∷ 0 ∷ 0 ∷ 0 ∷ 1 ∷ 9 ∷ 4 ∷ []) ≡ bytes buf)
    × IsWhole buf payload
    × (deserialize payload ≡ ok 9)
unfolding on_message
on_message-IsWhole_example =
    on_message-IsWhole deserialize (bytes (0 ∷ 0 ∷ 0 ∷ 0 ∷ 0 ∷ 1 ∷ 9 ∷ 4 ∷ [])) 9 refl

-- One byte of the payload is missing.
too_short : on_message {M = ℕ} deserialize (bytes (0 ∷ 0 ∷ 0 ∷ 0 ∷ 0 ∷ 2 ∷ 9 ∷ [])) ≡ ok []
unfolding on_message
too_short = refl

a_text :
    on_message {M = ℕ} deserialize (other (codes "string"))
    ≡ ok (source_end (some (incorrect_message_type (codes "string"))) ∷ sink_end ∷ terminate ∷ [])
unfolding on_message
a_text = refl

only_values :
    to_headers (
      (codes "a", missing)
      ∷ (codes "b", value 1)
      ∷ (codes "c", function)
      ∷ (codes "d", value 2)
      ∷ [])
    ≡ codes "b: 1" ++ 13 ∷ 10 ∷ codes "d: 2"
unfolding object_to_headers
only_values = refl
