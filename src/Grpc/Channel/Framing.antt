-- ===== src/Grpc/Channel/Framing.antt =====
-- The frames that the channel sends and accepts.
use mathlib.Core.Path.{sym}
use js_ipfs.Prelude.{
  ℕ, suc, ◌+◌, ◌*◌, ◌/◌, ◌%◌, ◌^◌, ◌≤◌, ◌<◌, ◌≡◌, ◌≢◌, refl, ap, ◌∙◌, false, none, some, List, [],
  ◌∷◌, ◌++◌, Result, ok, err, length, take, drop, if◌then◌else◌, ltb, arith, All, inl, inr,
  Bool-cases, length-append, length-take, take-append-drop, JsString,
}
use js_ipfs.Grpc.Channel.{
  Bytes, uint32_bytes, read_uint32, SocketData, bytes, other, ChannelError, Call, source_push,
  source_end, send, push_deserialized, on_frame, on_message, is_finish_send, framed, send_message,
  send_trailer, HeaderValue,
}

abbrev pub sum_of : ℕ → ℕ → ℕ → ℕ → ℕ
sum_of a b c d = ((a * 256 + b) * 256 + c) * 256 + d

sum_of-digits :
    (n : ℕ)
    → n < 2 ^ 32
    → sum_of (n / 2 ^ 24 % 256) (n / 2 ^ 16 % 256) (n / 2 ^ 8 % 256) (n % 256) ≡ n
sum_of-digits n h = omega arith

not_ltb : (a b : ℕ) → b ≤ a → ltb a b ≡ false
not_ltb a b h = ground arith

-- A number that is written in four bytes is read back modulo 2 ^ 32, and each of the bytes is below
-- 256.
pub uint32_bytes-read_uint32 :
    (n : ℕ)
    → All (λ b. b < 256) (uint32_bytes n) × (read_uint32 (uint32_bytes n) ≡ some (n % 2 ^ 32))
uint32_bytes-read_uint32 n =
    ((omega arith, (omega arith, (omega arith, (omega arith, tt)))), ap some (omega arith))

take-length-append : (payload rest : Bytes) → take (length payload) (payload ++ rest) ≡ payload
take-length-append [] rest = refl
take-length-append (b ∷ payload) rest = ap (λ l. b ∷ l) (take-length-append payload rest)

-- A buffer that holds all of the payload that its header announces, and does not end the messages.
pub record IsWhole (buf payload : Bytes) : Type 0 where
  pub flag : ℕ
  pub kind : ℕ
  pub digits : ℕ × ℕ × ℕ × ℕ
  pub rest : Bytes
  pub unfinished : flag ≢ 1
  pub announced : sum_of digits.0 digits.1 digits.2 digits.3 ≡ length payload
  pub laid_out : buf ≡ flag ∷ kind ∷ digits.0 ∷ digits.1 ∷ digits.2 ∷ digits.3 ∷ payload ++ rest

module _ {M E : Type 0} (deserialize : Bytes → Result E M) where
  -- A buffer with a whole header.
  abbrev after_header : ℕ → Bytes → Result (ChannelError E) (List (Call M E))
  after_header size body =
      if ltb (suc (suc (suc (suc (suc (suc (length body))))))) (size + 6)
      then ok []
      else push_deserialized (deserialize (take size body))

  on_frame-header :
      (flag kind a b c d : ℕ) (body : Bytes)
      → on_frame deserialize (flag ∷ kind ∷ a ∷ b ∷ c ∷ d ∷ body)
        ≡ after_header (sum_of a b c d) body
  unfolding on_frame
  on_frame-header flag kind a b c d body =
      let g : ltb (suc (suc (suc (suc (suc (suc (length body))))))) 6 ≡ false =
        not_ltb _ 6 (omega arith) in
      rw g refl

  after_header-whole :
      (payload rest : Bytes)
      → after_header (length payload) (payload ++ rest) ≡ push_deserialized (deserialize payload)
  after_header-whole payload rest =
      let g : ltb (suc (suc (suc (suc (suc (suc (length (payload ++ rest))))))))
            (length payload + 6)
          ≡ false =
        not_ltb _ _ (omega (arith, length-append payload rest)) in
      rw g (rw (take-length-append payload rest) refl)

  on_frame-framed :
      (flag kind : ℕ) (payload rest : Bytes)
      → length payload < 2 ^ 32
      → on_frame deserialize (flag ∷ framed kind payload ++ rest)
        ≡ push_deserialized (deserialize payload)
  on_frame-framed flag kind payload rest h =
      let n : ℕ = length payload in
      on_frame-header flag kind (n / 2 ^ 24 % 256) (n / 2 ^ 16 % 256) (n / 2 ^ 8 % 256) (n % 256)
        (payload ++ rest)
      ∙ ap (λ size. after_header size (payload ++ rest)) (sum_of-digits n h)
      ∙ after_header-whole payload rest

  push_deserialized-ok :
      (r : Result E M) (m : M) → push_deserialized r ≡ ok (source_push m ∷ []) → r ≡ ok m
  unfolding push_deserialized
  push_deserialized-ok (err e) m h = cc
  push_deserialized-ok (ok n) m h = cc

  after_header-ok :
      (size : ℕ) (body : Bytes) (m : M)
      → after_header size body ≡ ok (source_push m ∷ [])
      → (size ≤ length body) × (deserialize (take size body) ≡ ok m)
  after_header-ok size body m h =
      elim (Bool-cases (ltb (suc (suc (suc (suc (suc (suc (length body))))))) (size + 6))) [
        | inl short ↦
            let g : Path (Result (ChannelError E) (List (Call M E))) (ok [])
                (ok (source_push m ∷ [])) =
              rw (short) at h in
            cc
        | inr long ↦ (ground arith, push_deserialized-ok _ m (rw (long) at h))
      ]

  on_frame-ok :
      (buf : Bytes) (m : M)
      → is_finish_send buf ≡ false
      → on_frame deserialize buf ≡ ok (source_push m ∷ [])
      → (payload : Bytes) × IsWhole buf payload × (deserialize payload ≡ ok m)
  unfolding on_frame
  on_frame-ok (flag ∷ kind ∷ a ∷ b ∷ c ∷ d ∷ body) m f h =
      let g : (sum_of a b c d ≤ length body) × (deserialize (take (sum_of a b c d) body) ≡ ok m) =
        after_header-ok (sum_of a b c d) body m
          (sym (on_frame-header flag kind a b c d body) ∙ h) in
      (
        take (sum_of a b c d) body,
        record {
          flag = flag;
          kind = kind;
          digits = (a, b, c, d);
          rest = drop (sum_of a b c d) body;
          unfinished = ground arith;
          announced = omega (arith, length-take (sum_of a b c d) body, g.0);
          laid_out =
              ap (λ l. flag ∷ kind ∷ a ∷ b ∷ c ∷ d ∷ l)
                (sym (take-append-drop (sum_of a b c d) body));
        },
        g.1,
      )
  on_frame-ok _ m f h = cc

  -- A message is pushed only if the buffer holds it whole: its flag is not the one that ends the
  -- messages, the four bytes of its header are the length of a payload that follows them within the
  -- buffer, and the message is what the handler makes of that payload.
  pub on_message-IsWhole :
      (arrived : SocketData) (m : M)
      → on_message deserialize arrived ≡ ok (source_push m ∷ [])
      → (buf : Bytes) × (payload : Bytes) × (arrived ≡ bytes buf)
        × IsWhole buf payload
        × (deserialize payload ≡ ok m)
  unfolding on_message
  on_message-IsWhole (other type) m h = cc
  on_message-IsWhole (bytes buf) m h = elim (Bool-cases (is_finish_send buf)) [
    | inl f ↦
        let g : Path (Result (ChannelError E) (List (Call M E))) (ok (source_end none ∷ []))
            (ok (source_push m ∷ [])) =
          rw (f) at h in
        cc
    | inr f ↦ let (payload, w, e) = on_frame-ok buf m f (rw (f) at h) in (buf, payload, refl, w, e)
  ]

module _ {M E R V : Type 0} (to_headers : List (JsString × HeaderValue V) → Bytes)
    (number : ℕ → V) where
  -- When a handler reads a message from what it wrote for it, in fewer than 2 ^ 32 bytes, then the
  -- frame that is sent for the message, after the flag that starts a message and with any bytes
  -- behind it, makes the channel that receives it push exactly that message.
  pub on_message-send_message :
      (serialize : R → Result E Bytes) (deserialize : Bytes → Result E M) (x : R) (m : M)
      (payload rest : Bytes)
      → serialize x ≡ ok payload
      → deserialize payload ≡ ok m
      → length payload < 2 ^ 32
      → (frame : Bytes) × (calls : List (Call M E)) × (send_message to_headers number serialize x
          ≡ ok (send frame ∷ calls))
        × (on_message deserialize (bytes (0 ∷ frame ++ rest)) ≡ ok (source_push m ∷ []))
  unfolding send_message on_message push_deserialized
  on_message-send_message serialize deserialize x m payload rest s d h = (
    framed 0 payload,
    send_trailer to_headers number none,
    rw s refl,
    on_frame-framed deserialize 0 0 payload rest h ∙ ap push_deserialized d,
  )
