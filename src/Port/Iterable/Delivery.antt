-- ===== src/Port/Iterable/Delivery.antt =====
-- What a consumer gets of an iterable that is sent over a port.
use js_ipfs.Prelude.{
  ◌≡◌, refl, ◌∙◌, ap, ℕ, ◌+◌, ◌-◌, ◌<◌, Bool, true, false, ◌&&◌, Option, none, some, List, [], ◌∷◌,
  if◌then◌else◌, Result, ok, zero, suc, nat_beq, take, length, leb, arith, Option-cases, inl, inr,
}
use js_ipfs.Port.Iterable.{
  ErrorData, decode_error, Server, Delivered, next_item, serve_next, serve_return, finish, consume,
  with_some, with_value, round,
}

-- The values of the items whose encoding is not null.
abbrev pub sent : {A B C : Type 0} → (A → Option B) → (B → C) → List A → List C
sent f decode [] = []
sent f decode (a ∷ items) = elim (f a) [
  | none ↦ sent f decode items
  | some b ↦ decode b ∷ sent f decode items
]

abbrev pub received : Option ErrorData → Option ErrorData
received none = none
received (some e) = some (decode_error e)

module _ {A C : Type 0} where
  -- The consumer gets the values up to its demand, and the error if it asks for more than those; the
  -- iterator is returned when the consumer stops before its end, and both ports are closed.
  abbrev pub Delivers : ℕ → List C → Option ErrorData → Bool → ℕ → Option (Delivered A C) → Type 0
  Delivers demand values throws has_return returns r =
      (d : Delivered A C) × (r ≡ some d)
      × (d.values ≡ take demand values)
      × (d.error ≡ (if leb demand (length values) then none else received throws))
      × (d.waits ≡ false)
      × (d.port_closed ≡ true)
      × (d.server.closed ≡ true)
      × (d.server.returns
          ≡ (if leb demand (length values) && has_return then returns + 1 else returns))

module _ {A B C : Type 0} (encode : A → Result ErrorData (Option B)) (decode : B → C)
    (f : A → Option B) (encodes : (a : A) → encode a ≡ ok (f a)) where
  abbrev pub serving : List A → Option ErrorData → Bool → ℕ → Server A
  serving items throws has_return returns = record {
    items = items;
    throws = throws;
    has_return = has_return;
    closed = false;
    returns = returns;
  }

  sent-null :
      (a : A) (items : List A) → f a ≡ none → sent f decode (a ∷ items) ≡ sent f decode items
  sent-null a items null = rw (null, sent) refl

  sent-value :
      (a : A) (b : B) (items : List A)
      → f a ≡ some b
      → sent f decode (a ∷ items) ≡ decode b ∷ sent f decode items
  sent-value a b items value = rw (value, sent) refl

  serve_next-item :
      (a : A) (items : List A) (throws : Option ErrorData) (has_return : Bool) (returns : ℕ)
      → serve_next encode decode (serving (a ∷ items) throws has_return returns) ≡ (
        serving items throws has_return returns,
        some (record { done = some false; value = f a; error = none }),
      )
  unfolding serve_next next_item
  serve_next-item a items throws has_return returns = rw (encodes a) refl

  consume-null :
      (a : A) (items : List A) (throws : Option ErrorData) (has_return : Bool)
      (returns demand fuel : ℕ)
      → f a ≡ none
      → consume encode decode (suc fuel) demand (serving (a ∷ items) throws has_return returns)
        ≡ consume encode decode fuel demand (serving items throws has_return returns)
  unfolding consume round
  consume-null a items throws has_return returns demand fuel null =
      ap (round encode decode demand (consume encode decode fuel))
        (serve_next-item a items throws has_return returns)
      ∙ (rw null refl)

  consume-value :
      (a : A) (b : B) (items : List A) (throws : Option ErrorData) (has_return : Bool)
      (returns demand fuel : ℕ)
      → f a ≡ some b
      → consume encode decode (suc fuel) demand (serving (a ∷ items) throws has_return returns)
        ≡ with_some encode decode (decode b) (
            if nat_beq demand 1
            then some (finish encode decode false none (serving items throws has_return returns))
            else consume encode decode fuel (demand - 1) (serving items throws has_return returns))
  unfolding consume round
  consume-value a b items throws has_return returns demand fuel value =
      ap (round encode decode demand (consume encode decode fuel))
        (serve_next-item a items throws has_return returns)
      ∙ (rw value refl)

  consume-end :
      (throws : Option ErrorData) (has_return : Bool) (returns demand fuel : ℕ)
      → Delivers
          (suc demand)
          []
          throws
          has_return
          returns
          (consume encode decode (suc fuel) (suc demand) (serving [] throws has_return returns))
  unfolding consume round serve_next next_item finish serve_return
  consume-end none has_return returns demand fuel =
      (_, refl, refl, ground arith, refl, refl, refl, ground arith)
  consume-end (some e) has_return returns demand fuel =
      (_, refl, refl, ground arith, refl, refl, refl, ground arith)

  -- One more value in front.
  Delivers-with_some :
      (c : C) (values : List C) (throws : Option ErrorData) (has_return : Bool) (returns demand : ℕ)
      (r : Option (Delivered A C))
      → Delivers (suc demand) values throws has_return returns r
      → Delivers
          (suc (suc demand))
          (c ∷ values)
          throws
          has_return
          returns
          (with_some encode decode c r)
  Delivers-with_some c values throws has_return returns demand r
        (d, e, vs, error, waits, closes, ended, returned) =
      (
        with_value encode decode c d,
        rw e refl,
        ap (λ xs. c ∷ xs) vs,
        error ∙ ground arith,
        waits,
        closes,
        ended,
        returned ∙ ground arith,
      )

  consume-rest :
      (b : B) (items : List A) (throws : Option ErrorData) (has_return : Bool)
      (returns demand fuel : ℕ)
      → ((d : ℕ)
          → Delivers
              (suc d)
              (sent f decode items)
              throws
              has_return
              returns
              (consume encode decode fuel (suc d) (serving items throws has_return returns)))
      → Delivers (suc demand) (decode b ∷ sent f decode items) throws has_return returns (
          with_some encode decode (decode b) (
            if nat_beq (suc demand) 1
            then some (finish encode decode false none (serving items throws has_return returns))
            else consume encode decode fuel
                (suc demand - 1)
                (serving items throws has_return returns)))
  unfolding finish serve_return
  consume-rest b items throws has_return returns zero fuel rest =
      (_, refl, refl, ground arith, refl, refl, refl, ground arith)
  consume-rest b items throws has_return returns (suc demand) fuel rest =
      let no : nat_beq (suc (suc demand)) 1 ≡ false = ground arith in
      let less : suc (suc demand) - 1 ≡ suc demand = omega arith in
      rw no (
        rw less (
          Delivers-with_some (decode b) (sent f decode items) throws has_return returns demand _
            (rest demand)))

  -- A consumer that stops behind its value number `demand` + 1 gets, of an iterable that is sent over a
  -- port with an encoding that does not throw, the values whose encodings are not null, in order and up
  -- to that number, and the decoded error only if it asks for more than those; the iterator is
  -- returned, if it can be, just when it gets its last value, and both ports end up closed. More rounds
  -- than there are items are enough.
  pub consume-Delivers :
      (items : List A) (throws : Option ErrorData) (has_return : Bool) (returns demand fuel : ℕ)
      → length items < fuel
      → Delivers
          (suc demand)
          (sent f decode items)
          throws
          has_return
          returns
          (consume encode decode fuel (suc demand) (serving items throws has_return returns))
  consume-Delivers items throws has_return returns demand zero l = absurd (omega arith)
  consume-Delivers [] throws has_return returns demand (suc fuel) l =
      consume-end throws has_return returns demand fuel
  consume-Delivers (a ∷ items) throws has_return returns demand (suc fuel) l =
      let shorter : length items < fuel = omega arith in
      elim (Option-cases (f a)) [
        | inl null ↦ rw (consume-null a items throws has_return returns (suc demand) fuel null) (
            rw (sent-null a items null)
              (consume-Delivers items throws has_return returns demand fuel shorter))
        | inr (b, value) ↦
            rw (consume-value a b items throws has_return returns (suc demand) fuel value) (
              rw (sent-value a b items value) (
                consume-rest b items throws has_return returns demand fuel
                  (λ d. consume-Delivers items throws has_return returns d fuel shorter)))
      ]
