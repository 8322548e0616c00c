-- ===== src/Port/Iterable.antt =====
-- packages/ipfs-message-port-protocol/src: the iterables of core.js and the errors of error.js. An
-- iterator is the list of what it gives and the error that it throws behind that, if any.
pub mod Delivery
mod Tests
use js_ipfs.Prelude.{
  ℕ, ◌+◌, ◌-◌, Bool, true, false, not, Option, none, some, List, [], ◌∷◌, JsString, if◌then◌else◌,
  Result, ok, err, zero, suc, nat_beq,
}

pub record ErrorData : Type 0 where
  pub name : JsString
  pub message : JsString
  pub stack : Option JsString
  pub code : Option JsString
  pub detail : Option JsString

-- `encodeError`
abbrev pub encode_error : ErrorData → ErrorData
encode_error e = record {
  name = e.name;
  message = e.message;
  stack = e.stack;
  code = e.code;
  detail = e.detail;
}

-- `decodeError`; the name that is assigned behind `createError` is the encoded one.
abbrev pub decode_error : ErrorData → ErrorData
decode_error e = record {
  name = e.name;
  message = e.message;
  stack = e.stack;
  code = e.code;
  detail = none;
}

-- A message of the server; `done` and `value` are `none` where they are undefined or null.
pub record RemoteNext (B : Type 0) : Type 0 where
  pub done : Option Bool
  pub value : Option B
  pub error : Option ErrorData

-- The iterator of the server and its end of the channel; `returns` counts the calls of
-- `iterator.return`, which not every iterator has.
pub record Server (A : Type 0) : Type 0 where
  pub items : List A
  pub throws : Option ErrorData
  pub has_return : Bool
  pub closed : Bool
  pub returns : ℕ

-- What the consumer of the client got, and the server behind that; `waits` tells that it waits for an
-- answer that does not come.
pub record Delivered (A C : Type 0) : Type 0 where
  pub values : List C
  pub error : Option ErrorData
  pub waits : Bool
  pub port_closed : Bool
  pub server : Server A

abbrev pub is_done : Option Bool → Bool
is_done none = false
is_done (some d) = d

module _ {A B C : Type 0} (encode : A → Result ErrorData (Option B)) (decode : B → C) where
  abbrev pub answer :
      RemoteNext B → Bool → List A → Option ErrorData → Server A → Server A × Option (RemoteNext B)
  answer r closes items throws s =
      (record s { items = items; throws = throws; closed = closes }, some r)

  abbrev pub thrown : ErrorData → RemoteNext B
  thrown e = record { done = none; value = none; error = some (encode_error e) }

  -- The case `next` of the handler in `encodeIterable`.
  pub next_item : Server A → Server A × Option (RemoteNext B)
  next_item s = elim s.items [
    | [] ↦ elim s.throws [
      | none ↦ answer (record { done = some true; value = none; error = none }) true [] none s
      | some e ↦ answer (thrown e) true [] none s
    ]
    | a ∷ items ↦ elim (encode a) [
      | err e ↦ answer (thrown e) true items s.throws s
      | ok b ↦ answer (record { done = some false; value = b; error = none }) false items s.throws s
    ]
  ]

  -- A closed port gets no messages.
  pub serve_next : Server A → Server A × Option (RemoteNext B)
  unfolding next_item
  serve_next s = if s.closed then (s, none) else next_item s

  -- The case `return`.
  pub serve_return : Server A → Server A
  serve_return s =
      if s.closed
      then s
      else record s { closed = true; returns = if s.has_return then s.returns + 1 else s.returns }

  -- The block `finally` of `decodeIterable`.
  pub finish : Bool → Option ErrorData → Server A → Delivered A C
  unfolding serve_return
  finish done error s = record {
    values = [];
    error = error;
    waits = false;
    port_closed = true;
    server = if done then s else serve_return s;
  }

  abbrev pub with_value : C → Delivered A C → Delivered A C
  with_value c d = record d { values = c ∷ d.values }

  abbrev pub with_some : C → Option (Delivered A C) → Option (Delivered A C)
  with_some c none = none
  with_some c (some d) = some (with_value c d)

  -- A round of the loop of `decodeIterable` behind the answer, for a consumer that stops behind the
  -- value number `demand`, which is not 0; `rounds` are the rounds that follow.
  pub round :
      ℕ
      → (ℕ → Server A → Option (Delivered A C))
      → Server A × Option (RemoteNext B)
      → Option (Delivered A C)
  unfolding finish
  round demand rounds (t, none) =
      some (record (finish true none t) { waits = true; port_closed = false })
  round demand rounds (t, some r) = elim r.error [
    | some e ↦ some (finish (is_done r.done) (some (decode_error e)) t)
    | none ↦ elim r.value [
      | some b ↦ with_some (decode b) (
          if nat_beq demand 1
          then some (finish (is_done r.done) none t)
          else if is_done r.done
          then some (finish true none t)
          else rounds (demand - 1) t)
      | none ↦ if is_done r.done then some (finish true none t) else rounds demand t
    ]
  ]

  -- `decodeIterable` for such a consumer; `none` when the fuel has run out.
  pub consume : ℕ → ℕ → Server A → Option (Delivered A C)
  unfolding serve_next round
  consume zero demand s = none
  consume (suc fuel) demand s = round demand (consume fuel) (serve_next s)
