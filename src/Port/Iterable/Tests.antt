-- ===== src/Port/Iterable/Tests.antt =====
-- An iterable over a port.
use js_ipfs.Prelude.{
  refl, ℕ, true, false, none, some, Option, [], ◌∷◌, ok, codes, nat_beq, if◌then◌else◌, arith,
}
use js_ipfs.Port.Iterable.{ErrorData, consume}
use js_ipfs.Port.Iterable.Delivery.{Delivers, consume-Delivers}

abbrev fault : ErrorData
fault = record {
  name = codes "Error";
  message = codes "lost";
  stack = none;
  code = some (codes "ERR_LOST");
  detail = some (codes "x");
}

-- Zero is encoded as null.
abbrev encoded : ℕ → Option ℕ
encoded n = if nat_beq n 0 then none else some n

consume-Delivers_example : Delivers 2 (7 ∷ 8 ∷ 9 ∷ []) (some fault) true 0 (
    consume
      (λ n. ok (encoded n))
      (λ b. b)
      5
      2
      (record {
        items = 7 ∷ 0 ∷ 8 ∷ 9 ∷ [];
        throws = some fault;
        has_return = true;
        closed = false;
        returns = 0;
      }))
consume-Delivers_example =
    consume-Delivers (λ n. ok (encoded n)) (λ b. b) encoded (λ a. refl) (7 ∷ 0 ∷ 8 ∷ 9 ∷ [])
      (some fault) true 0 1 5 (omega arith)
