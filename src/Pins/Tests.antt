-- ===== src/Pins/Tests.antt =====
-- Runs on pins that are kept in an association list.
use js_ipfs.Prelude.{
  ◌≡◌, refl, Bool, true, false, Option, none, some, List, [], ◌∷◌, JsString, codes, ℕ, nat_eq,
  string_eq, lookup, insert, erase, lookup-insert, inl, inr, Bool-cases, ◌==◌, if◌then◌else◌,
}
use js_ipfs.Pins.{Item, a_cid, Reason, recursive, direct, not_pinned, PinStore, rm_all, add_all}
use js_ipfs.Pins.Changes.{IsPinStore, IsRemoval, rm_all-unpinned, add_all-recursive}

abbrev told : Option (Reason ℕ) → Reason ℕ
told none = not_pinned
told (some r) = r

abbrev pins : PinStore ℕ
pins = record {
  State = List (ℕ × Reason ℕ);
  reason = λ c s. told (lookup c s);
  pin_recursively = λ c s. insert c recursive s;
  pin_directly = λ c s. insert c direct s;
  unpin = λ c s. erase c s;
}

told-insert :
    (c d : ℕ) (r : Reason ℕ) (s : List (ℕ × Reason ℕ))
    → told (lookup d (insert c r s)) ≡ (if c == d then r else told (lookup d s))
told-insert c d r s = elim (Bool-cases (c == d)) [
  | inl same ↦ rw (lookup-insert c d r s) (rw same refl)
  | inr other ↦ rw (lookup-insert c d r s) (rw other refl)
]

pins-IsPinStore : IsPinStore pins
pins-IsPinStore = record {
  reason-pin_recursively = λ c d s h. elim (Bool-cases (c == d)) [
    | inl same ↦ rw (told-insert c d recursive s) (rw same refl)
    | inr other ↦ rw (told-insert c d recursive s) (rw other h)
  ];
  reason-pin_directly = λ c d s h. elim (Bool-cases (c == d)) [
    | inl same ↦ inr ((nat_eq.beq_iff c d).0 same)
    | inr other ↦ inl (rw (told-insert c d direct s) (rw other h))
  ];
}

abbrev some_pins : pins.State
some_pins = (1, recursive) ∷ (2, direct) ∷ []

-- The first pin is removed, the second is not there.
stops : (rm_all pins ((some 1, true) ∷ (some 3, true) ∷ []) some_pins).cids ≡ 1 ∷ []
unfolding rm_all
stops = refl

abbrev inputs : List (Option ℕ × Bool)
inputs = (some 2, false) ∷ (some 1, false) ∷ []

rm_all-unpinned_example : IsRemoval pins inputs some_pins (rm_all pins inputs some_pins)
rm_all-unpinned_example = rm_all-unpinned pins inputs some_pins

add_all-recursive_example :
    pins.reason 1 (add_all pins ((some 2, true) ∷ (some 1, false) ∷ []) some_pins).state ≡ recursive
add_all-recursive_example =
    add_all-recursive pins pins-IsPinStore ((some 2, true) ∷ (some 1, false) ∷ []) some_pins 1 refl

abbrev written : Item ℕ ℕ → JsString
written i = codes "x"

abbrev given : Item ℕ ℕ
given = a_cid 7
