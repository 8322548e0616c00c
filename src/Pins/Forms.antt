-- ===== src/Pins/Forms.antt =====
-- The forms of input that `normaliseInput` takes.
use mathlib.Core.Path.{ap}
use js_ipfs.Prelude.{
  ◌≡◌, refl, true, ◌||◌, Option, [], ◌∷◌, JsString, if◌then◌else◌, is_some, Option-cases, inl, inr,
  string_eq,
}
use js_ipfs.Pins.{
  Item, a_cid, a_text, an_object, strange, single, iterable, async_iterable, Pin, each_pin, cid_pin,
  path_pin, object_pin, normalise_items, normalise_input, one,
}

module _ {C M : Type 0} (to_text : Item C M → JsString) where
  each_pin-one :
      (make : Item C M → Option (Pin C M)) (i : Item C M)
      → each_pin C M make (i ∷ []) ≡ one C M to_text (make i)
  unfolding each_pin
  each_pin-one make i = elim (Option-cases (make i)) [
    | inl fails ↦ rw (fails, each_pin) refl
    | inr (p, made) ↦ rw (made, each_pin) refl
  ]

  -- A single value is read as the list of that value alone, and as the async list of it.
  pub normalise_input-single :
      (i : Item C M)
      → (normalise_input C M to_text (iterable (i ∷ [])) ≡ normalise_input C M to_text (single i))
        × (normalise_input C M to_text (async_iterable (i ∷ []))
            ≡ normalise_input C M to_text (single i))
  unfolding normalise_input normalise_items
  normalise_input-single (a_cid c) =
      (each_pin-one (cid_pin C M to_text) (a_cid c), each_pin-one (cid_pin C M to_text) (a_cid c))
  normalise_input-single (a_text s) = (
    each_pin-one (path_pin C M to_text) (a_text s),
    each_pin-one (path_pin C M to_text) (a_text s),
  )
  normalise_input-single strange = (refl, refl)
  normalise_input-single (an_object cid path recursive metadata) =
      let o : Item C M = an_object cid path recursive metadata in
      let e = each_pin-one (object_pin C M to_text) o in
      (
        ap (λ y. if is_some cid || is_some path then y else record { pins = []; thrown = true }) e,
        ap (λ y. if is_some cid || is_some path then y else record { pins = []; thrown = true }) e,
      )
