-- ===== src/Pins.antt =====
-- packages/ipfs-core-utils/src/pins/normalise-input.js, and packages/ipfs-core/src/components/pin:
-- add-all.js and rm-all.js. The pins are kept by the package ipfs-repo, an interface here.
pub mod Forms
pub mod Changes
mod Tests
use js_ipfs.Prelude.{
  ℕ, Bool, true, false, ◌&&◌, ◌||◌, not, Option, none, some, List, [], ◌∷◌, ◌++◌, ◌==◌, JsString,
  codes, string_eq, if◌then◌else◌, or_else, is_some, Result, ok, err,
}

module _ (C M : Type 0) where
  -- A value that can be given: a CID, a text, an object with some of the four fields, or anything
  -- else.
  pub data Item : Type 0 where
    a_cid : C → Item
    a_text : JsString → Item
    an_object : Option C → Option JsString → Option Bool → Option M → Item
    strange : Item

  pub data Input : Type 0 where
    nothing : Input
    single : Item → Input
    iterable : List Item → Input
    async_iterable : List Item → Input

  pub data PinPath : Type 0 where
    raw : Item → PinPath
    text : JsString → PinPath

  -- `Pin`
  pub record Pin : Type 0 where
    pub path : PinPath
    pub recursive : Bool
    pub metadata : Option M

  -- What a generator yields, and whether it throws at the end.
  pub record Yielded : Type 0 where
    pub pins : List Pin
    pub thrown : Bool

  -- An empty text is false as a condition.
  pub is_truthy : Item → Bool
  is_truthy (a_text s) = not (s == [])
  is_truthy i = true

  -- `toPin`, of the fields that the callers set: `none` is its error.
  pub to_pin : Option Item → Option JsString → Option Bool → Option M → Option Pin
  to_pin cid path recursive metadata =
      let written = or_else path (codes "undefined") in
      let pin : PinPath → Option Pin =
        λ p. some (record { path = p; recursive = or_else recursive true; metadata = metadata }) in
      let from_path = if written == [] then none else pin (text written) in
      elim cid [ none ↦ from_path | some c ↦ if is_truthy c then pin (raw c) else from_path ]

  -- The pins of a loop, up to the first that throws.
  pub each_pin : (Item → Option Pin) → List Item → Yielded
  each_pin make [] = record { pins = []; thrown = false }
  each_pin make (i ∷ is) =
      let rest = each_pin make is in
      elim (make i) [
        | none ↦ record { pins = []; thrown = true }
        | some p ↦ record { pins = p ∷ rest.pins; thrown = rest.thrown }
      ]

  module _ (to_text : Item → JsString) where
    -- `toPin({ cid })`, `toPin({ path })` and `toPin(obj)`.
    pub cid_pin : Item → Option Pin
    unfolding to_pin is_truthy
    cid_pin i = to_pin (some i) none none none

    pub path_pin : Item → Option Pin
    unfolding to_pin
    path_pin i = to_pin none (some (to_text i)) none none

    pub object_pin : Item → Option Pin
    unfolding to_pin is_truthy
    object_pin (an_object none path recursive metadata) = to_pin none path recursive metadata
    object_pin (an_object (some c) path recursive metadata) =
        to_pin (some (a_cid c)) path recursive metadata
    object_pin i = to_pin none none none none

    abbrev pub thrown_at_once : Yielded
    thrown_at_once = record { pins = []; thrown = true }

    -- `Iterable<?>` and `AsyncIterable<?>`: the first item decides how all are read.
    pub normalise_items : List Item → Yielded
    unfolding each_pin cid_pin path_pin object_pin
    normalise_items [] = record { pins = []; thrown = false }
    normalise_items (a_cid c ∷ is) = each_pin cid_pin (a_cid c ∷ is)
    normalise_items (a_text s ∷ is) = each_pin path_pin (a_text s ∷ is)
    normalise_items (an_object cid path recursive metadata ∷ is) =
        if is_some cid || is_some path
        then each_pin object_pin (an_object cid path recursive metadata ∷ is)
        else thrown_at_once
    normalise_items (strange ∷ is) = thrown_at_once

    abbrev one : Option Pin → Yielded
    one none = thrown_at_once
    one (some p) = record { pins = p ∷ []; thrown = false }

    -- `normaliseInput`
    pub normalise_input : Input → Yielded
    unfolding normalise_items cid_pin path_pin object_pin
    normalise_input nothing = thrown_at_once
    normalise_input (single (a_cid c)) = one (cid_pin (a_cid c))
    normalise_input (single (a_text s)) = one (path_pin (a_text s))
    normalise_input (single (an_object cid path recursive metadata)) =
        if is_some cid || is_some path
        then one (object_pin (an_object cid path recursive metadata))
        else thrown_at_once
    normalise_input (single strange) = thrown_at_once
    normalise_input (iterable is) = normalise_items is
    normalise_input (async_iterable is) = normalise_items is

-- Why a CID is pinned, as `isPinnedWithType` tells.
pub data Reason (C : Type 0) : Type 0 where
  recursive direct not_pinned : Reason C
  indirect : C → Reason C

-- `repo.pins`
pub record PinStore (C : Type 0) : Type 1 where
  pub State : Type 0
  pub reason : C → State → Reason C
  pub pin_recursively : C → State → State
  pub pin_directly : C → State → State
  pub unpin : C → State → State

-- What a generator of CIDs has yielded and left, and whether it threw.
pub record Changed (C S : Type 0) : Type 0 where
  pub cids : List C
  pub state : S
  pub thrown : Bool

module _ {C : Type 0} (pins : PinStore C) where
  -- One round of `rmAll`, on a resolved CID: the pins behind it, or an error.
  pub rm_one : Reason C → C → Bool → pins.State → Option pins.State
  rm_one not_pinned c deep s = none
  rm_one recursive c deep s = if deep then some (pins.unpin c s) else none
  rm_one direct c deep s = some (pins.unpin c s)
  rm_one (indirect d) c deep s = none

  -- `rmAll`, on the CIDs that the pins resolve to; `none` is an error of the resolution.
  pub rm_all : List (Option C × Bool) → pins.State → Changed C pins.State
  unfolding rm_one
  rm_all [] s = record { cids = []; state = s; thrown = false }
  rm_all ((none, deep) ∷ ps) s = record { cids = []; state = s; thrown = true }
  rm_all ((some c, deep) ∷ ps) s = elim (rm_one (pins.reason c s) c deep s) [
    | none ↦ record { cids = []; state = s; thrown = true }
    | some t ↦
        let rest = rm_all ps t in
        record { cids = c ∷ rest.cids; state = rest.state; thrown = rest.thrown }
  ]

  -- One round of `addAll`.
  pub add_one : Reason C → C → Bool → pins.State → Option pins.State
  add_one r c true s = some (pins.pin_recursively c s)
  add_one recursive c false s = none
  add_one r c false s = some (pins.pin_directly c s)

  -- `addAll`
  pub add_all : List (Option C × Bool) → pins.State → Changed C pins.State
  unfolding add_one
  add_all [] s = record { cids = []; state = s; thrown = false }
  add_all ((none, deep) ∷ ps) s = record { cids = []; state = s; thrown = true }
  add_all ((some c, deep) ∷ ps) s = elim (add_one (pins.reason c s) c deep s) [
    | none ↦ record { cids = []; state = s; thrown = true }
    | some t ↦
        let rest = add_all ps t in
        record { cids = c ∷ rest.cids; state = rest.state; thrown = rest.thrown }
  ]
