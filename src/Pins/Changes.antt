-- ===== src/Pins/Changes.antt =====
-- What `addAll` and `rmAll` do to the pins, also when they end in an error.
use mathlib.Core.Path.{ap, sym, subst}
use js_ipfs.Prelude.{
  ◌≡◌, ◌≢◌, refl, Bool, true, false, Option, none, some, List, [], ◌∷◌, ◌++◌, map, Option-cases,
  inl, inr, ◌⊎◌,
}
use js_ipfs.Pins.{
  Reason, recursive, direct, indirect, not_pinned, PinStore, Changed, rm_one, rm_all, add_one,
  add_all,
}

-- What the package ipfs-repo promises of `pinRecursively` and `pinDirectly`.
pub record IsPinStore {C : Type 0} (pins : PinStore C) : Type 0 where
  pub reason-pin_recursively :
      (c d : C) (s : pins.State)
      → pins.reason d s ≡ recursive
      → pins.reason d (pins.pin_recursively c s) ≡ recursive
  pub reason-pin_directly :
      (c d : C) (s : pins.State)
      → pins.reason d s ≡ recursive
      → (pins.reason d (pins.pin_directly c s) ≡ recursive) ⊎ (c ≡ d)

module _ {C : Type 0} (pins : PinStore C) where
  abbrev pub unpinned : List C → pins.State → pins.State
  unpinned [] s = s
  unpinned (c ∷ cs) s = unpinned cs (pins.unpin c s)

  -- A pin that may be taken away: a direct one, or a recursive one when that is asked for.
  abbrev pub IsRemovable : Reason C → Bool → Type 0
  IsRemovable direct deep = Unit
  IsRemovable recursive deep = deep ≡ true
  IsRemovable not_pinned deep = ⊥
  IsRemovable (indirect d) deep = ⊥

  -- The inputs are resolved, and each is removable when those in front of it are unpinned.
  abbrev pub AreRemovable : List (Option C × Bool) → pins.State → Type 0
  AreRemovable [] s = Unit
  AreRemovable ((none, deep) ∷ ps) s = ⊥
  AreRemovable ((some c, deep) ∷ ps) s =
      IsRemovable (pins.reason c s) deep × AreRemovable ps (pins.unpin c s)

  -- The first input is one that is not resolved or not removable.
  abbrev pub IsRefused : List (Option C × Bool) → pins.State → Type 0
  IsRefused [] s = ⊥
  IsRefused ((none, deep) ∷ ps) s = Unit
  IsRefused ((some c, deep) ∷ ps) s = IsRemovable (pins.reason c s) deep → ⊥

  abbrev pub IsStop : Bool → List (Option C × Bool) → pins.State → Type 0
  IsStop false rest s = rest ≡ []
  IsStop true rest s = IsRefused rest s

  -- The CIDs that are yielded are those of the inputs up to the one that is refused.
  pub record IsRemoval (ps : List (Option C × Bool)) (s : pins.State) (r : Changed C pins.State)
      : Type 0 where
    pub removed : List (Option C × Bool)
    pub rest : List (Option C × Bool)
    pub split : ps ≡ removed ++ rest
    pub removable : AreRemovable removed s
    pub yielded : map (λ (p : Option C × Bool). p.0) removed ≡ map some r.cids
    pub left : r.state ≡ unpinned r.cids s
    pub stop : IsStop r.thrown rest r.state

  -- A round of `rmAll` unpins what is removable, and nothing else.
  data Round (r : Reason C) (c : C) (deep : Bool) (s : pins.State) : Type 0 where
    unpins : IsRemovable r deep → rm_one pins r c deep s ≡ some (pins.unpin c s) → Round r c deep s
    refuses : (IsRemovable r deep → ⊥) → rm_one pins r c deep s ≡ none → Round r c deep s

  rm_one-Round : (r : Reason C) (c : C) (deep : Bool) (s : pins.State) → Round r c deep s
  unfolding rm_one
  rm_one-Round not_pinned c deep s = refuses (λ h. h) refl
  rm_one-Round recursive c true s = unpins refl refl
  rm_one-Round recursive c false s = refuses (λ h. cc) refl
  rm_one-Round direct c deep s = unpins tt refl
  rm_one-Round (indirect d) c deep s = refuses (λ h. h) refl

  -- `rmAll` unpins and yields the CIDs of its inputs in order, each of them resolved and, when those in
  -- front of it are unpinned, pinned directly, or recursively with the option for it; it stops
  -- without an error when that are all inputs, and else with an error at the first one that is
  -- not resolved, not pinned, pinned indirectly, or pinned recursively without the option. The pins
  -- it leaves are those it found with the yielded CIDs unpinned.
  pub rm_all-unpinned :
      (ps : List (Option C × Bool)) (s : pins.State) → IsRemoval ps s (rm_all pins ps s)
  unfolding rm_all
  rm_all-unpinned [] s = record {
    removed = [];
    rest = [];
    split = refl;
    removable = tt;
    yielded = refl;
    left = refl;
    stop = refl;
  }
  rm_all-unpinned ((none, deep) ∷ ps) s = record {
    removed = [];
    rest = (none, deep) ∷ ps;
    split = refl;
    removable = tt;
    yielded = refl;
    left = refl;
    stop = tt;
  }
  rm_all-unpinned ((some c, deep) ∷ ps) s = elim (rm_one-Round (pins.reason c s) c deep s) [
    | refuses h fails ↦
        rw (fails, rm_all)
          (record {
            removed = [];
            rest = (some c, deep) ∷ ps;
            split = refl;
            removable = tt;
            yielded = refl;
            left = refl;
            stop = h;
          })
    | unpins h done ↦
        let r = rm_all-unpinned ps (pins.unpin c s) in
        rw (done, rm_all)
          (record {
            removed = (some c, deep) ∷ r.removed;
            rest = r.rest;
            split = ap (λ l. (some c, deep) ∷ l) r.split;
            removable = (h, r.removable);
            yielded = ap (λ l. some c ∷ l) r.yielded;
            left = r.left;
            stop = r.stop;
          })
  ]

  add_one_deep :
      (r : Reason C) (c : C) (s t : pins.State)
      → add_one pins r c true s ≡ some t
      → pins.pin_recursively c s ≡ t
  unfolding add_one
  add_one_deep recursive c s t e = cc
  add_one_deep direct c s t e = cc
  add_one_deep not_pinned c s t e = cc
  add_one_deep (indirect d) c s t e = cc

  add_one_direct :
      (r : Reason C) (c : C) (s t : pins.State)
      → add_one pins r c false s ≡ some t
      → (pins.pin_directly c s ≡ t) × (r ≢ recursive)
  unfolding add_one
  add_one_direct recursive c s t e = cc
  add_one_direct direct c s t e = (cc, λ q. cc)
  add_one_direct not_pinned c s t e = (cc, λ q. cc)
  add_one_direct (indirect d) c s t e = (cc, λ q. cc)

  module _ (law : IsPinStore pins) where
    add_one-recursive :
        (c d : C) (deep : Bool) (s t : pins.State)
        → add_one pins (pins.reason c s) c deep s ≡ some t
        → pins.reason d s ≡ recursive
        → pins.reason d t ≡ recursive
    unfolding add_one
    add_one-recursive c d true s t e h =
        subst (λ u. pins.reason d u ≡ recursive) (add_one_deep (pins.reason c s) c s t e)
          (law.reason-pin_recursively c d s h)
    add_one-recursive c d false s t e h =
        let (q, fresh) = add_one_direct (pins.reason c s) c s t e in
        elim (law.reason-pin_directly c d s h) [
          | inl kept ↦ subst (λ u. pins.reason d u ≡ recursive) q kept
          | inr same ↦ absurd (fresh (subst (λ x. pins.reason x s ≡ recursive) (sym same) h))
        ]

    -- A recursive pin stays one, whatever is added and however `addAll` ends.
    pub add_all-recursive :
        (ps : List (Option C × Bool)) (s : pins.State) (d : C)
        → pins.reason d s ≡ recursive
        → pins.reason d (add_all pins ps s).state ≡ recursive
    unfolding add_all
    add_all-recursive [] s d h = h
    add_all-recursive ((none, deep) ∷ ps) s d h = h
    add_all-recursive ((some c, deep) ∷ ps) s d h =
        elim (Option-cases (add_one pins (pins.reason c s) c deep s)) [
          | inl fails ↦ rw (fails, add_all) h
          | inr (t, done) ↦
              rw (done, add_all) (add_all-recursive ps t d (add_one-recursive c d deep s t done h))
        ]
