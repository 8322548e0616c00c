-- ===== src/Cache/Tlru/History.antt =====
-- A `TLRU` against the history of the calls made on it.
use mathlib.Core.Path.{sym, ap, ◌∙◌}
use js_ipfs.Prelude.{
  ℕ, ◌+◌, ◌≤◌, ◌≢◌, ◌↔◌, ◌≡◌, refl, ◌⊎◌, inl, inr, Bool, true, false, Option, none, some, List, [],
  ◌∷◌, arith, Eq, ◌==◌, if◌then◌else◌, Bool-cases, Option-cases,
}
use js_ipfs.Cache.{Lru, IsLru}
use js_ipfs.Cache.Tlru.{Entry, has_expired, get, set, Op, gets, asks, sets, removes, clears, apply}

pair-if :
    {V C : Type 0} (b : Bool) (v : V) (x y : C)
    → (if◌then◌else◌ {A = Option V × C} b (none, x) (some v, y)).0 ≡ (if b then none else some v)
pair-if true v x y = refl
pair-if false v x y = refl

value_of : {V : Type 0} {v w : V} → some v ≡ some w → v ≡ w
value_of p = cc

module _ {K V : Type 0} ⦃e : Eq K⦄ (l : Lru K (Entry V)) (law : IsLru l) where
  -- The calls that were made, the latest first, each with its time.
  abbrev pub History : Type 0
  History = List (ℕ × Op l)

  unfoldable pub run : History → l.Cache
  run [] = l.created
  run ((now, op) ∷ h) = apply l op now (run h)

  -- What was set last under a key, and not removed since.
  abbrev pub last_set : K → History → Option (Entry V)
  last_set k [] = none
  last_set k ((now, gets j) ∷ h) = last_set k h
  last_set k ((now, asks j) ∷ h) = last_set k h
  last_set k ((now, sets j v ttl) ∷ h) =
      if j == k then some (record { value = v; expire = now + ttl }) else last_set k h
  last_set k ((now, removes j) ∷ h) = if j == k then none else last_set k h
  last_set k ((now, clears) ∷ h) = none

  abbrev Holds : K → l.Cache → Option (Entry V) → Type 0
  Holds k s o = (l.peek k s ≡ none) ⊎ (l.peek k s ≡ o)

  Holds-touched :
      (j k : K) (s : l.Cache) (o : Option (Entry V)) → Holds j s o → Holds j (l.touched k s) o
  Holds-touched j k s o h = ground (arith, law.peek-touched j k s)

  Holds-remove :
      (j k : K) (s : l.Cache) (o : Option (Entry V)) → Holds j s o → Holds j (l.remove k s) o
  Holds-remove j k s o h = elim (Bool-cases (j == k)) [
    | inl same ↦ let q : j ≡ k = (e.beq_iff j k).0 same in rw q (inl (law.peek-remove_self k s))
    | inr other ↦ ground (arith, law.peek-remove j k s, e.beq_iff j k)
  ]

  Holds-get :
      (j k : K) (now : ℕ) (s : l.Cache) (o : Option (Entry V))
      → Holds j s o
      → Holds j (get l k now s).1 o
  unfolding get
  Holds-get j k now s o h = elim (Option-cases (l.peek k s)) [
    | inl missing ↦ rw (missing, get) (Holds-touched j k s o h)
    | inr (en, found) ↦ elim (Bool-cases (has_expired l en now)) [
      | inl late ↦
          rw (found, get) (rw late (Holds-remove j k (l.touched k s) o (Holds-touched j k s o h)))
      | inr fresh ↦ rw (found, get) (rw fresh (Holds-touched j k s o h))
    ]
  ]

  Holds-set :
      (j k : K) (en : Entry V) (s : l.Cache) (o : Option (Entry V))
      → Holds k s o
      → Holds k (l.set j en s) (if j == k then some en else o)
  Holds-set j k en s o h = elim (Bool-cases (j == k)) [
    | inl same ↦
        let q : j ≡ k = (e.beq_iff j k).0 same in rw same (rw q (inr (law.peek-set_self k en s)))
    | inr other ↦ rw other (ground (arith, law.peek-set k j en s, e.beq_iff j k))
  ]

  Holds-removed :
      (j k : K) (s : l.Cache) (o : Option (Entry V))
      → Holds k s o
      → Holds k (l.remove j s) (if j == k then none else o)
  Holds-removed j k s o h = elim (Bool-cases (j == k)) [
    | inl same ↦
        let q : j ≡ k = (e.beq_iff j k).0 same in rw same (rw q (inl (law.peek-remove_self k s)))
    | inr other ↦ rw other (Holds-remove k j s o h)
  ]

  run-Holds : (k : K) (h : History) → Holds k (run h) (last_set k h)
  unfolding run apply
  run-Holds k [] = inl (law.peek-created k)
  run-Holds k ((now, gets j) ∷ h) = Holds-get k j now (run h) (last_set k h) (run-Holds k h)
  run-Holds k ((now, asks j) ∷ h) = Holds-get k j now (run h) (last_set k h) (run-Holds k h)
  run-Holds k ((now, sets j v ttl) ∷ h) =
      Holds-set j k (record { value = v; expire = now + ttl }) (run h) (last_set k h)
        (run-Holds k h)
  run-Holds k ((now, removes j) ∷ h) = Holds-removed j k (run h) (last_set k h) (run-Holds k h)
  run-Holds k ((now, clears) ∷ h) = inl (law.peek-clear k (run h))

  -- The time at which the time to live runs out is not over; the time 0 stands for none.
  abbrev pub IsLive : ℕ → ℕ → Type 0
  IsLive expire now = (expire ≡ 0) ⊎ (now ≤ expire)

  IsLive-iff : (en : Entry V) (now : ℕ) → (has_expired l en now ≡ false) ↔ IsLive en.expire now
  IsLive-iff en now = ground arith

  some_not_none : {A : Type 0} (a : A) (o : Option A) → o ≡ some a → o ≢ none
  some_not_none a o p q = cc

  get-expired :
      (k : K) (now : ℕ) (s : l.Cache) (en : Entry V)
      → l.peek k s ≡ some en
      → (get l k now s).0 ≡ (if has_expired l en now then none else some en.value)
  unfolding get
  get-expired k now s en found = elim (Bool-cases (has_expired l en now)) [
    | inl late ↦ rw (found, get) (rw late refl)
    | inr fresh ↦ rw (found, get) (rw fresh refl)
  ]

  gives :
      (k : K) (now : ℕ) (h : History) (v : V)
      → (get l k now (run h)).0 ≡ some v
      → (l.peek k (run h) ≢ none)
        × ((en : Entry V) × (last_set k h ≡ some en) × (en.value ≡ v) × IsLive en.expire now)
  unfolding get
  gives k now h v g = elim (Option-cases (l.peek k (run h))) [
    | inl missing ↦ cc (rw (missing, get) at g)
    | inr (en, found) ↦
        let g' = sym (get-expired k now (run h) en found) ∙ g in
        elim (Bool-cases (has_expired l en now)) [
          | inl late ↦ cc (rw late at g')
          | inr fresh ↦ (
            some_not_none en (l.peek k (run h)) found,
            (
              en,
              ground (arith, run-Holds k h),
              value_of (rw fresh at g'),
              (IsLive-iff en now).0 fresh,
            ),
          )
        ]
  ]

  given :
      (k : K) (now : ℕ) (h : History) (v : V)
      → (l.peek k (run h) ≢ none)
        × ((en : Entry V) × (last_set k h ≡ some en) × (en.value ≡ v) × IsLive en.expire now)
      → (get l k now (run h)).0 ≡ some v
  given k now h v (there, (en, set_last, same, live)) =
      let found : l.peek k (run h) ≡ some en = ground (arith, run-Holds k h) in
      let fresh : has_expired l en now ≡ false = (IsLive-iff en now).1 live in
      get-expired k now (run h) en found
      ∙ ap (λ b. if b then none else some en.value) fresh
      ∙ ap some same

  -- After any history of calls, `get` returns a value exactly when the cache has not dropped the
  -- entry of the key and the value is the one that was set last under the key, not removed since,
  -- at a time to which the time to live adds up to the current time at least, or to 0.
  pub get-last_set :
      (k : K) (now : ℕ) (h : History) (v : V)
      → ((get l k now (run h)).0 ≡ some v) ↔ (
          (l.peek k (run h) ≢ none)
          × ((en : Entry V) × (last_set k h ≡ some en) × (en.value ≡ v) × IsLive en.expire now))
  get-last_set k now h v = (λ g. gives k now h v g, λ g. given k now h v g)

module _ {K V : Type 0} (l : Lru K (Entry V)) (law : IsLru l) where
  -- A value is given back until its time to live is over, and not afterwards; a value set to expire
  -- at time 0 is given back always.
  pub get-set :
      (k : K) (v : V) (ttl then' now : ℕ) (s : l.Cache)
      → (get l k now (set l k v ttl then' s)).0
        ≡ (if has_expired l (record { value = v; expire = then' + ttl }) now then none else some v)
  unfolding get set
  get-set k v ttl then' now s =
      rw (law.peek-set_self k (record { value = v; expire = then' + ttl }) s, get)
        (pair-if (has_expired l (record { value = v; expire = then' + ttl }) now) v
          (l.remove k (l.touched k (set l k v ttl then' s))) (l.touched k (set l k v ttl then' s)))
