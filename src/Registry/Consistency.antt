-- ===== src/Registry/Consistency.antt =====
-- The two tables of a registry hold the same things.
use js_ipfs.Prelude.{
  ◌≡◌, refl, ap, ◌∙◌, ok-injective, inl, inr, true, Option, none, some, arith, lookup, insert, Eq,
  ◌==◌, is_some, if◌then◌else◌, ok, lookup-insert, lookup-erase, Bool-cases, Result-cases,
}
use js_ipfs.Registry.{Tables, Key, a_name, a_code, add, remove, find_key, loaded, get, get_from}

module _ {T N C : Type 0} ⦃en : Eq N⦄ ⦃ec : Eq C⦄ (name : T → N) (code : T → C) where
  -- Whatever is found by a name has that name, and is found by its code; and the other way round.
  pub record IsConsistent (r : Tables T N C) : Type 0 where
    pub by_name_ok :
        (n : N) (t : T)
        → lookup n r.by_name ≡ some t
        → (name t ≡ n) × (lookup (code t) r.by_code ≡ some t)
    pub by_code_ok :
        (c : C) (t : T)
        → lookup c r.by_code ≡ some t
        → (code t ≡ c) × (lookup (name t) r.by_name ≡ some t)

  abbrev added : T → Tables T N C → Tables T N C
  added t r = record {
    by_name = insert (name t) t r.by_name;
    by_code = insert (code t) t r.by_code;
  }

  add-eq-ok :
      (t : T) (r r' : Tables T N C)
      → add name code t r ≡ ok r'
      → (lookup (name t) r.by_name ≡ none) × (lookup (code t) r.by_code ≡ none) × (r' ≡ added t r)
  unfolding add
  add-eq-ok t r r' e = ground arith

  -- After adding, the thing is found under its name and under its code, and every other name and
  -- code gives what it gave before.
  pub add-lookup :
      (t : T) (r r' : Tables T N C) (n : N) (c : C)
      → add name code t r ≡ ok r'
      → (lookup n r'.by_name ≡ (if name t == n then some t else lookup n r.by_name))
        × (lookup c r'.by_code ≡ (if code t == c then some t else lookup c r.by_code))
  add-lookup t r r' n c e =
      let (_, _, same) = add-eq-ok t r r' e in
      rw same (lookup-insert (name t) n t r.by_name, lookup-insert (code t) c t r.by_code)

  -- Adding keeps the two tables in agreement.
  pub add-IsConsistent :
      (t : T) (r r' : Tables T N C) → IsConsistent r → add name code t r ≡ ok r' → IsConsistent r'
  add-IsConsistent t r r' h e =
      let (new_name, new_code, same) = add-eq-ok t r r' e in
      rw same (record {
        by_name_ok = λ n u f. ground (
          arith,
          lookup-insert (name t) n t r.by_name,
          lookup-insert (code t) (code u) t r.by_code,
          en.beq_iff (name t) n,
          ec.beq_iff (code t) (code u),
          h.by_name_ok n u,
        );
        by_code_ok = λ c u f. ground (
          arith,
          lookup-insert (code t) c t r.by_code,
          lookup-insert (name t) (name u) t r.by_name,
          ec.beq_iff (code t) c,
          en.beq_iff (name t) (name u),
          h.by_code_ok c u,
        );
      })

  -- Removing what is registered keeps the two tables in agreement.
  pub remove-IsConsistent :
      (t : T) (r : Tables T N C)
      → IsConsistent r
      → lookup (name t) r.by_name ≡ some t
      → IsConsistent (remove name code t r)
  unfolding remove
  remove-IsConsistent t r h e = record {
    by_name_ok = λ n u f. ground (
      arith,
      lookup-erase (name t) n r.by_name,
      lookup-erase (code t) (code u) r.by_code,
      en.beq_iff (name t) n,
      ec.beq_iff (code t) (code u),
      h.by_name_ok n u,
      h.by_name_ok (name t) t e,
    );
    by_code_ok = λ c u f. ground (
      arith,
      lookup-erase (code t) c r.by_code,
      lookup-erase (name t) (name u) r.by_name,
      ec.beq_iff (code t) c,
      en.beq_iff (name t) (name u),
      h.by_code_ok c u,
      h.by_name_ok (name t) t e,
    );
  }

  -- The key names the thing.
  abbrev pub Names : Key N C → T → Type 0
  Names (a_name n) t = name t ≡ n
  Names (a_code c) t = code t ≡ c

  loaded-IsConsistent :
      (key : Key N C) (t : T) (r : Tables T N C)
      → IsConsistent r
      → IsConsistent (loaded name code key t r).1
  unfolding loaded
  loaded-IsConsistent key t r h = elim (Bool-cases (is_some (find_key name code key r))) [
    | inl found ↦ rw found h
    | inr missing ↦ elim (Result-cases (add name code t r)) [
      | inl (e, failed) ↦ rw (missing, failed) h
      | inr (r', added_ok) ↦ rw (missing, added_ok) (add-IsConsistent t r r' h added_ok)
    ]
  ]

  get_from-IsConsistent :
      (found given : Option T) (key : Key N C) (r : Tables T N C)
      → IsConsistent r
      → IsConsistent (get_from name code found given key r).1
  unfolding get_from
  get_from-IsConsistent (some t) given key r h = h
  get_from-IsConsistent none none key r h = h
  get_from-IsConsistent none (some t) key r h = loaded-IsConsistent key t r h

  -- `getHasher` and `getCodec` keep the two tables in agreement, whatever the loader gives.
  pub get-IsConsistent :
      (load : Key N C → Option T) (key : Key N C) (r : Tables T N C)
      → IsConsistent r
      → IsConsistent (get name code load key r).1
  unfolding get
  get-IsConsistent load key r h =
      get_from-IsConsistent (find_key name code key r) (load key) key r h

  find_key-add :
      (key : Key N C) (t : T) (r r' : Tables T N C)
      → Names key t
      → add name code t r ≡ ok r'
      → find_key name code key r' ≡ some t
  unfolding find_key
  find_key-add (a_name n) t r r' e f =
      let q : (name t == n) ≡ true = (en.beq_iff (name t) n).1 e in
      rw q at (add-lookup t r r' n (code t) f).0
  find_key-add (a_code c) t r r' e f =
      let q : (code t == c) ≡ true = (ec.beq_iff (code t) c).1 e in
      rw q at (add-lookup t r r' (name t) c f).1

  loaded-find_key :
      (key : Key N C) (u t : T) (r : Tables T N C)
      → Names key u
      → find_key name code key r ≡ none
      → (loaded name code key u r).0 ≡ ok t
      → find_key name code key (loaded name code key u r).1 ≡ some t
  unfolding loaded
  loaded-find_key key u t r named missing e = elim (Result-cases (add name code u r)) [
    | inl (x, refused) ↦ cc (rw (missing, refused) at e)
    | inr (r', taken) ↦
        let same : u ≡ t = ok-injective (rw (missing, taken) at e) in
        rw (missing, taken) (find_key-add key u r r' named taken ∙ ap some same)
  ]

  get_from-find_key :
      (found given : Option T) (key : Key N C) (t : T) (r : Tables T N C)
      → find_key name code key r ≡ found
      → ((u : T) → given ≡ some u → Names key u)
      → (get_from name code found given key r).0 ≡ ok t
      → find_key name code key (get_from name code found given key r).1 ≡ some t
  unfolding get_from
  get_from-find_key (some u) given key t r f sound e = f ∙ ap some (ok-injective e)
  get_from-find_key none none key t r f sound e = cc
  get_from-find_key none (some u) key t r f sound e = loaded-find_key key u t r (sound u refl) f e

  -- What `get` returns is found under the key from then on, where the loader gives what has the key
  -- that it is asked for.
  pub get-find_key :
      (load : Key N C → Option T) (key : Key N C) (t : T) (r : Tables T N C)
      → ((u : T) → load key ≡ some u → Names key u)
      → (get name code load key r).0 ≡ ok t
      → find_key name code key (get name code load key r).1 ≡ some t
  unfolding get
  get-find_key load key t r sound e =
      get_from-find_key (find_key name code key r) (load key) key t r refl sound e
