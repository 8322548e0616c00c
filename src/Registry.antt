-- ===== src/Registry.antt =====
-- packages/ipfs-core-utils/src/multihashes.js, multicodecs.js and multibases.js: what is registered
-- under a name and under a code (a base: under a prefix). The three classes differ in `get` alone.
pub mod Consistency
mod Tests
use js_ipfs.Prelude.{
  ℕ, Bool, true, false, ◌&&◌, ◌||◌, not, Option, none, some, List, [], ◌∷◌, lookup, insert, erase,
  Eq, ◌==◌, map, is_some, if◌then◌else◌, Result, ok, err,
}

pub data RegistryError : Type 0 where
  already_exists not_loaded : RegistryError

-- `_hashersByName` and `_hashersByCode`, and likewise for codecs and bases.
pub record Tables (T N C : Type 0) : Type 0 where
  pub by_name : List (N × T)
  pub by_code : List (C × T)

-- A `string` or a `number` handed to `getHasher` and `getCodec`.
pub data Key (N C : Type 0) : Type 0 where
  a_name : N → Key N C
  a_code : C → Key N C

module _ {T N C : Type 0} ⦃en : Eq N⦄ ⦃ec : Eq C⦄ (name : T → N) (code : T → C) where
  pub empty : Tables T N C
  empty = record { by_name = []; by_code = [] }

  pub add : T → Tables T N C → Result RegistryError (Tables T N C)
  add t r =
      if is_some (lookup (name t) r.by_name) || is_some (lookup (code t) r.by_code)
      then err already_exists
      else ok
          (record { by_name = insert (name t) t r.by_name; by_code = insert (code t) t r.by_code })

  -- The constructor adds what it is given, one after the other.
  pub create : List T → Tables T N C → Result RegistryError (Tables T N C)
  unfolding add
  create [] r = ok r
  create (t ∷ ts) r = elim (add t r) [ err e ↦ err e | ok r' ↦ create ts r' ]

  pub remove : T → Tables T N C → Tables T N C
  remove t r = record { by_name = erase (name t) r.by_name; by_code = erase (code t) r.by_code }

  -- The table that `typeof code === 'string'` selects, at the key.
  pub find_key : Key N C → Tables T N C → Option T
  find_key (a_name n) r = lookup n r.by_name
  find_key (a_code c) r = lookup c r.by_code

  -- Behind `await this._loadHasher(code)`: what was loaded is added unless the key was taken.
  pub loaded : Key N C → T → Tables T N C → Result RegistryError T × Tables T N C
  unfolding add find_key
  loaded key t r =
      if is_some (find_key key r)
      then (ok t, r)
      else elim (add t r) [ err e ↦ (err e, r) | ok r' ↦ (ok t, r') ]

  -- The rest of `getHasher`, on what the table has at the key and on what the loader gives.
  pub get_from :
      Option T → Option T → Key N C → Tables T N C → Result RegistryError T × Tables T N C
  unfolding loaded
  get_from (some t) given key r = (ok t, r)
  get_from none none key r = (err not_loaded, r)
  get_from none (some t) key r = loaded key t r

  -- `getHasher` and `getCodec`; the loader is external, and `none` is its rejection.
  pub get : (Key N C → Option T) → Key N C → Tables T N C → Result RegistryError T × Tables T N C
  unfolding get_from
  get load key r = get_from (find_key key r) (load key) key r

  -- `listHashers`
  pub listed : Tables T N C → List T
  listed r = map (λ p. p.1) r.by_name

-- `getBase`: the name and the prefix are both strings.
module _ {T N : Type 0} ⦃en : Eq N⦄ (name prefix : T → N) where
  pub get_base : (N → Option T) → N → Tables T N N → Result RegistryError T × Tables T N N
  unfolding add
  get_base load key r = elim (lookup key r.by_name) [
    | some t ↦ (ok t, r)
    | none ↦ elim (lookup key r.by_code) [
      | some t ↦ (ok t, r)
      | none ↦ elim (load key) [
        | none ↦ (err not_loaded, r)
        | some t ↦
            if is_some (lookup (name t) r.by_name) || is_some (lookup (prefix t) r.by_code)
            then (ok t, r)
            else elim (add name prefix t r) [ err e ↦ (err e, r) | ok r' ↦ (ok t, r') ]
      ]
    ]
  ]
