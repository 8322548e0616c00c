-- ===== src/Cache/Datastore.antt =====
-- packages/ipfs-core-config/src/utils/lru-datastore.js: a datastore behind an LRU cache. The
-- datastore below it is a parameter, and keys stand for their `toString()`.
pub mod Coherence
use js_ipfs.Prelude.{
  ℕ, ◌≡◌, ◌≢◌, Bool, true, false, Option, none, some, List, [], ◌∷◌, ◌++◌, is_some, Eq, ◌==◌, any,
}
use js_ipfs.Cache.{Lru}

-- A write of a batch.
pub data Write (K V : Type 0) : Type 0 where
  put_of : K → V → Write K V
  delete_of : K → Write K V

-- The child datastore: `get` of a missing key throws, which is `none` here. `put` and `delete` may
-- reject, which is `true` beside what is in the store then; `commit` is that of a batch.
pub record Datastore (K V : Type 0) : Type 1 where
  pub Store : Type 0
  pub read : K → Store → Option V
  pub put : K → V → Store → Store × Bool
  pub delete : K → Store → Store × Bool
  pub commit : List (Write K V) → Store → Store × Bool

abbrev pub written_key : {K V : Type 0} → Write K V → K
written_key (put_of k v) = k
written_key (delete_of k) = k

abbrev pub writes_to : {K V : Type 0} ⦃e : Eq K⦄ → K → List (Write K V) → Bool
writes_to k ws = any (λ w. written_key w == k) ws

-- A write that does not reject is read, and other keys keep what they had in every case.
pub record IsDatastore {K V : Type 0} ⦃e : Eq K⦄ (d : Datastore K V) : Type 0 where
  pub read-put_self :
      (k : K) (v : V) (s : d.Store) → (d.put k v s).1 ≡ false → d.read k (d.put k v s).0 ≡ some v
  pub read-put : (j k : K) (v : V) (s : d.Store) → j ≢ k → d.read j (d.put k v s).0 ≡ d.read j s
  pub read-delete_self :
      (k : K) (s : d.Store) → (d.delete k s).1 ≡ false → d.read k (d.delete k s).0 ≡ none
  pub read-delete : (j k : K) (s : d.Store) → j ≢ k → d.read j (d.delete k s).0 ≡ d.read j s
  pub read-commit :
      (k : K) (ws : List (Write K V)) (s : d.Store)
      → writes_to k ws ≡ false
      → d.read k (d.commit ws s).0 ≡ d.read k s

module _ {K V : Type 0} (l : Lru K V) (d : Datastore K V) where
  pub record LruDatastore : Type 0 where
    pub lru : l.Cache
    pub child : d.Store

  -- What is behind a call, and whether it rejects.
  abbrev pub settled : l.Cache → d.Store × Bool → LruDatastore × Bool
  settled lru (child, rejected) = (record { lru = lru; child = child }, rejected)

  -- The cache is set before the child has stored the value, and stays so when that rejects.
  unfoldable pub put : K → V → LruDatastore → LruDatastore × Bool
  put k v s = settled (l.set k v s.lru) (d.put k v s.child)

  -- `has` of the cache leaves it as it is; `get` may move entries.
  unfoldable pub get : K → LruDatastore → Option V × LruDatastore
  get k s = elim (l.peek k s.lru) [
    | some v ↦ (some v, record { lru = l.touched k s.lru; child = s.child })
    | none ↦ (d.read k s.child, s)
  ]

  pub has : K → LruDatastore → Bool
  has k s = elim (l.peek k s.lru) [ some _ ↦ true | none ↦ is_some (d.read k s.child) ]

  pub delete : K → LruDatastore → LruDatastore × Bool
  delete k s = settled (l.remove k s.lru) (d.delete k s.child)

  -- `putMany`, up to the first write that rejects.
  pub put_many : List (K × V) → LruDatastore → LruDatastore × Bool
  unfolding put
  put_many [] s = (s, false)
  put_many ((k, v) ∷ ps) s =
      let r = put k v s in elim r.1 [ true ↦ (r.0, true) | false ↦ put_many ps r.0 ]

  pub delete_many : List K → LruDatastore → LruDatastore × Bool
  unfolding delete
  delete_many [] s = (s, false)
  delete_many (k ∷ ks) s =
      let r = delete k s in elim r.1 [ true ↦ (r.0, true) | false ↦ delete_many ks r.0 ]

  -- `commit` of what `batch()` returns, the batch of the child: the cache has no part in it.
  unfoldable pub batch_commit : List (Write K V) → LruDatastore → LruDatastore × Bool
  batch_commit ws s = settled s.lru (d.commit ws s.child)

  -- What `getMany` yields for one key: the cached value, and then the child's value in every case.
  unfoldable pub yielded : K → LruDatastore → List (Option V)
  yielded k s = elim (l.peek k s.lru) [
    | some v ↦ some v ∷ d.read k s.child ∷ []
    | none ↦ d.read k s.child ∷ []
  ]

  unfoldable pub get_many : List K → LruDatastore → List (Option V)
  unfolding yielded get
  get_many [] s = []
  get_many (k ∷ ks) s = yielded k s ++ get_many ks (get k s).1

  pub data Op : Type 0 where
    puts : K → V → Op
    gets : K → Op
    deletes : K → Op
    puts_many : List (K × V) → Op
    deletes_many : List K → Op
    gets_many : List K → Op
    commits : List (Write K V) → Op

  -- The state behind `getMany`.
  pub got_many : List K → LruDatastore → LruDatastore
  unfolding get
  got_many [] s = s
  got_many (k ∷ ks) s = got_many ks (get k s).1

  unfoldable pub apply : Op → LruDatastore → LruDatastore × Bool
  unfolding put get delete put_many delete_many got_many batch_commit
  apply (puts k v) s = put k v s
  apply (gets k) s = ((get k s).1, false)
  apply (deletes k) s = delete k s
  apply (puts_many ps) s = put_many ps s
  apply (deletes_many ks) s = delete_many ks s
  apply (gets_many ks) s = (got_many ks s, false)
  apply (commits ws) s = batch_commit ws s
