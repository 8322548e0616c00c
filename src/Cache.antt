-- ===== src/Cache.antt =====
-- The two caches built on the package `hashlru`, which is not part of this repository:
-- packages/ipfs-core/src/utils/tlru.js and packages/ipfs-core-config/src/utils/lru-datastore.js.
pub mod Tlru
pub mod Datastore
mod Tests
use js_ipfs.Prelude.{◌≡◌, ◌≢◌, ◌⊎◌, Option, none, some}

-- A `hashlru` cache. `peek` is what `get` would return; `touched` is the cache after that `get`,
-- which may have dropped other entries.
pub record Lru (K V : Type 0) : Type 1 where
  pub Cache : Type 0
  pub created : Cache
  pub peek : K → Cache → Option V
  pub touched : K → Cache → Cache
  pub set : K → V → Cache → Cache
  pub remove : K → Cache → Cache
  pub clear : Cache → Cache

-- What the package documents: a cache gives what was last set under a key or, when it has dropped
-- the entry, nothing.
pub record IsLru {K V : Type 0} (l : Lru K V) : Type 0 where
  pub peek-created : (k : K) → l.peek k l.created ≡ none
  pub peek-touched_self : (k : K) (s : l.Cache) → l.peek k (l.touched k s) ≡ l.peek k s
  pub peek-touched :
      (j k : K) (s : l.Cache)
      → (l.peek j (l.touched k s) ≡ none) ⊎ (l.peek j (l.touched k s) ≡ l.peek j s)
  pub peek-set_self : (k : K) (v : V) (s : l.Cache) → l.peek k (l.set k v s) ≡ some v
  pub peek-set :
      (j k : K) (v : V) (s : l.Cache)
      → j ≢ k
      → (l.peek j (l.set k v s) ≡ none) ⊎ (l.peek j (l.set k v s) ≡ l.peek j s)
  pub peek-remove_self : (k : K) (s : l.Cache) → l.peek k (l.remove k s) ≡ none
  pub peek-remove : (j k : K) (s : l.Cache) → j ≢ k → l.peek j (l.remove k s) ≡ l.peek j s
  pub peek-clear : (k : K) (s : l.Cache) → l.peek k (l.clear s) ≡ none
