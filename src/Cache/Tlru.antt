-- ===== src/Cache/Tlru.antt =====
-- packages/ipfs-core/src/utils/tlru.js: a cache whose entries expire. Times are milliseconds.
pub mod History
use js_ipfs.Prelude.{
  ℕ, ◌+◌, Bool, true, false, ◌&&◌, not, Option, none, some, ltb, nat_beq, if◌then◌else◌,
}
use js_ipfs.Cache.{Lru}

-- `{ value, expire }`
pub record Entry (V : Type 0) : Type 0 where
  pub value : V
  pub expire : ℕ

module _ {K V : Type 0} (l : Lru K (Entry V)) where
  -- `(value.expire) && (value.expire < Date.now())`
  abbrev pub has_expired : Entry V → ℕ → Bool
  has_expired e now = not (nat_beq e.expire 0) && ltb e.expire now

  unfoldable pub get : K → ℕ → l.Cache → Option V × l.Cache
  get k now s = elim (l.peek k s) [
    | none ↦ (none, l.touched k s)
    | some e ↦
        if has_expired e now
        then (none, l.remove k (l.touched k s))
        else (some e.value, l.touched k s)
  ]

  unfoldable pub set : K → V → ℕ → ℕ → l.Cache → l.Cache
  set k v ttl now s = l.set k (record { value = v; expire = now + ttl }) s

  -- The values of this program's caches are objects, so that `if (value)` tests for one.
  unfoldable pub has : K → ℕ → l.Cache → Bool × l.Cache
  unfolding get
  has k now s = let (v, s') = get k now s in (elim v [ none ↦ false | some _ ↦ true ], s')

  unfoldable pub remove : K → l.Cache → l.Cache
  remove k s = l.remove k s

  unfoldable pub clear : l.Cache → l.Cache
  clear s = l.clear s

  pub data Op : Type 0 where
    gets : K → Op
    asks : K → Op
    sets : K → V → ℕ → Op
    removes : K → Op
    clears : Op

  -- One call at the time `now`.
  unfoldable pub apply : Op → ℕ → l.Cache → l.Cache
  unfolding get set has remove clear
  apply (gets k) now s = (get k now s).1
  apply (asks k) now s = (has k now s).1
  apply (sets k v ttl) now s = set k v ttl now s
  apply (removes k) now s = remove k s
  apply clears now s = clear s
