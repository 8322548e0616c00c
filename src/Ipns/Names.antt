-- ===== src/Ipns/Names.antt =====
-- packages/ipfs-core/src/ipns/index.js: the class `IPNS`, a publisher and a resolver with a cache of
-- what was published. A cached value is the published bytes.
pub mod Cached
use js_ipfs.Prelude.{
  ℕ, ◌+◌, Bool, true, false, ◌&&◌, not, Option, none, some, JsString, Result, ok, err,
  if◌then◌else◌, ltb,
}
use js_ipfs.Cache.{Lru}
use js_ipfs.Cache.Tlru as Tlru
use js_ipfs.Cache.Tlru.{Entry}
use js_ipfs.Ipns.Resolver.{Network, ResolveError, next_name, resolve}
use js_ipfs.Ipns.Publisher.{Platform, World, PublishError, publish_with_eol}

abbrev pub default_record_ttl : ℕ
default_record_ttl = 60000

-- `ttl` of `publish`, for a lifetime in milliseconds.
abbrev pub ttl_of : ℕ → ℕ
ttl_of lifetime = if ltb lifetime default_record_ttl then lifetime else default_record_ttl

pub data Resolved (V : Type 0) : Type 0 where
  cached : V → Resolved V
  resolved : Option (Result ResolveError JsString) → Resolved V

module _ (p : Platform) (network : Network) (l : Lru (Option JsString) (Entry p.Value))
    (peer_to_string : p.Peer → JsString) where
  pub record Ipns : Type 0 where
    pub world : World p
    pub cache : l.Cache

  -- What `publish` does with the outcome of the publisher: a success is put into the cache.
  unfoldable pub recorded :
      p.Peer
      → p.Value
      → ℕ
      → ℕ
      → l.Cache
      → Result PublishError p.Bytes
      → World p
      → Result PublishError (JsString × p.Value) × Ipns
  recorded peer value lifetime now cache (err x) w = (err x, record { world = w; cache = cache })
  recorded peer value lifetime now cache (ok bytes) w = (
    ok (peer_to_string peer, value),
    record {
      world = w;
      cache = Tlru.set l (some (peer_to_string peer)) value (ttl_of lifetime) now cache;
    },
  )

  -- `publish` at the time `now`.
  unfoldable pub publish :
      p.Peer → p.Value → ℕ → ℕ → Ipns → Result PublishError (JsString × p.Value) × Ipns
  unfolding recorded
  publish peer value lifetime now s =
      let (r, w) = publish_with_eol p peer value lifetime s.world in
      recorded peer value lifetime now s.cache r w

  -- `resolve` of a text at the time `now`; the resolver is followed for `rounds` rounds.
  unfoldable pub resolve_cached : ℕ → JsString → Bool → Bool → ℕ → Ipns → Resolved p.Value × Ipns
  resolve_cached rounds name nocache recursive now s =
      if not nocache && not recursive
      then (let (found, cache) = Tlru.get l (next_name name) now s.cache in
          let s' : Ipns = record { world = s.world; cache = cache } in
          elim found [
            | some v ↦ (cached v, s')
            | none ↦ (resolved (resolve network rounds name recursive), s')
          ])
      else (resolved (resolve network rounds name recursive), s)
