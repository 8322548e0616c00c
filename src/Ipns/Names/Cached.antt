-- ===== src/Ipns/Names/Cached.antt =====
-- A name that was published is resolved from the cache.
use mathlib.Core.Path.{ap, ◌∙◌}
use js_ipfs.Prelude.{
  ◌≡◌, refl, ℕ, ◌<◌, ◌+◌, min, ltb, if◌then◌else◌, Bool, false, Option, none, some, JsString,
  Result, ok, err, arith, Bool-cases, inl, inr,
}
use js_ipfs.Cache.{Lru, IsLru}
use js_ipfs.Cache.Tlru as Tlru
use js_ipfs.Cache.Tlru.{Entry, has_expired}
use js_ipfs.Cache.Tlru.History.{get-set}
use js_ipfs.Ipns.Resolver.{Network, next_name, resolve}
use js_ipfs.Ipns.Publisher.{Platform, World, publish_with_eol}
use js_ipfs.Ipns.Names.{
  Ipns, publish, recorded, resolve_cached, cached, resolved, ttl_of, PublishError,
}

module _ (p : Platform) (network : Network) (l : Lru (Option JsString) (Entry p.Value))
    (law : IsLru l) (peer_to_string : p.Peer → JsString) where
  -- The last millisecond of the lifetime, or of the minute behind the publication if that is sooner.
  abbrev pub last_moment : ℕ → ℕ → ℕ
  last_moment then' lifetime = then' + min lifetime 60000

  expired_iff :
      (value : p.Value) (lifetime then' now : ℕ)
      → 0 < then'
      → has_expired l (record { value = value; expire = then' + ttl_of lifetime }) now
        ≡ ltb (last_moment then' lifetime) now
  expired_iff value lifetime then' now h = ground arith

  resolve_cached-get :
      (rounds now : ℕ) (name : JsString) (s : Ipns p network l peer_to_string)
      (key : Option JsString) (found : Option p.Value)
      → next_name name ≡ key
      → (Tlru.get l key now s.cache).0 ≡ found
      → (resolve_cached p network l peer_to_string rounds name false false now s).0
        ≡ elim found [ some v ↦ cached v | none ↦ resolved (resolve network rounds name false) ]
  unfolding resolve_cached
  resolve_cached-get rounds now name s key none named e =
      rw (named, resolve_cached) (rw (e, resolve_cached) refl)
  resolve_cached-get rounds now name s key (some v) named e =
      rw (named, resolve_cached) (rw (e, resolve_cached) refl)

  resolve_cached-recorded :
      (peer : p.Peer) (value : p.Value) (lifetime then' now rounds : ℕ) (cache : l.Cache)
      (r : Result PublishError p.Bytes) (w : World p) (name id : JsString)
      → (recorded p network l peer_to_string peer value lifetime then' cache r w).0 ≡ ok (id, value)
      → next_name name ≡ some (peer_to_string peer)
      → 0 < then'
      → (resolve_cached p network l peer_to_string rounds name false false now
          (recorded p network l peer_to_string peer value lifetime then' cache r w).1).0
        ≡ (if ltb (last_moment then' lifetime) now
            then resolved (resolve network rounds name false)
            else cached value)
  unfolding recorded
  resolve_cached-recorded peer value lifetime then' now rounds cache (err x) w name id h named
        started =
      cc
  resolve_cached-recorded peer value lifetime then' now rounds cache (ok bytes) w name id h named
        started =
      let kept =
        get-set l law (some (peer_to_string peer)) value (ttl_of lifetime) then' now cache in
      let late = expired_iff value lifetime then' now started in
      elim (Bool-cases (ltb (last_moment then' lifetime) now)) [
        | inl e ↦ rw e (
            resolve_cached-get rounds now name _ (some (peer_to_string peer)) none named
              (kept ∙ ap (λ (b : Bool). if b then none else some value) (late ∙ e)))
        | inr e ↦ rw e (
            resolve_cached-get rounds now name _ (some (peer_to_string peer)) (some value) named
              (kept ∙ ap (λ (b : Bool). if b then none else some value) (late ∙ e)))
      ]

  -- Directly after a publication that succeeds, later than the start of 1970, resolving the name without
  -- `recursive` and `nocache` gives the published value from the cache up to the moment when the
  -- record's lifetime, or a minute if that is less, has passed, and what the resolver gives after
  -- that moment.
  pub resolve_cached-publish :
      (peer : p.Peer) (value : p.Value) (lifetime then' now rounds : ℕ)
      (s : Ipns p network l peer_to_string) (name id : JsString)
      → (publish p network l peer_to_string peer value lifetime then' s).0 ≡ ok (id, value)
      → next_name name ≡ some (peer_to_string peer)
      → 0 < then'
      → (resolve_cached p network l peer_to_string rounds name false false now
          (publish p network l peer_to_string peer value lifetime then' s).1).0
        ≡ (if ltb (then' + min lifetime 60000) now
            then resolved (resolve network rounds name false)
            else cached value)
  unfolding publish
  resolve_cached-publish peer value lifetime then' now rounds s name id h named started =
      let made = publish_with_eol p peer value lifetime s.world in
      resolve_cached-recorded peer value lifetime then' now rounds s.cache made.0 made.1 name id h
        named started
