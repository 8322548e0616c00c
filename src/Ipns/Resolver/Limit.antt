-- ===== src/Ipns/Resolver/Limit.antt =====
-- How far names are followed.
use mathlib.Core.Path.{ap}
use js_ipfs.Prelude.{
  ◌≡◌, ℕ, suc, zero, ◌≤◌, true, false, Option, some, JsString, ok, arith, Bool-cases, Result-cases,
  ◌⊎◌, inl, inr, ◌↔◌, ok-injective,
}
use js_ipfs.Ipns.Resolver.{
  Network, resolve_name, is_ipfs, next_name, resolver, resolver_unbounded, resolve, key_of,
}

module _ (network : Network) where
  -- A way from a name to a value by `n` records at most: each but the last names another, and the
  -- last holds a path of IPFS.
  abbrev pub Leads : ℕ → Option JsString → JsString → Type 0
  Leads zero name v = ⊥
  Leads (suc n) name v =
      (w : JsString) × (resolve_name network name ≡ ok w)
      × (((is_ipfs w ≡ true) × (w ≡ v)) ⊎ ((is_ipfs w ≡ false) × Leads n (next_name w) v))

  resolver-Leads :
      (n : ℕ) (name : Option JsString) (v : JsString)
      → resolver network n name ≡ ok v
      → Leads n name v
  unfolding resolver
  resolver-Leads zero name v h = cc
  resolver-Leads (suc n) name v h = elim (Result-cases (resolve_name network name)) [
    | inl (x, failed) ↦ cc (rw (failed, resolver) at h)
    | inr (w, found) ↦ elim (Bool-cases (is_ipfs w)) [
      | inl last ↦ (w, found, inl (last, ok-injective (rw last at (rw (found, resolver) at h))))
      | inr more ↦ (
        w,
        found,
        inr (more, resolver-Leads n (next_name w) v (rw more at (rw (found, resolver) at h))),
      )
    ]
  ]

  Leads-resolver :
      (n : ℕ) (name : Option JsString) (v : JsString)
      → Leads n name v
      → resolver network n name ≡ ok v
  unfolding resolver
  Leads-resolver zero name v h = elim h [ ]
  Leads-resolver (suc n) name v (w, found, inl (last, same)) =
      rw (found, resolver) (rw last (ap ok same))
  Leads-resolver (suc n) name v (w, found, inr (more, onward)) =
      rw (found, resolver) (rw more (Leads-resolver n (next_name w) v onward))

  -- With a finite depth the resolver gives a value exactly if that many records, or fewer, lead from
  -- the name to it.
  pub resolver-iff-Leads :
      (n : ℕ) (name : Option JsString) (v : JsString)
      → (resolver network n name ≡ ok v) ↔ Leads n name v
  resolver-iff-Leads n name v = (resolver-Leads n name v, Leads-resolver n name v)

  Leads-resolver_unbounded :
      (n rounds : ℕ) (name : Option JsString) (v : JsString)
      → n ≤ rounds
      → Leads n name v
      → resolver_unbounded network rounds name ≡ some (ok v)
  unfolding resolver_unbounded
  Leads-resolver_unbounded zero rounds name v le h = elim h [ ]
  Leads-resolver_unbounded (suc n) zero name v le h = absurd (omega arith)
  Leads-resolver_unbounded (suc n) (suc rounds) name v le (w, found, inl (last, same)) =
      rw (found, resolver_unbounded) (rw last (ap (λ x. some (ok x)) same))
  Leads-resolver_unbounded (suc n) (suc rounds) name v le (w, found, inr (more, onward)) =
      rw (found, resolver_unbounded)
        (rw more (Leads-resolver_unbounded n rounds (next_name w) v (omega arith) onward))

  -- What `resolve` gives with `recursive` it gives without it too, once it has run 32 rounds: both
  -- follow names until a path of IPFS.
  pub resolve-recursive :
      (rounds : ℕ) (name v : JsString)
      → 32 ≤ rounds
      → resolve network rounds name true ≡ some (ok v)
      → resolve network rounds name false ≡ some (ok v)
  unfolding resolve
  resolve-recursive rounds name v le h = elim (Result-cases (key_of name)) [
    | inl (x, failed) ↦ cc (rw (failed, resolve) at h)
    | inr (key, checked) ↦
        let found : resolver network 32 key ≡ ok v = cc (rw (checked, resolve) at h) in
        rw (checked, resolve)
          (Leads-resolver_unbounded 32 rounds key v le (resolver-Leads 32 key v found))
  ]
