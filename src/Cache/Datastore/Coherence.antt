-- ===== src/Cache/Datastore/Coherence.antt =====
-- The cache of a `LRUDatastore` against the datastore below it.
use js_ipfs.Prelude.{
  ◌≡◌, refl, ◌⊎◌, inl, inr, none, some, List, [], ◌∷◌, arith, Eq, ◌==◌, Option-cases, is_some,
  Bool-cases, sym, ◌∙◌, Bool, true, false,
}
use js_ipfs.Cache.{Lru, IsLru}
use js_ipfs.Cache.Datastore.{
  Datastore, IsDatastore, LruDatastore, put, get, has, delete, put_many, delete_many, Op, puts,
  gets, deletes, puts_many, deletes_many, gets_many, got_many, batch_commit, commits, Write,
  writes_to, apply,
}

module _ {K V : Type 0} ⦃e : Eq K⦄ (l : Lru K V) (d : Datastore K V) (lru : IsLru l)
    (law : IsDatastore d) where
  -- A cached value is the value below, at a key and at every key.
  abbrev pub IsCoherentAt : K → LruDatastore l d → Type 0
  IsCoherentAt k s = (l.peek k s.lru ≡ none) ⊎ (l.peek k s.lru ≡ d.read k s.child)

  abbrev pub IsCoherent : LruDatastore l d → Type 0
  IsCoherent s = (k : K) → IsCoherentAt k s

  put-IsCoherent :
      (j k : K) (v : V) (s : LruDatastore l d)
      → IsCoherentAt j s
      → (put l d k v s).1 ≡ false
      → IsCoherentAt j (put l d k v s).0
  unfolding put
  put-IsCoherent j k v s h done = elim (Bool-cases (j == k)) [
    | inl same ↦
        let q : j ≡ k = (e.beq_iff j k).0 same in
        rw q (inr (lru.peek-set_self k v s.lru ∙ sym (law.read-put_self k v s.child done)))
    | inr other ↦
        ground (arith, h, lru.peek-set j k v s.lru, law.read-put j k v s.child, e.beq_iff j k)
  ]

  delete-IsCoherent :
      (j k : K) (s : LruDatastore l d) → IsCoherentAt j s → IsCoherentAt j (delete l d k s).0
  unfolding delete
  delete-IsCoherent j k s h = elim (Bool-cases (j == k)) [
    | inl same ↦ let q : j ≡ k = (e.beq_iff j k).0 same in rw q (inl (lru.peek-remove_self k s.lru))
    | inr other ↦
        ground (arith, h, lru.peek-remove j k s.lru, law.read-delete j k s.child, e.beq_iff j k)
  ]

  get-IsCoherent :
      (j k : K) (s : LruDatastore l d) → IsCoherentAt j s → IsCoherentAt j (get l d k s).1
  unfolding get
  get-IsCoherent j k s h = elim (Option-cases (l.peek k s.lru)) [
    | inl missing ↦ rw (missing, get) h
    | inr (v, found) ↦ rw (found, get) (ground (arith, h, lru.peek-touched j k s.lru))
  ]

  got_many-IsCoherent :
      (j : K) (ks : List K) (s : LruDatastore l d)
      → IsCoherentAt j s
      → IsCoherentAt j (got_many l d ks s)
  unfolding got_many
  got_many-IsCoherent j [] s h = h
  got_many-IsCoherent j (k ∷ ks) s h =
      got_many-IsCoherent j ks (get l d k s).1 (get-IsCoherent j k s h)

  -- A loop that stops at the first call that rejects.
  abbrev Next :
      (LruDatastore l d → LruDatastore l d × Bool)
      → LruDatastore l d × Bool
      → LruDatastore l d × Bool
  Next rest r = elim r.1 [ true ↦ (r.0, true) | false ↦ rest r.0 ]

  next-IsCoherent :
      (j : K) (rest : LruDatastore l d → LruDatastore l d × Bool) (r : LruDatastore l d × Bool)
      → (r.1 ≡ false → IsCoherentAt j r.0)
      → ((t : LruDatastore l d) → IsCoherentAt j t → (rest t).1 ≡ false → IsCoherentAt j (rest t).0)
      → (Next rest r).1 ≡ false
      → IsCoherentAt j (Next rest r).0
  next-IsCoherent j rest (t, true) h k done = cc
  next-IsCoherent j rest (t, false) h k done = k t (h refl) done

  put_many-IsCoherent :
      (j : K) (ps : List (K × V)) (s : LruDatastore l d)
      → IsCoherentAt j s
      → (put_many l d ps s).1 ≡ false
      → IsCoherentAt j (put_many l d ps s).0
  unfolding put_many
  put_many-IsCoherent j [] s h done = h
  put_many-IsCoherent j ((k, v) ∷ ps) s h done =
      next-IsCoherent j (put_many l d ps) (put l d k v s) (put-IsCoherent j k v s h)
        (put_many-IsCoherent j ps) done

  delete_many-IsCoherent :
      (j : K) (ks : List K) (s : LruDatastore l d)
      → IsCoherentAt j s
      → (delete_many l d ks s).1 ≡ false
      → IsCoherentAt j (delete_many l d ks s).0
  unfolding delete_many
  delete_many-IsCoherent j [] s h done = h
  delete_many-IsCoherent j (k ∷ ks) s h done =
      next-IsCoherent j (delete_many l d ks) (delete l d k s) (λ z. delete-IsCoherent j k s h)
        (delete_many-IsCoherent j ks) done

  -- Whether a key is written past the cache.
  abbrev pub commits_to : K → Op l d → Bool
  commits_to k (commits ws) = writes_to k ws
  commits_to k _ = false

  batch_commit-IsCoherent :
      (j : K) (ws : List (Write K V)) (s : LruDatastore l d)
      → IsCoherentAt j s
      → writes_to j ws ≡ false
      → IsCoherentAt j (batch_commit l d ws s).0
  unfolding batch_commit
  batch_commit-IsCoherent j ws s h past = ground (arith, h, law.read-commit j ws s.child past)

  -- An operation that does not reject keeps the cached value of a key equal to the value in the
  -- datastore below, unless it is the commit of a batch that writes to the key.
  pub apply-IsCoherent :
      (op : Op l d) (s : LruDatastore l d) (k : K)
      → IsCoherentAt k s
      → (apply l d op s).1 ≡ false
      → commits_to k op ≡ false
      → IsCoherentAt k (apply l d op s).0
  unfolding apply
  apply-IsCoherent (puts j v) s k h done past = put-IsCoherent k j v s h done
  apply-IsCoherent (gets j) s k h done past = get-IsCoherent k j s h
  apply-IsCoherent (deletes j) s k h done past = delete-IsCoherent k j s h
  apply-IsCoherent (puts_many ps) s k h done past = put_many-IsCoherent k ps s h done
  apply-IsCoherent (deletes_many ks) s k h done past = delete_many-IsCoherent k ks s h done
  apply-IsCoherent (gets_many ks) s k h done past = got_many-IsCoherent k ks s h
  apply-IsCoherent (commits ws) s k h done past = batch_commit-IsCoherent k ws s h past

  -- While cached values equal those below, `get` and `has` answer as the datastore below does.
  pub get-transparent :
      (k : K) (s : LruDatastore l d)
      → IsCoherent s
      → ((get l d k s).0 ≡ d.read k s.child) × (has l d k s ≡ is_some (d.read k s.child))
  unfolding get has
  get-transparent k s h = elim (Option-cases (l.peek k s.lru)) [
    | inl missing ↦ (rw (missing, get) refl, rw (missing, has) refl)
    | inr (v, found) ↦
        let below : some v ≡ d.read k s.child = ground (arith, h k) in
        (rw (found, get) below, rw (found, has) (rw (sym below) refl))
  ]
