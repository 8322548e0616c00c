-- ===== src/Cache/Tests.antt =====
-- Runs of the two caches, on a cache and a datastore that keep everything in an association list.
use js_ipfs.Prelude.{
  ℕ, ◌⊎◌, ◌≡◌, refl, ◌≢◌, ◌↔◌, inr, true, false, none, some, List, [], ◌∷◌, arith, nat_eq, lookup,
  insert, erase, lookup-insert, lookup-erase,
}
use js_ipfs.Cache.{Lru, IsLru}
use js_ipfs.Cache.Tlru as Tlru
use js_ipfs.Cache.Tlru.{Entry, has_expired}
use js_ipfs.Cache.Tlru.History.{run, last_set, get-last_set, IsLive}
use js_ipfs.Cache.Datastore as Stored
use js_ipfs.Cache.Datastore.{
  Datastore, IsDatastore, LruDatastore, Write, put_of, delete_of, writes_to,
}
use js_ipfs.Cache.Datastore.Coherence.{IsCoherent, apply-IsCoherent, get-transparent}

lookup-insert_self :
    {V : Type 0} (k : ℕ) (v : V) (s : List (ℕ × V)) → lookup k (insert k v s) ≡ some v
lookup-insert_self k v s = ground (arith, lookup-insert k k v s, nat_eq.beq_iff k k)

lookup-insert_other :
    {V : Type 0} (j k : ℕ) (v : V) (s : List (ℕ × V)) → j ≢ k → lookup j (insert k v s) ≡ lookup j s
lookup-insert_other j k v s ne = ground (arith, lookup-insert k j v s, nat_eq.beq_iff k j)

lookup-erase_self : {V : Type 0} (k : ℕ) (s : List (ℕ × V)) → lookup k (erase k s) ≡ none
lookup-erase_self k s = ground (arith, lookup-erase k k s, nat_eq.beq_iff k k)

lookup-erase_other :
    {V : Type 0} (j k : ℕ) (s : List (ℕ × V)) → j ≢ k → lookup j (erase k s) ≡ lookup j s
lookup-erase_other j k s ne = ground (arith, lookup-erase k j s, nat_eq.beq_iff k j)

abbrev listed : (V : Type 0) → Lru ℕ V
listed V = record {
  Cache = List (ℕ × V);
  created = [];
  peek = λ k s. lookup k s;
  touched = λ k s. s;
  set = λ k v s. insert k v s;
  remove = λ k s. erase k s;
  clear = λ s. [];
}

listed-IsLru : (V : Type 0) → IsLru (listed V)
listed-IsLru V = record {
  peek-created = λ k. refl;
  peek-touched_self = λ k s. refl;
  peek-touched = λ j k s. inr refl;
  peek-set_self = λ k v s. lookup-insert_self k v s;
  peek-set = λ j k v s ne. inr (lookup-insert_other j k v s ne);
  peek-remove_self = λ k s. lookup-erase_self k s;
  peek-remove = λ j k s ne. lookup-erase_other j k s ne;
  peek-clear = λ k. λ s. refl;
}

abbrev written : List (Write ℕ ℕ) → List (ℕ × ℕ) → List (ℕ × ℕ)
written [] s = s
written (put_of k v ∷ ws) s = written ws (insert k v s)
written (delete_of k ∷ ws) s = written ws (erase k s)

abbrev kept : Datastore ℕ ℕ
kept = record {
  Store = List (ℕ × ℕ);
  read = λ k s. lookup k s;
  put = λ k v s. (insert k v s, false);
  delete = λ k s. (erase k s, false);
  commit = λ ws s. (written ws s, false);
}

lookup-written :
    (k : ℕ) (ws : List (Write ℕ ℕ)) (s : List (ℕ × ℕ))
    → writes_to k ws ≡ false
    → lookup k (written ws s) ≡ lookup k s
lookup-written k [] s past = refl
lookup-written k (put_of j v ∷ ws) s past =
    ground (arith, lookup-written k ws (insert j v s), lookup-insert j k v s, nat_eq.beq_iff j k)
lookup-written k (delete_of j ∷ ws) s past =
    ground (arith, lookup-written k ws (erase j s), lookup-erase j k s, nat_eq.beq_iff j k)

kept-IsDatastore : IsDatastore kept
kept-IsDatastore = record {
  read-put_self = λ k v s done. lookup-insert_self k v s;
  read-put = λ j k v s ne. lookup-insert_other j k v s ne;
  read-delete_self = λ k s done. lookup-erase_self k s;
  read-delete = λ j k s ne. lookup-erase_other j k s ne;
  read-commit = λ k ws s past. lookup-written k ws s past;
}

abbrev entries : Lru ℕ (Entry ℕ)
entries = listed (Entry ℕ)

-- Set at 1000 for 50 milliseconds, asked for at 1020.
abbrev history : List (ℕ × Tlru.Op entries)
history = (1020, Tlru.asks 7) ∷ (1000, Tlru.sets 7 42 50) ∷ []

get-last_set_example :
    ((Tlru.get entries 7 1050 (run entries (listed-IsLru (Entry ℕ)) history)).0 ≡ some 42) ↔ (
      (lookup 7 (run entries (listed-IsLru (Entry ℕ)) history) ≢ none)
      × ((en : Entry ℕ) × (last_set entries (listed-IsLru (Entry ℕ)) 7 history ≡ some en)
          × (en.value ≡ 42)
          × IsLive entries (listed-IsLru (Entry ℕ)) en.expire 1050))
get-last_set_example = get-last_set entries (listed-IsLru (Entry ℕ)) 7 1050 history 42

-- It is given back up to its last millisecond, and not behind it.
in_time : (Tlru.get entries 7 1050 (run entries (listed-IsLru (Entry ℕ)) history)).0 ≡ some 42
unfolding run Tlru.get Tlru.set Tlru.has Tlru.apply
in_time = refl

too_late : (Tlru.get entries 7 1051 (run entries (listed-IsLru (Entry ℕ)) history)).0 ≡ none
unfolding run Tlru.get Tlru.set Tlru.has Tlru.apply
too_late = refl

abbrev warm : LruDatastore (listed ℕ) kept
warm = record { lru = (3, 30) ∷ []; child = (3, 30) ∷ (4, 40) ∷ [] }

warm-IsCoherent : IsCoherent (listed ℕ) kept (listed-IsLru ℕ) kept-IsDatastore warm
warm-IsCoherent k = ground arith

abbrev changed : LruDatastore (listed ℕ) kept
changed = (Stored.apply (listed ℕ) kept (Stored.puts 4 41) warm).0

apply-IsCoherent_example :
    (lookup 4 changed.lru ≡ none) ⊎ (lookup 4 changed.lru ≡ lookup 4 changed.child)
unfolding Stored.apply Stored.put
apply-IsCoherent_example =
    apply-IsCoherent (listed ℕ) kept (listed-IsLru ℕ) kept-IsDatastore (Stored.puts 4 41) warm 4
      (warm-IsCoherent 4) refl refl

get-transparent_example :
    ((Stored.get (listed ℕ) kept 3 warm).0 ≡ some 30) × (Stored.has (listed ℕ) kept 3 warm ≡ true)
get-transparent_example =
    get-transparent (listed ℕ) kept (listed-IsLru ℕ) kept-IsDatastore 3 warm warm-IsCoherent

-- `getMany` gives two values for a cached key.
got_twice : Stored.get_many (listed ℕ) kept (3 ∷ 4 ∷ []) warm ≡ some 30 ∷ some 30 ∷ some 40 ∷ []
unfolding Stored.get_many Stored.yielded Stored.get
got_twice = refl

-- Behind the commit of a batch the cache gives what the datastore below no longer has.
stale_batch :
    let s = (Stored.batch_commit (listed ℕ) kept (put_of 3 31 ∷ []) warm).0 in
    (lookup 3 s.child ≡ some 31) × ((Stored.get (listed ℕ) kept 3 s).0 ≡ some 30)
unfolding Stored.batch_commit Stored.get
stale_batch = (refl, refl)

-- A datastore that stores nothing and rejects.
abbrev full : Datastore ℕ ℕ
full = record {
  Store = List (ℕ × ℕ);
  read = λ k s. lookup k s;
  put = λ k v s. (s, true);
  delete = λ k s. (s, true);
  commit = λ ws s. (s, true);
}

-- A value whose `put` rejected is given back by `get`.
rejected_put :
    let r = Stored.put (listed ℕ) full 5 50 (record { lru = []; child = [] }) in
    (r.1 ≡ true) × ((Stored.get (listed ℕ) full 5 r.0).0 ≡ some 50)
unfolding Stored.put Stored.get
rejected_put = (refl, refl)
