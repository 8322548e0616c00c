-- ===== src/Ipns/Tests.antt =====
-- Runs on a network of three names and a platform that keeps one record.
use mathlib.Core.Logic.{◌↔◌}
use mathlib.Core.Path.{ap, sym}
use js_ipfs.Prelude.{
  ◌≡◌, refl, ℕ, Bool, true, false, Option, none, some, [], JsString, codes, ok, err, string_eq,
  nat_eq, ◌==◌, if◌then◌else◌, inr, arith, nat_beq,
}
use js_ipfs.Cache.{Lru, IsLru}
use js_ipfs.Cache.Tlru.{Entry}
use js_ipfs.Ipns.Resolver.{Network, not_found, resolver, resolve, resolve_name, validate_record}
use js_ipfs.Ipns.Resolver.Limit.{Leads, resolver-iff-Leads, resolve-recursive}
use js_ipfs.Ipns.Publisher.{Platform, World, IpnsEntry, publish_with_eol, last_published}
use js_ipfs.Ipns.Publisher.Sequence.{IsPlatform, Holds, publish_with_eol-sequence}
use js_ipfs.Ipns.Names.{Ipns, publish, resolve_cached, cached}
use js_ipfs.Ipns.Names.Cached.{resolve_cached-publish}

-- The name a leads to the name b, and b to a path.
abbrev names : Network
names = record {
  Peer = JsString;
  Record = JsString;
  peer_from_string = λ s. s;
  get = λ peer.
      if peer == codes "a"
      then ok (codes "/ipns/b")
      else if peer == codes "b"
      then ok (codes "/ipfs/c")
      else err not_found;
  valid_value = λ peer r. some r;
}

resolver-iff-Leads_example :
    (resolver names 2 (some (codes "a")) ≡ ok (codes "/ipfs/c"))
    ↔ Leads names 2 (some (codes "a")) (codes "/ipfs/c")
resolver-iff-Leads_example = resolver-iff-Leads names 2 (some (codes "a")) (codes "/ipfs/c")

resolve-recursive_example : resolve names 40 (codes "/ipns/a") false ≡ some (ok (codes "/ipfs/c"))
unfolding resolve resolver resolve_name validate_record
resolve-recursive_example =
    resolve-recursive names 40 (codes "/ipns/a") (codes "/ipfs/c") (omega arith) refl

-- A value is a number, and a record is its own text; the store keeps the last one.
abbrev platform : Platform
platform = record {
  Peer = JsString;
  Value = ℕ;
  Bytes = IpnsEntry ℕ;
  Store = Option (IpnsEntry ℕ);
  Routing = Bool;
  equals = nat_beq;
  has_public_key = λ peer. true;
  read = λ peer s. elim s [ none ↦ err not_found | some e ↦ ok e ];
  write = λ peer b s. some (some b);
  fetch = λ peer r. err not_found;
  announce = λ peer b r. if r then some r else none;
  unmarshal = λ b. some b;
  marshal = λ e. e;
  create = λ peer v n lifetime. some (record { value = v; sequence = n; lifetime = lifetime });
}

read-written :
    (b : IpnsEntry ℕ) (t : Option (IpnsEntry ℕ))
    → Path (Option (Option (IpnsEntry ℕ))) (some (some b)) (some t)
    → platform.read [] t ≡ ok b
read-written b none e = cc
read-written b (some c) e = cc

created :
    (v n lifetime : ℕ) (e : IpnsEntry ℕ)
    → some (record { value = v; sequence = n; lifetime = lifetime }) ≡ some e
    → (e.value ≡ v) × (e.sequence ≡ n)
created v n lifetime e h = (
  ap (λ o. elim o [ none ↦ v | some x ↦ x.value ]) (sym h),
  ap (λ o. elim o [ none ↦ n | some x ↦ x.sequence ]) (sym h),
)

platform-IsPlatform : IsPlatform platform
platform-IsPlatform = record {
  read-write = λ peer b s t e. read-written b t e;
  unmarshal-marshal = λ e. refl;
  create-value = λ peer v n lifetime e h. created v n lifetime e h;
  equals_refl = λ v. (nat_eq.beq_iff v v).1 refl;
}

-- A datastore that cannot be written.
abbrev refusing : Platform
refusing = record platform { write = λ peer b s. none }

refusing-IsPlatform : IsPlatform refusing
refusing-IsPlatform = record {
  read-write = λ peer b s t e. cc;
  unmarshal-marshal = λ e. refl;
  create-value = λ peer v n lifetime e h. created v n lifetime e h;
  equals_refl = λ v. (nat_eq.beq_iff v v).1 refl;
}

abbrev before : IpnsEntry ℕ
before = record { value = 5; sequence = 3; lifetime = 10 }

abbrev online : World platform
online = record { local = some before; routing = true }

abbrev quiet : World refusing
quiet = record { local = none; routing = false }

abbrev next : IpnsEntry ℕ
next = record { value = 6; sequence = 4; lifetime = 20 }

publish_with_eol-sequence_example :
    Holds platform platform-IsPlatform [] 6 4 next
      (publish_with_eol platform [] 6 20 online).1.local
unfolding publish_with_eol last_published
publish_with_eol-sequence_example =
    publish_with_eol-sequence platform platform-IsPlatform [] 6 20 online (some before) next refl
      refl

abbrev same : Option JsString → Option JsString → Bool
same none none = true
same none (some k) = false
same (some j) none = false
same (some j) (some k) = j == k

same_iff : (j k : Option JsString) → (same j k ≡ true) ↔ (j ≡ k)
same_iff none none = (λ e. refl, λ e. refl)
same_iff none (some k) = (λ e. cc, λ e. cc)
same_iff (some j) none = (λ e. cc, λ e. cc)
same_iff (some j) (some k) = (
  λ e. ap some ((string_eq.beq_iff j k).0 e),
  λ e. (string_eq.beq_iff j k).1 (ap (λ o. elim o [ none ↦ j | some x ↦ x ]) e),
)

-- A cache that keeps all of its entries.
abbrev entries : Lru (Option JsString) (Entry ℕ)
entries = record {
  Cache = Option JsString → Option (Entry ℕ);
  created = λ k. none;
  peek = λ k s. s k;
  touched = λ k s. s;
  set = λ k v s j. if same k j then some v else s j;
  remove = λ k s j. if same k j then none else s j;
  clear = λ s k. none;
}

entries-IsLru : IsLru entries
entries-IsLru = record {
  peek-created = λ k. refl;
  peek-touched_self = λ k s. refl;
  peek-touched = λ j k s. inr refl;
  peek-set_self = λ k v s. ground (arith, same_iff k k);
  peek-set = λ j k v s ne. inr (ground (arith, same_iff k j));
  peek-remove_self = λ k s. ground (arith, same_iff k k);
  peek-remove = λ j k s ne. ground (arith, same_iff k j);
  peek-clear = λ k s. refl;
}

abbrev node : Ipns platform names entries (λ peer. peer)
node = record { world = online; cache = λ k. none }

resolve_cached-publish_example :
    (resolve_cached platform names entries
      (λ peer. peer)
      3
      (codes "/ipns/b")
      false
      false
      1100
      (publish platform names entries (λ peer. peer) (codes "b") 6 100 1000 node).1).0
    ≡ cached 6
unfolding publish publish_with_eol last_published
resolve_cached-publish_example =
    resolve_cached-publish platform names entries entries-IsLru (λ peer. peer) (codes "b") 6 100
      1000 1100 3 node (codes "/ipns/b") (codes "b") refl refl (omega arith)
