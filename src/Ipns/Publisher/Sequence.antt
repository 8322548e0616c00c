-- ===== src/Ipns/Publisher/Sequence.antt =====
-- The sequence numbers of published records.
use mathlib.Core.Path.{ap, subst}
use js_ipfs.Prelude.{
  none, ◌+◌, if◌then◌else◌, ◌≡◌, refl, ℕ, Bool, true, false, Option, some, Result, ok, err,
  Bool-cases, Result-cases, Option-cases, inl, inr, ok-injective,
}
use js_ipfs.Ipns.Publisher.{
  IpnsEntry, Platform, PublishError, World, get_published, last_published, next_sequence,
  update_or_create_record, put_record_to_routing, publish_with_eol, republish_entry, RepublishReply,
  no_entry, failed, republished,
}

-- What the datastore and the package `ipns` promise.
pub record IsPlatform (p : Platform) : Type 0 where
  pub read-write :
      (peer : p.Peer) (b : p.Bytes) (s t : p.Store)
      → p.write peer b s ≡ some t
      → p.read peer t ≡ ok b
  pub unmarshal-marshal : (e : IpnsEntry p.Value) → p.unmarshal (p.marshal e) ≡ some e
  pub create-value :
      (peer : p.Peer) (v : p.Value) (n lifetime : ℕ) (e : IpnsEntry p.Value)
      → p.create peer v n lifetime ≡ some e
      → (e.value ≡ v) × (e.sequence ≡ n)
  pub equals_refl : (v : p.Value) → p.equals v v ≡ true

err-injective : {E A : Type 0} {x y : E} → Path (Result E A) (err x) (err y) → x ≡ y
err-injective {x} q = ap (λ r. elim r [ err e ↦ e | ok _ ↦ x ]) q

reply-injective :
    {p : Platform} {r s : Result PublishError p.Bytes}
    → Path (RepublishReply p) (republished r) (republished s)
    → r ≡ s
reply-injective {r} q = ap (λ a. elim a [ republished t ↦ t | no_entry ↦ r | failed ↦ r ]) q

module _ (p : Platform) (law : IsPlatform p) where
  -- The record is in the datastore, with the value and the sequence number.
  abbrev pub Holds : p.Peer → p.Value → ℕ → p.Bytes → p.Store → Type 0
  Holds peer v n bytes s =
      (e : IpnsEntry p.Value) × (p.read peer s ≡ ok bytes)
      × (p.unmarshal bytes ≡ some e)
      × (e.value ≡ v)
      × (e.sequence ≡ n)

  update_or_create_record-Holds :
      (peer : p.Peer) (v : p.Value) (lifetime : ℕ) (w : World p) (last : Option (IpnsEntry p.Value))
      (bytes : p.Bytes) (s : p.Store)
      → last_published p peer w ≡ ok last
      → update_or_create_record p peer v lifetime w ≡ ok (bytes, s)
      → Holds peer v (next_sequence p last v) bytes s
  unfolding update_or_create_record
  update_or_create_record-Holds peer v lifetime w last bytes s seen h =
      elim (Option-cases (p.create peer v (next_sequence p last v) lifetime)) [
        | inl missing ↦ cc (rw (seen, missing) at h)
        | inr (e, created) ↦ elim (Option-cases (p.write peer (p.marshal e) w.local)) [
          | inl missing ↦ cc (rw (seen, created, missing) at h)
          | inr (t, written) ↦
              let same : (p.marshal e, t) ≡ (bytes, s) =
                ok-injective (rw (seen, created, written) at h) in
              let q : p.marshal e ≡ bytes = ap (λ x. x.0) same in
              let q' : t ≡ s = ap (λ x. x.1) same in
              let (valued, numbered) =
                law.create-value peer v (next_sequence p last v) lifetime e created in
              (
                e,
                subst (λ x. p.read peer x ≡ ok bytes) q'
                    (subst (λ x. p.read peer t ≡ ok x) q
                      (law.read-write peer (p.marshal e) w.local t written)),
                subst (λ x. p.unmarshal x ≡ some e) q (law.unmarshal-marshal e),
                valued,
                numbered,
              )
        ]
      ]

  put_record_to_routing-local :
      (peer : p.Peer) (bytes : p.Bytes) (w : World p)
      → ((put_record_to_routing p peer bytes w).1.local ≡ w.local)
        × ((b : p.Bytes) → (put_record_to_routing p peer bytes w).0 ≡ ok b → bytes ≡ b)
  unfolding put_record_to_routing
  put_record_to_routing-local peer bytes w = elim (Bool-cases (p.has_public_key peer)) [
    | inr keyless ↦ rw keyless (refl, λ b h. cc)
    | inl keyed ↦ rw keyed (elim (Option-cases (p.announce peer bytes w.routing)) [
      | inl refused ↦ rw refused (refl, λ b h. cc)
      | inr (r, announced) ↦ rw announced (refl, λ b h. ok-injective h)
    ])
  ]

  publish_with_eol-Holds :
      (peer : p.Peer) (v : p.Value) (lifetime : ℕ) (w : World p) (last : Option (IpnsEntry p.Value))
      (bytes : p.Bytes)
      → last_published p peer w ≡ ok last
      → (publish_with_eol p peer v lifetime w).0 ≡ ok bytes
      → Holds peer v (next_sequence p last v) bytes (publish_with_eol p peer v lifetime w).1.local
  unfolding publish_with_eol
  publish_with_eol-Holds peer v lifetime w last bytes seen h =
      elim (Result-cases (update_or_create_record p peer v lifetime w)) [
        | inl (x, failure) ↦ cc (rw (failure, publish_with_eol) at h)
        | inr ((b, s), made) ↦
            let there = update_or_create_record-Holds peer v lifetime w last b s seen made in
            let (kept, same) = put_record_to_routing-local peer b (record w { local = s }) in
            let q : b ≡ bytes = same bytes (rw (made, publish_with_eol) at h) in
            rw (made, publish_with_eol)
              (rw kept (subst (λ x. Holds peer v (next_sequence p last v) x s) q there))
      ]

  -- The number of a new record, by the one before it.
  abbrev pub numbered : Option (IpnsEntry p.Value) → p.Value → ℕ
  numbered last v = elim last [
    | none ↦ 0
    | some e ↦ if p.equals e.value v then e.sequence else e.sequence + 1
  ]

  next_sequence-eq-numbered :
      (last : Option (IpnsEntry p.Value)) (v : p.Value) → next_sequence p last v ≡ numbered last v
  unfolding next_sequence
  next_sequence-eq-numbered none v = refl
  next_sequence-eq-numbered (some e) v = refl

  -- After a publication that succeeds, the datastore has a record of the peer with the published
  -- value; its sequence number is that of the record that was there before, one more where the value
  -- differs, and 0 where there was none.
  pub publish_with_eol-sequence :
      (peer : p.Peer) (v : p.Value) (lifetime : ℕ) (w : World p) (last : Option (IpnsEntry p.Value))
      (bytes : p.Bytes)
      → last_published p peer w ≡ ok last
      → (publish_with_eol p peer v lifetime w).0 ≡ ok bytes
      → Holds peer v (numbered last v) bytes (publish_with_eol p peer v lifetime w).1.local
  publish_with_eol-sequence peer v lifetime w last bytes seen h =
      subst (λ n. Holds peer v n bytes (publish_with_eol p peer v lifetime w).1.local)
        (next_sequence-eq-numbered last v)
        (publish_with_eol-Holds peer v lifetime w last bytes seen h)

  abbrev pub is_early : PublishError → Bool
  is_early PublishError.missing_public_key = false
  is_early PublishError.putting_to_routing = false
  is_early x = true

  put_record_to_routing-late :
      (peer : p.Peer) (bytes : p.Bytes) (w : World p) (x : PublishError)
      → (put_record_to_routing p peer bytes w).0 ≡ err x
      → is_early x ≡ false
  unfolding put_record_to_routing
  put_record_to_routing-late peer bytes w x h = elim (Bool-cases (p.has_public_key peer)) [
    | inr keyless ↦ subst (λ y. is_early y ≡ false) (err-injective (rw keyless at h)) refl
    | inl keyed ↦ elim (Option-cases (p.announce peer bytes w.routing)) [
      | inl refused ↦
          subst (λ y. is_early y ≡ false) (err-injective (rw refused at (rw keyed at h))) refl
      | inr (r, announced) ↦ cc (rw announced at (rw keyed at h))
    ]
  ]

  -- A publication that fails before the record goes to the routing changes nothing.
  pub publish_with_eol-unchanged :
      (peer : p.Peer) (v : p.Value) (lifetime : ℕ) (w : World p) (x : PublishError)
      → (publish_with_eol p peer v lifetime w).0 ≡ err x
      → is_early x ≡ true
      → (publish_with_eol p peer v lifetime w).1 ≡ w
  unfolding publish_with_eol
  publish_with_eol-unchanged peer v lifetime w x h early =
      elim (Result-cases (update_or_create_record p peer v lifetime w)) [
        | inl (y, failure) ↦ rw (failure, publish_with_eol) refl
        | inr ((b, s), made) ↦
            let late =
              put_record_to_routing-late peer b (record w { local = s }) x
                (rw (made, publish_with_eol) at h) in
            absurd (cc (early, late))
      ]

  last_published-local :
      (peer : p.Peer) (w : World p) (b : p.Bytes) (e : IpnsEntry p.Value)
      → p.read peer w.local ≡ ok b
      → p.unmarshal b ≡ some e
      → last_published p peer w ≡ ok (some e)
  unfolding last_published get_published
  last_published-local peer w b e there decoded =
      rw (there, last_published, get_published) (rw (decoded, last_published, get_published) refl)

  -- Republishing the record of a key keeps its value and its sequence number.
  pub republish_entry-sequence :
      (peer : p.Peer) (w : World p) (b bytes : p.Bytes) (e : IpnsEntry p.Value)
      → p.read peer w.local ≡ ok b
      → p.unmarshal b ≡ some e
      → (republish_entry p peer w).0 ≡ republished (ok bytes)
      → Holds peer e.value e.sequence bytes (republish_entry p peer w).1.local
  unfolding republish_entry next_sequence
  republish_entry-sequence peer w b bytes e there decoded h =
      let g : (publish_with_eol p peer e.value 86400000 w).0 ≡ ok bytes =
        reply-injective (rw (decoded, republish_entry) at (rw (there, republish_entry) at h)) in
      let held =
        publish_with_eol-sequence peer e.value 86400000 w (some e) bytes
          (last_published-local peer w b e there decoded) g in
      rw (there, republish_entry)
        (rw (decoded, republish_entry) (rw (law.equals_refl e.value) at held))
