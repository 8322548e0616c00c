-- ===== src/Ipns/Publisher.antt =====
-- packages/ipfs-core/src/ipns/publisher.js, and what republisher.js does for one key.
pub mod Sequence
use js_ipfs.Prelude.{
  ℕ, ◌+◌, Bool, true, false, not, Option, none, some, if◌then◌else◌, Result, ok, err, ◌>>=◌,
  or_throw, throw_if,
}
use js_ipfs.Ipns.Resolver.{RoutingError, not_found, other_error}

-- `IPNSEntry`, of which the sequence number is set.
pub record IpnsEntry (V : Type 0) : Type 0 where
  pub value : V
  pub sequence : ℕ
  pub lifetime : ℕ

-- The datastore, the routing and the package `ipns`. `none` is an error that is thrown.
pub record Platform : Type 1 where
  pub Peer : Type 0
  pub Value : Type 0
  pub Bytes : Type 0
  pub Store : Type 0
  pub Routing : Type 0
  pub equals : Value → Value → Bool
  pub has_public_key : Peer → Bool
  pub read : Peer → Store → Result RoutingError Bytes
  pub write : Peer → Bytes → Store → Option Store
  pub fetch : Peer → Routing → Result RoutingError Bytes
  pub announce : Peer → Bytes → Routing → Option Routing
  pub unmarshal : Bytes → Option (IpnsEntry Value)
  pub marshal : IpnsEntry Value → Bytes
  pub create : Peer → Value → ℕ → ℕ → Option (IpnsEntry Value)

-- The errors of `_getPublished`.
pub data LookupError : Type 0 where
  unexpected_datastore_response not_found_and_check_routing_not_enabled : LookupError
  not_in_routing routing_failed invalid_record_data : LookupError

pub data PublishError : Type 0 where
  determining_published_record creating_ipns_record storing_in_datastore : PublishError
  missing_public_key putting_to_routing : PublishError

module _ (p : Platform) where
  pub record World : Type 0 where
    pub local : p.Store
    pub routing : p.Routing

  -- `_getPublished`. The local record is read inside of the `try`, so that one that cannot be decoded
  -- counts as an error of the datastore.
  unfoldable pub get_published : Bool → p.Peer → World → Result LookupError (IpnsEntry p.Value)
  get_published check_routing peer w = elim (p.read peer w.local) [
    | ok bytes ↦ or_throw (p.unmarshal bytes) unexpected_datastore_response
    | err other_error ↦ err unexpected_datastore_response
    | err not_found ↦
        if not check_routing
        then err not_found_and_check_routing_not_enabled
        else elim (p.fetch peer w.routing) [
          | err not_found ↦ err not_in_routing
          | err other_error ↦ err routing_failed
          | ok bytes ↦ or_throw (p.unmarshal bytes) invalid_record_data
        ]
  ]

  -- The record that is there, if any.
  unfoldable pub last_published : p.Peer → World → Result PublishError (Option (IpnsEntry p.Value))
  unfolding get_published
  last_published peer w = elim (get_published true peer w) [
    | ok e ↦ ok (some e)
    | err not_in_routing ↦ ok none
    | err x ↦ err determining_published_record
  ]

  unfoldable pub next_sequence : Option (IpnsEntry p.Value) → p.Value → ℕ
  next_sequence none value = 0
  next_sequence (some e) value = if p.equals e.value value then e.sequence else e.sequence + 1

  -- `_updateOrCreateRecord`, with the datastore behind it.
  unfoldable pub update_or_create_record :
      p.Peer → p.Value → ℕ → World → Result PublishError (p.Bytes × p.Store)
  unfolding last_published next_sequence
  update_or_create_record peer value lifetime w = do
    last ← last_published peer w
    e ← or_throw (p.create peer value (next_sequence last value) lifetime) creating_ipns_record
    s ← or_throw (p.write peer (p.marshal e) w.local) storing_in_datastore
    ok (p.marshal e, s)

  -- `_putRecordToRouting`, with the record and the datastore that it is in.
  unfoldable pub put_record_to_routing :
      p.Peer → p.Bytes → World → Result PublishError p.Bytes × World
  put_record_to_routing peer bytes w =
      if not (p.has_public_key peer)
      then (err missing_public_key, w)
      else elim (p.announce peer bytes w.routing) [
        | none ↦ (err putting_to_routing, w)
        | some r ↦ (ok bytes, record w { routing = r })
      ]

  -- `publishWithEOL`
  unfoldable pub publish_with_eol :
      p.Peer → p.Value → ℕ → World → Result PublishError p.Bytes × World
  unfolding update_or_create_record put_record_to_routing
  publish_with_eol peer value lifetime w = elim (update_or_create_record peer value lifetime w) [
    | err x ↦ (err x, w)
    | ok (bytes, s) ↦ put_record_to_routing peer bytes (record w { local = s })
  ]

  pub data RepublishReply : Type 0 where
    no_entry : RepublishReply
    failed : RepublishReply
    republished : Result PublishError p.Bytes → RepublishReply

  -- `_republishEntry` of republisher.js, with its record lifetime of 24 hours.
  unfoldable pub republish_entry : p.Peer → World → RepublishReply × World
  unfolding publish_with_eol
  republish_entry peer w = elim (p.read peer w.local) [
    | err not_found ↦ (no_entry, w)
    | err other_error ↦ (failed, w)
    | ok bytes ↦ elim (p.unmarshal bytes) [
      | none ↦ (failed, w)
      | some e ↦ let (r, w') = publish_with_eol peer e.value 86400000 w in (republished r, w')
    ]
  ]
