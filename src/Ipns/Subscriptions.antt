-- ===== src/Ipns/Subscriptions.antt =====
-- packages/ipfs-core/src/ipns/routing/pubsub-datastore.js: the topics that IPNS has subscribed to.
-- Keys are lists of bytes; base58btc, the routing keys and the datastore below are parameters.
pub mod Topics
mod Tests
use js_ipfs.Prelude.{
  ℕ, Bool, true, false, not, Option, none, some, List, [], ◌∷◌, ◌++◌, ◌==◌, JsString, codes,
  string_eq, if◌then◌else◌, lookup, insert, erase, find, filter, map, take, drop, starts_with,
  Result, ok, err,
}

abbrev pub Bytes : Type 0
Bytes = List ℕ

abbrev pub namespace : JsString
namespace = codes "/ipns/"

abbrev pub namespace_length : ℕ
namespace_length = 6

pub data SubscriptionError : Type 0 where
  invalid_key invalid_peer : SubscriptionError

-- `_subscriptions`, and the topics that the datastore below was told to unsubscribe, the latest first.
pub record Subscriptions : Type 0 where
  pub topics : List (JsString × JsString)
  pub unsubscribed : List JsString

-- `encode` is `base58btc.encode` without its prefix; `to_routing_key` is `peerIdToRoutingKey` of
-- `peerIdFromString`.
module _ (encode : Bytes → JsString) (to_routing_key : JsString → Option Bytes) where
  unfoldable pub subscribe : Bytes → Subscriptions → Subscriptions
  subscribe key s =
      if take namespace_length key == namespace
      then record s { topics = insert (encode key) (encode (drop namespace_length key)) s.topics }
      else s

  -- `get`, where `outcome` is what the datastore below gives or throws.
  unfoldable pub get {ℓ κ} :
      {E : Type ℓ} {V : Type κ} → Result E V → Bytes → Subscriptions → Result E V × Subscriptions
  unfolding subscribe
  get outcome key s = (outcome, subscribe key s)

  -- `_handleSubscriptionKey`, of a topic as text.
  pub handle_subscription_key : JsString → Subscriptions → Result SubscriptionError Bytes
  handle_subscription_key topic s = elim (lookup topic s.topics) [
    | none ↦ err invalid_key
    | some [] ↦ err invalid_key
    | some (c ∷ id) ↦ elim (to_routing_key (c ∷ id)) [ none ↦ err invalid_peer | some k ↦ ok k ]
  ]

  -- `getSubscriptions`
  pub get_subscriptions : Subscriptions → List JsString
  get_subscriptions s =
      map (λ id. namespace ++ id) (filter (λ id. not (id == [])) (map (λ p. p.1) s.topics))

  abbrev pub trimmed : JsString → JsString
  trimmed name = if starts_with name namespace then drop namespace_length name else name

  abbrev pub is_topic_of : JsString → Subscriptions → JsString → Bool
  is_topic_of name s topic = elim (lookup topic s.topics) [ none ↦ false | some id ↦ id == name ]

  unfoldable pub topic_of : JsString → Subscriptions → Option JsString
  topic_of name s = find (is_topic_of name s) (map (λ p. p.0) s.topics)

  -- `cancel`, of a text: `canceled`, and the subscriptions behind it.
  unfoldable pub cancel : JsString → Subscriptions → Bool × Subscriptions
  unfolding topic_of
  cancel name s = elim (topic_of (trimmed name) s) [
    | none ↦ (false, s)
    | some [] ↦ (false, s)
    | some (c ∷ topic) ↦ (
      true,
      record { topics = erase (c ∷ topic) s.topics; unsubscribed = (c ∷ topic) ∷ s.unsubscribed },
    )
  ]
