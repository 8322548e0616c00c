-- ===== src/Ipns/Subscriptions/Tests.antt =====
-- Runs with a `base58btc` that leaves its bytes as they are.
use js_ipfs.Prelude.{
  ◌≡◌, refl, Bool, true, Option, some, [], ◌∷◌, codes, lookup, Result, ok, err, JsString, string_eq,
}
use js_ipfs.Ipns.Subscriptions.{
  Bytes, Subscriptions, get, cancel, handle_subscription_key, topic_of,
}
use js_ipfs.Ipns.Subscriptions.Topics.{handle_subscription_key-get}

abbrev plain : Bytes → JsString
plain b = b

abbrev routing_key : JsString → Option Bytes
routing_key id = some id

abbrev two : Subscriptions
two = record {
  topics = (codes "/ipns/a", codes "a") ∷ (codes "/ipns/b", codes "b") ∷ [];
  unsubscribed = [];
}

abbrev failing : Result Bool Bool
failing = err true

cancels :
    (cancel plain routing_key (codes "/ipns/b") two).1.topics ≡ (codes "/ipns/a", codes "a") ∷ []
unfolding cancel topic_of
cancels = refl

handle_subscription_key-get_example :
    (handle_subscription_key plain routing_key
        (codes "/ipns/c")
        (get plain routing_key failing (codes "/ipns/c") two).1
      ≡ ok (codes "c"))
    × (lookup (codes "/ipns/a") (get plain routing_key failing (codes "/ipns/c") two).1.topics
        ≡ some (codes "a"))
handle_subscription_key-get_example =
    handle_subscription_key-get plain routing_key failing (codes "/ipns/c") (codes "c") two
      (codes "/ipns/a") refl refl refl
