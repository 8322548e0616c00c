-- ===== src/Ipns/Subscriptions/Topics.antt =====
-- Topics that are subscribed to and canceled.
use mathlib.Core.Path.{ap, ◌∙◌}
use js_ipfs.Prelude.{
  ◌≡◌, refl, Bool, true, false, Option, none, some, List, [], ◌∷◌, ◌==◌, JsString, string_eq,
  if◌then◌else◌, lookup, insert, find, take, drop, Result, ok, lookup-insert, lookup-erase,
  Bool-cases, Option-cases, inl, inr, beq_refl, map, ◌⊎◌,
}
use js_ipfs.Ipns.Subscriptions.{
  Bytes, namespace, namespace_length, Subscriptions, subscribe, get, handle_subscription_key,
  trimmed, is_topic_of, topic_of, cancel,
}

find-holds : {A : Type 0} (p : A → Bool) (xs : List A) (x : A) → find p xs ≡ some x → p x ≡ true
find-holds p [] x e = cc
find-holds p (y ∷ xs) x e = elim (Bool-cases (p y)) [
  | inl yes' ↦ cc (yes', rw yes' at e)
  | inr no' ↦ find-holds p xs x (rw no' at e)
]

module _ (encode : Bytes → JsString) (to_routing_key : JsString → Option Bytes) where
  subscribe-topics :
      (key : Bytes) (s : Subscriptions)
      → take namespace_length key ≡ namespace
      → (subscribe encode to_routing_key key s).topics
        ≡ insert (encode key) (encode (drop namespace_length key)) s.topics
  unfolding subscribe
  subscribe-topics key s named =
      let q : (take namespace_length key == namespace) ≡ true = (string_eq.beq_iff _ _).1 named in
      rw (q, subscribe) refl

  handle_known :
      (topic id : JsString) (k : Bytes) (s : Subscriptions)
      → lookup topic s.topics ≡ some id
      → (id == []) ≡ false
      → to_routing_key id ≡ some k
      → handle_subscription_key encode to_routing_key topic s ≡ ok k
  unfolding handle_subscription_key
  handle_known topic [] k s found given routed = cc
  handle_known topic (c ∷ id) k s found given routed =
      rw (found, handle_subscription_key) (rw (routed, handle_subscription_key) refl)

  topic_of-lookup :
      (name : JsString) (s : Subscriptions) (topic : JsString)
      → topic_of encode to_routing_key name s ≡ some topic
      → lookup topic s.topics ≡ some name
  unfolding topic_of
  topic_of-lookup name s topic found =
      let holds : is_topic_of encode to_routing_key name s topic ≡ true =
        find-holds (is_topic_of encode to_routing_key name s) (map (λ p. p.0) s.topics) topic
          found in
      elim (Option-cases (lookup topic s.topics)) [
        | inl missing ↦ cc (rw (missing, is_topic_of) at holds)
        | inr (id, there) ↦
            there ∙ ap some ((string_eq.beq_iff id name).0 (rw (there, is_topic_of) at holds))
      ]

  -- After `get` of a key of IPNS, whether or not it found a value, the topic of the key is known,
  -- and gives the routing key of its peer; every other topic is what it was.
  pub handle_subscription_key-get :
      {E V : Type 0} (outcome : Result E V) (key k : Bytes) (s : Subscriptions) (topic : JsString)
      → take namespace_length key ≡ namespace
      → to_routing_key (encode (drop namespace_length key)) ≡ some k
      → (encode (drop namespace_length key) == []) ≡ false
      → let t = (get encode to_routing_key outcome key s).1 in
        (handle_subscription_key encode to_routing_key (encode key) t ≡ ok k)
        × (lookup topic t.topics ≡ (
            if encode key == topic
            then some (encode (drop namespace_length key))
            else lookup topic s.topics))
  unfolding get subscribe handle_subscription_key
  handle_subscription_key-get outcome key k s topic named routed given =
      let id = encode (drop namespace_length key) in
      let held = subscribe-topics key s named in
      (
        handle_known (encode key) id k (subscribe encode to_routing_key key s)
            (rw held (
              lookup-insert (encode key) (encode key) id s.topics
              ∙ rw (beq_refl (encode key)) refl))
            given routed,
        rw held (lookup-insert (encode key) topic id s.topics),
      )

  -- What `cancel` removes is one topic, which stood for the name; every other topic stays. If it
  -- reports that nothing was canceled, nothing has changed.
  pub cancel-topics :
      (name : JsString) (s : Subscriptions) (j : JsString)
      → ((cancel encode to_routing_key name s ≡ (false, s)))
        ⊎ ((topic : JsString) × ((cancel encode to_routing_key name s).0 ≡ true)
            × (lookup topic s.topics ≡ some (trimmed encode to_routing_key name))
            × (lookup j (cancel encode to_routing_key name s).1.topics
                ≡ (if topic == j then none else lookup j s.topics)))
  unfolding cancel
  cancel-topics name s j =
      elim (Option-cases (topic_of encode to_routing_key (trimmed encode to_routing_key name) s)) [
        | inl missing ↦ inl (rw (missing, cancel) refl)
        | inr ([], found) ↦ inl (rw (found, cancel) refl)
        | inr (c ∷ topic, found) ↦ inr (
          c ∷ topic,
          rw (found, cancel) refl,
          topic_of-lookup (trimmed encode to_routing_key name) s (c ∷ topic) found,
          rw (found, cancel) (lookup-erase (c ∷ topic) j s.topics),
        )
      ]
