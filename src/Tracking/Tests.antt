-- ===== src/Tracking/Tests.antt =====
-- Subscriptions of two topics.
use js_ipfs.Prelude.{◌≡◌, refl, ℕ, [], ◌∷◌, ◌++◌, codes, some, none, ok, err}
use js_ipfs.Tracking.{Tracker, already_subscribed, topic_subs, subscribe, unsubscribe}
use js_ipfs.Tracking.Handlers.{subscribe-unsubscribe}

abbrev tracker : Tracker
tracker = record {
  subs =
      (codes "news", record { handler = 4; controller = 0 } ∷ [])
      ∷ (codes "talk", record { handler = 4; controller = 1 } ∷ [])
      ∷ [];
  aborted = [];
  next_controller = 2;
}

subscribe-unsubscribe_example :
    (c : ℕ) × (u : Tracker) × (subscribe (codes "news") 5 tracker ≡ ok (c, u))
    × (topic_subs (codes "news") (unsubscribe (codes "news") (some 5) u)
        ≡ topic_subs (codes "news") tracker)
    × ((unsubscribe (codes "news") (some 5) u).aborted ≡ tracker.aborted ++ c ∷ [])
subscribe-unsubscribe_example = subscribe-unsubscribe (codes "news") (codes "news") 5 tracker refl

twice : subscribe (codes "talk") 4 tracker ≡ err already_subscribed
unfolding subscribe
twice = refl

whole_topic :
    (unsubscribe (codes "news") none tracker).subs
    ≡ (codes "talk", record { handler = 4; controller = 1 } ∷ []) ∷ []
unfolding unsubscribe
whole_topic = refl
