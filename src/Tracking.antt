-- ===== src/Tracking.antt =====
-- packages/ipfs-http-client/src/pubsub/subscription-tracker.js. Handlers and controllers are numbers, and
-- `aborted` lists the controllers that were aborted.
pub mod Handlers
mod Tests
use js_ipfs.Prelude.{
  ℕ, ◌+◌, Bool, true, false, not, Option, none, some, List, [], ◌∷◌, ◌++◌, ◌==◌, JsString,
  string_eq, nat_eq, map, filter, if◌then◌else◌, lookup, insert, erase, or_else, nat_beq, length,
  Result, ok, err,
}

pub data AlreadySubscribed : Type 0 where
  already_subscribed : AlreadySubscribed

pub record Subscription : Type 0 where
  pub handler : ℕ
  pub controller : ℕ

pub record Tracker : Type 0 where
  pub subs : List (JsString × List Subscription)
  pub aborted : List ℕ
  pub next_controller : ℕ

new_tracker : Tracker
new_tracker = record { subs = []; aborted = []; next_controller = 0 }

abbrev pub topic_subs : JsString → Tracker → List Subscription
topic_subs topic t = or_else (lookup topic t.subs) []

abbrev pub has_handler : ℕ → List Subscription → Bool
has_handler h [] = false
has_handler h (s ∷ ss) = if s.handler == h then true else has_handler h ss

-- The signal of the controller is returned.
pub subscribe : JsString → ℕ → Tracker → Result AlreadySubscribed (ℕ × Tracker)
subscribe topic h t =
    if has_handler h (topic_subs topic t)
    then err already_subscribed
    else ok (
      t.next_controller,
      record {
        subs =
            insert topic
              (record { handler = h; controller = t.next_controller } ∷ topic_subs topic t) t.subs;
        aborted = t.aborted;
        next_controller = t.next_controller + 1;
      },
    )

abbrev pub is_for : Option ℕ → Subscription → Bool
is_for none s = true
is_for (some h) s = s.handler == h

-- The subscriptions that stay, and the topic without an entry when there are none.
abbrev pub with_subs :
    JsString
    → List Subscription
    → List (JsString × List Subscription)
    → List (JsString × List Subscription)
with_subs topic [] d = erase topic (insert topic [] d)
with_subs topic (s ∷ ss) d = insert topic (s ∷ ss) d

pub unsubscribe : JsString → Option ℕ → Tracker → Tracker
unsubscribe topic h t = record {
  subs = with_subs topic (filter (λ s. not (is_for h s)) (topic_subs topic t)) t.subs;
  aborted = t.aborted ++ map (λ s. s.controller) (filter (is_for h) (topic_subs topic t));
  next_controller = t.next_controller;
}
