-- ===== src/Tracking/Handlers.antt =====
-- Who is subscribed, behind `subscribe` and `unsubscribe`.
use js_ipfs.Prelude.{
  ◌≡◌, refl, ◌∙◌, ap, ℕ, false, not, ◌&&◌, some, List, [], ◌∷◌, ◌++◌, ◌==◌, JsString, string_eq,
  nat_eq, map, filter, ◌+◌, if◌then◌else◌, lookup, insert, lookup-insert, lookup-erase, or_else,
  arith, Bool-cases, inl, inr, beq_refl, ok,
}
use js_ipfs.Tracking.{
  Subscription, Tracker, topic_subs, has_handler, subscribe, is_for, with_subs, unsubscribe,
}

topic_subs-with :
    (topic k : JsString) (ss : List Subscription) (d : List (JsString × List Subscription))
    → or_else (lookup k (with_subs topic ss d)) []
      ≡ (if topic == k then ss else or_else (lookup k d) [])
topic_subs-with topic k [] d = elim (Bool-cases (topic == k)) [
  | inl e ↦ rw (lookup-erase topic k (insert topic [] d)) (rw e refl)
  | inr e ↦
      rw (lookup-erase topic k (insert topic [] d))
        (rw e (rw (lookup-insert topic k [] d) (rw e refl)))
]
topic_subs-with topic k (s ∷ ss) d = elim (Bool-cases (topic == k)) [
  | inl e ↦ rw (lookup-insert topic k (s ∷ ss) d) (rw e refl)
  | inr e ↦ rw (lookup-insert topic k (s ∷ ss) d) (rw e refl)
]

has_handler-filter :
    (j h : ℕ) (ss : List Subscription)
    → has_handler j (filter (λ s. not (is_for (some h) s)) ss) ≡ (has_handler j ss && not (h == j))
has_handler-filter j h [] = refl
has_handler-filter j h (s ∷ ss) = ground (
  arith,
  has_handler-filter j h ss,
  nat_eq.beq_iff s.handler h,
  nat_eq.beq_iff s.handler j,
  nat_eq.beq_iff h j,
)

-- Behind `unsubscribe` with a handler, that handler is not subscribed to the topic, and every other
-- handler and topic is as before.
pub has_handler-unsubscribe :
    (topic k : JsString) (h j : ℕ) (t : Tracker)
    → has_handler j (topic_subs k (unsubscribe topic (some h) t))
      ≡ (has_handler j (topic_subs k t) && not (topic == k && h == j))
unfolding unsubscribe
has_handler-unsubscribe topic k h j t =
    let left = filter (λ s. not (is_for (some h) s)) (topic_subs topic t) in
    ap (has_handler j) (topic_subs-with topic k left t.subs) ∙ (elim (Bool-cases (topic == k)) [
      | inl e ↦
          let same : topic ≡ k = (string_eq.beq_iff _ _).0 e in
          rw e (has_handler-filter j h (topic_subs topic t) ∙ (rw same refl))
      | inr e ↦ rw e (ground arith)
    ])

filter-away :
    (h : ℕ) (ss : List Subscription)
    → has_handler h ss ≡ false
    → (filter (λ s. not (is_for (some h) s)) ss ≡ ss) × (filter (is_for (some h)) ss ≡ [])
filter-away h [] a = (refl, refl)
filter-away h (s ∷ ss) a = elim (Bool-cases (s.handler == h)) [
  | inl e ↦ cc (rw e at a)
  | inr e ↦
      let (stay, go) = filter-away h ss (rw e at a) in (rw e (ap (λ xs. s ∷ xs) stay), rw e go)
]

-- A handler that is not yet subscribed to a topic can be; `unsubscribe` with it right behind that
-- leaves every topic with the subscriptions it had, and aborts just the controller whose signal
-- `subscribe` returned.
pub subscribe-unsubscribe :
    (topic k : JsString) (h : ℕ) (t : Tracker)
    → has_handler h (topic_subs topic t) ≡ false
    → (c : ℕ) × (u : Tracker) × (subscribe topic h t ≡ ok (c, u))
      × (topic_subs k (unsubscribe topic (some h) u) ≡ topic_subs k t)
      × ((unsubscribe topic (some h) u).aborted ≡ t.aborted ++ c ∷ [])
unfolding subscribe unsubscribe
subscribe-unsubscribe topic k h t away =
    let old = topic_subs topic t in
    let new : Subscription = record { handler = h; controller = t.next_controller } in
    let subs = insert topic (new ∷ old) t.subs in
    let (stay, go) = filter-away h old away in
    let here : or_else (lookup topic subs) [] ≡ new ∷ old =
      ap (λ o. or_else o []) (lookup-insert topic topic (new ∷ old) t.subs)
      ∙ (rw (beq_refl topic) refl) in
    let left : filter (λ s. not (is_for (some h) s)) (or_else (lookup topic subs) []) ≡ old =
      ap (filter (λ s. not (is_for (some h) s))) here ∙ (rw (beq_refl h) stay) in
    let gone : filter (is_for (some h)) (or_else (lookup topic subs) []) ≡ new ∷ [] =
      ap (filter (is_for (some h))) here ∙ (rw (beq_refl h) (ap (λ xs. new ∷ xs) go)) in
    (
      t.next_controller,
      record { subs = subs; aborted = t.aborted; next_controller = t.next_controller + 1 },
      rw away refl,
      topic_subs-with topic k _ subs
          ∙ (rw left (elim (Bool-cases (topic == k)) [
            | inl e ↦ let same : topic ≡ k = (string_eq.beq_iff _ _).0 e in rw e (rw same refl)
            | inr e ↦
                rw e
                  (ap (λ o. or_else o []) (lookup-insert topic k (new ∷ old) t.subs) ∙ (rw e refl))
          ])),
      ap (λ ss. t.aborted ++ map (λ s. s.controller) ss) gone,
    )
