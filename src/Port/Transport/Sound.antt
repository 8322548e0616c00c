-- ===== src/Port/Transport/Sound.antt =====
-- What each call of a transport keeps.
use js_ipfs.Prelude.{
  ◌≡◌, refl, sym, ◌∙◌, ℕ, Bool, true, false, not, ◌||◌, ◌&&◌, some, List, [], ◌∷◌, ◌++◌, ◌==◌,
  nat_eq, map, if◌then◌else◌, lookup, erase, lookup-erase, is_some, arith, Bool-cases, Option-cases,
  inl, inr, ltb,
}
use js_ipfs.Port.Transport.{
  Query, Message, gives_up, post_query, cleared, is_set, Transport, Outcome, timed_out, aborted,
  has_port, sets_timer, execute, connect, abort, timeout, handle_event,
}
use js_ipfs.Port.Transport.Dictionary.{
  is_asked, lookup-append, is_set-cleared, is_asked-append, is_asked-map, has-append, has-erase,
  is_set-one, is_asked-one, is_asked-gives_up,
}

module _ {I V : Type 0} where
  abbrev pub is_pending : ℕ → Transport I V → Bool
  is_pending id t = is_some (lookup id t.queries)

  abbrev pub is_settled : ℕ → Transport I V → Bool
  is_settled id t = is_some (lookup id t.settled)

  -- A query that was executed is either pending or settled, and no other is; a timer is set only for a
  -- pending query, and for every one with a finite timeout; and once there is a port, every pending query was posted.
  pub record IsSound (t : Transport I V) (id : ℕ) : Type 0 where
    pub executed : is_pending id t ≡ true → ltb id t.next_id ≡ true
    pub settles : is_settled id t ≡ (ltb id t.next_id && not (is_pending id t))
    pub timed : is_set id t.timers ≡ true → is_pending id t ≡ true
    pub asked : has_port t.port ≡ true → is_pending id t ≡ true → is_asked id t.posted ≡ true
    pub limited :
        (q : Query I)
        → lookup id t.queries ≡ some q
        → sets_timer q.timeout ≡ true
        → is_set id t.timers ≡ true

  execute-limited :
      (q : Query I) (t : Transport I V) (id : ℕ)
      → IsSound t id
      → (r : Query I) → lookup id (t.queries ++ (t.next_id, q) ∷ []) ≡ some r
      → sets_timer r.timeout ≡ true
      → is_set id (if sets_timer q.timeout then t.timers ++ t.next_id ∷ [] else t.timers) ≡ true
  execute-limited q t id h r e limit =
      let found = sym (lookup-append id t.queries ((t.next_id, q) ∷ [])) ∙ e in
      let old : lookup id t.queries ≡ some r → is_set id t.timers ≡ true =
        λ f. h.limited r f limit in
      elim (Option-cases (lookup id t.queries)) [
        | inr (r', before) ↦
            let same : some r' ≡ some r = rw before at found in
            ground (arith, old (before ∙ same), is_set-one id t.next_id t.timers)
        | inl new ↦
            let here = rw new at found in
            elim (Bool-cases (t.next_id == id)) [
              | inl same ↦
                  let q' : some q ≡ some r = rw same at here in
                  let limited : sets_timer q.timeout ≡ true = let eq : q ≡ r = cc in rw eq limit in
                  rw limited (ground (arith, same, is_set-one id t.next_id t.timers))
              | inr other ↦ cc (rw other at here)
            ]
      ]

  pub execute-IsSound :
      (q : Query I) (t : Transport I V) (id : ℕ) → IsSound t id → IsSound (execute q t) id
  unfolding execute
  execute-IsSound q t id h =
      let p = has-append id t.next_id q t.queries in
      record {
        executed = ground (arith, p, h.executed, nat_eq.beq_iff t.next_id id);
        settles = ground (arith, p, h.executed, h.settles, nat_eq.beq_iff t.next_id id);
        timed = ground (arith, p, h.timed, is_set-one id t.next_id t.timers);
        asked = ground (arith, p, h.asked, is_asked-one id t.next_id q.input t.posted);
        limited = λ r e limit. execute-limited q t id h r e limit;
      }

  pub connect-IsSound : (t : Transport I V) (id : ℕ) → IsSound t id → IsSound (connect t).0 id
  unfolding connect
  connect-IsSound t id h = elim (Bool-cases (has_port t.port)) [
    | inl e ↦ rw e h
    | inr e ↦ rw e (record {
      executed = h.executed;
      settles = h.settles;
      timed = h.timed;
      asked = λ p q.
          is_asked-append id t.posted (map post_query t.queries)
          ∙ ground (arith, is_asked-map id t.queries, q);
      limited = h.limited;
    })
  ]

  -- A pending query is called with an outcome and leaves the dictionary and the timers.
  abbrev pub ended : ℕ → List (ℕ × Outcome V) → List (Message I) → Transport I V → Transport I V
  ended j ss ms t = record t {
    queries = erase j t.queries;
    settled = ss;
    posted = ms;
    timers = cleared j t.timers;
  }

  pub ended-IsSound :
      (j : ℕ) (ss : List (ℕ × Outcome V)) (ms : List (Message I)) (t : Transport I V) (id : ℕ)
      → is_pending j t ≡ true
      → is_some (lookup id ss) ≡ (is_settled id t || j == id)
      → is_asked id ms ≡ is_asked id t.posted
      → IsSound t id
      → IsSound (ended j ss ms t) id
  ended-IsSound j ss ms t id pending s same h =
      let p = has-erase id j t.queries in
      let c = is_set-cleared id j t.timers in
      let here : (j == id) ≡ true → is_pending id t ≡ true =
        λ e. rw (sym ((nat_eq.beq_iff j id).0 e)) pending in
      record {
        executed = ground (arith, p, h.executed);
        settles = ground (arith, p, s, here, h.executed, h.settles);
        timed = ground (arith, p, c, h.timed);
        asked = ground (arith, p, same, h.asked);
        limited = λ r e limit. elim (Bool-cases (j == id)) [
          | inl gone ↦ cc (rw gone at (sym (lookup-erase j id t.queries) ∙ e))
          | inr other ↦
              c
              ∙ (rw other (h.limited r (rw other at (sym (lookup-erase j id t.queries) ∙ e)) limit))
        ];
      }

  pub told :
      (b : Bool) (j id : ℕ) (t : Transport I V)
      → is_asked id (if b then t.posted ++ gives_up j ∷ [] else t.posted) ≡ is_asked id t.posted
  told true j id t = is_asked-gives_up id j t.posted
  told false j id t = refl

  pub abort-IsSound : (j : ℕ) (t : Transport I V) (id : ℕ) → IsSound t id → IsSound (abort j t) id
  unfolding abort
  abort-IsSound j t id h = elim (Bool-cases (is_pending j t)) [
    | inl e ↦ rw e (
        ended-IsSound j _ _ t id e (has-append id j aborted t.settled)
          (told (has_port t.port) j id t) h)
    | inr e ↦ rw e h
  ]

  pub timeout-IsSound :
      (j : ℕ) (t : Transport I V) (id : ℕ) → IsSound t id → IsSound (timeout j t) id
  unfolding timeout
  timeout-IsSound j t id h = elim (Bool-cases (is_pending j t)) [
    | inl e ↦ rw e (
        ended-IsSound j _ _ t id e (has-append id j timed_out t.settled)
          (told (has_port t.port) j id t) h)
    | inr e ↦ rw e (record {
      executed = h.executed;
      settles = h.settles;
      timed = ground (arith, h.timed, is_set-cleared id j t.timers);
      asked = h.asked;
      limited = λ r f limit. elim (Bool-cases (j == id)) [
        | inl same ↦
            let gone : is_pending id t ≡ false = rw (sym ((nat_eq.beq_iff j id).0 same)) e in
            cc (rw f at gone)
        | inr other ↦ is_set-cleared id j t.timers ∙ (rw other (h.limited r f limit))
      ];
    })
  ]

  pub handle_event-IsSound :
      (j : ℕ) (ok : Bool) (v : V) (t : Transport I V) (id : ℕ)
      → IsSound t id
      → IsSound (handle_event j ok v t) id
  unfolding handle_event
  handle_event-IsSound j ok v t id h = elim (Bool-cases (is_pending j t)) [
    | inl e ↦ rw e (ended-IsSound j _ t.posted t id e (has-append id j _ t.settled) refl h)
    | inr e ↦ rw e h
  ]
