-- ===== src/Port/Transport/Settling.antt =====
-- How the queries of a transport settle, and that they settle once.
use js_ipfs.Prelude.{
  ◌≡◌, refl, ◌∙◌, ℕ, Bool, true, false, none, some, List, [], ◌∷◌, ◌++◌, ◌==◌, nat_eq,
  if◌then◌else◌, lookup, is_some, arith, Bool-cases, Option-cases, inl, inr, beq_refl,
}
use js_ipfs.Port.Transport.{
  Query, Transport, Outcome, succeeded, failed, disconnected, timed_out, aborted, is_opened, is_set,
  sets_timer, new_transport, execute, connect, has_port, abort, timeout, fail_all, disconnect,
  handle_event, step, run, Event, executes, connects, disconnects, fires, aborts, responds,
}
use js_ipfs.Port.Transport.Dictionary.{lookup-append}
use js_ipfs.Port.Transport.Sound.{is_pending, is_settled, IsSound}
use js_ipfs.Port.Transport.Runs.{failing, run-IsSound, step-IsSound, disconnect-IsSound}

module _ {V : Type 0} where
  kept :
      (ss rest : List (ℕ × Outcome V)) (id : ℕ) (o : Outcome V)
      → lookup id ss ≡ some o
      → lookup id (ss ++ rest) ≡ some o
  kept ss rest id o h = lookup-append id ss rest ∙ (rw h refl)

  newest :
      (ss : List (ℕ × Outcome V)) (rest : List (ℕ × Outcome V)) (id : ℕ) (o : Outcome V)
      → lookup id ss ≡ none
      → lookup id (ss ++ (id, o) ∷ rest) ≡ some o
  newest ss rest id o h = lookup-append id ss ((id, o) ∷ rest) ∙ (rw (h, beq_refl id) refl)

  other :
      (ss : List (ℕ × Outcome V)) (j id : ℕ) (o : Outcome V)
      → (j == id) ≡ false
      → lookup id ss ≡ none
      → lookup id (ss ++ (j, o) ∷ []) ≡ none
  other ss j id o e h = lookup-append id ss ((j, o) ∷ []) ∙ (rw (h, e) refl)

module _ {I V : Type 0} where
  -- A later transport has the outcomes of an earlier one.
  abbrev pub Remembers : Transport I V → Transport I V → Type 0
  Remembers t u =
      (id : ℕ) (o : Outcome V) → lookup id t.settled ≡ some o → lookup id u.settled ≡ some o

  abort-Remembers : (j : ℕ) (t : Transport I V) → Remembers t (abort j t)
  unfolding abort
  abort-Remembers j t id o h = elim (Bool-cases (is_pending j t)) [
    | inl e ↦ rw e (kept t.settled _ id o h)
    | inr e ↦ rw e h
  ]

  timeout-Remembers : (j : ℕ) (t : Transport I V) → Remembers t (timeout j t)
  unfolding timeout
  timeout-Remembers j t id o h = elim (Bool-cases (is_pending j t)) [
    | inl e ↦ rw e (kept t.settled _ id o h)
    | inr e ↦ rw e h
  ]

  handle_event-Remembers :
      (j : ℕ) (ok : Bool) (v : V) (t : Transport I V) → Remembers t (handle_event j ok v t)
  unfolding handle_event
  handle_event-Remembers j ok v t id o h = elim (Bool-cases (is_pending j t)) [
    | inl e ↦ rw e (kept t.settled _ id o h)
    | inr e ↦ rw e h
  ]

  fail_all-Remembers :
      (entries : List (ℕ × Query I)) (t : Transport I V) → Remembers t (fail_all entries t)
  unfolding fail_all
  fail_all-Remembers [] t id o h = h
  fail_all-Remembers ((j, q) ∷ entries) t id o h =
      fail_all-Remembers entries (abort j (failing j t)) id o
        (abort-Remembers j (failing j t) id o (kept t.settled _ id o h))

  connect-settled : (t : Transport I V) → (connect t).0.settled ≡ t.settled
  unfolding connect
  connect-settled t = elim (Bool-cases (has_port t.port)) [ inl e ↦ rw e refl | inr e ↦ rw e refl ]

  step-Remembers : (e : Event I V) (t : Transport I V) → Remembers t (step e t)
  unfolding step execute disconnect
  step-Remembers (executes q) t id o h = h
  step-Remembers connects t id o h = rw (connect-settled t) h
  step-Remembers disconnects t id o h = fail_all-Remembers t.queries t id o h
  step-Remembers (fires j) t id o h = elim (Bool-cases (is_set j t.timers)) [
    | inl e ↦ rw e (timeout-Remembers j t id o h)
    | inr e ↦ rw e h
  ]
  step-Remembers (aborts j) t id o h = abort-Remembers j t id o h
  step-Remembers (responds j ok v) t id o h = elim (Bool-cases (is_opened t.port)) [
    | inl e ↦ rw e (handle_event-Remembers j ok v t id o h)
    | inr e ↦ rw e h
  ]

  pub run-Remembers : (es : List (Event I V)) (t : Transport I V) → Remembers t (run es t)
  unfolding run
  run-Remembers [] t id o h = h
  run-Remembers (e ∷ es) t id o h = run-Remembers es (step e t) id o (step-Remembers e t id o h)

  -- A pending query has no outcome yet, so the next one is its outcome.
  unsettled :
      (t : Transport I V) (id : ℕ)
      → IsSound t id
      → is_pending id t ≡ true
      → lookup id t.settled ≡ none
  unsettled t id h p = elim (Option-cases (lookup id t.settled)) [
    | inl e ↦ e
    | inr (o, e) ↦
        let s : is_settled id t ≡ true = rw e refl in
        let c : is_settled id t ≡ false = h.settles ∙ ground (arith, p) in cc
  ]

  failing-other :
      (j id : ℕ) (t : Transport I V)
      → (j == id) ≡ false
      → lookup id t.settled ≡ none
      → lookup id (abort j (failing j t)).settled ≡ none
  unfolding abort
  failing-other j id t e h =
      let once = other t.settled j id disconnected e h in
      elim (Bool-cases (is_pending j t)) [
        | inl p ↦ rw p (other (t.settled ++ (j, disconnected) ∷ []) j id aborted e once)
        | inr p ↦ rw p once
      ]

  fail_all-disconnected :
      (entries : List (ℕ × Query I)) (t : Transport I V) (id : ℕ)
      → lookup id t.settled ≡ none
      → is_some (lookup id entries) ≡ true
      → lookup id (fail_all entries t).settled ≡ some disconnected
  unfolding fail_all
  fail_all-disconnected [] t id h p = cc
  fail_all-disconnected ((j, q) ∷ entries) t id h p = elim (Bool-cases (j == id)) [
    | inl e ↦ fail_all-Remembers entries (abort j (failing j t)) id disconnected (
        abort-Remembers j (failing j t) id disconnected
          (rw ((nat_eq.beq_iff j id).0 e) (newest t.settled [] id disconnected h)))
    | inr e ↦
        fail_all-disconnected entries (abort j (failing j t)) id (failing-other j id t e h)
          (rw e at p)
  ]

  -- On a transport behind any sequence of events, `disconnect` leaves no query pending, and every query
  -- that was pending fails with a `DisconnectError`, whatever happens later.
  pub disconnect-settled :
      (es es' : List (Event I V)) (id : ℕ)
      → let t : Transport I V = run es new_transport in
        is_pending id t ≡ true
        → (is_pending id (disconnect t) ≡ false)
          × (lookup id (run es' (disconnect t)).settled ≡ some disconnected)
  unfolding disconnect
  disconnect-settled es es' id p =
      let t : Transport I V = run es new_transport in
      let h : IsSound t id = run-IsSound es id in
      let h' : IsSound (disconnect t) id = disconnect-IsSound t id h in
      let o : lookup id (fail_all t.queries t).settled ≡ some disconnected =
        fail_all-disconnected t.queries t id (unsettled t id h p) p in
      let s : is_settled id (disconnect t) ≡ true = rw o refl in
      (ground (arith, s, h'.settles), run-Remembers es' (disconnect t) id disconnected o)

  -- On a transport behind any sequence of events, the response to a pending query, while the port is
  -- open, is its outcome, whatever happens later: a result when it is `ok` and an error when not.
  pub responds-settled :
      (es es' : List (Event I V)) (id : ℕ) (ok : Bool) (v : V)
      → let t : Transport I V = run es new_transport in
        is_opened t.port ≡ true
        → is_pending id t ≡ true
        → let u = step (responds id ok v) t in
          (is_pending id u ≡ false)
          × (lookup id (run es' u).settled ≡ some (if ok then succeeded v else failed v))
  unfolding step handle_event
  responds-settled es es' id ok v up p =
      let t : Transport I V = run es new_transport in
      let h : IsSound t id = run-IsSound es id in
      let u = step (responds id ok v) t in
      let h' : IsSound u id = step-IsSound (responds id ok v) t id h in
      let o : lookup id u.settled ≡ some (if ok then succeeded v else failed v) =
        rw up (rw p (newest t.settled [] id _ (unsettled t id h p))) in
      let s : is_settled id u ≡ true = rw o refl in
      (ground (arith, s, h'.settles), run-Remembers es' u id _ o)

  -- A pending query with a finite timeout above 0 has a timer, and when this fires before another
  -- event settles the query, its outcome is a `TimeoutError`, whatever happens later.
  pub fires-settled :
      (es es' : List (Event I V)) (id : ℕ) (q : Query I)
      → let t : Transport I V = run es new_transport in
        lookup id t.queries ≡ some q
        → sets_timer q.timeout ≡ true
        → let u = step (fires id) t in
          (is_set id t.timers ≡ true)
          × (is_pending id u ≡ false)
          × (lookup id (run es' u).settled ≡ some timed_out)
  unfolding step timeout
  fires-settled es es' id q found limit =
      let t : Transport I V = run es new_transport in
      let h : IsSound t id = run-IsSound es id in
      let p : is_pending id t ≡ true = rw found refl in
      let timer : is_set id t.timers ≡ true = h.limited q found limit in
      let u = step (fires id) t in
      let h' : IsSound u id = step-IsSound (fires id) t id h in
      let o : lookup id u.settled ≡ some timed_out =
        rw timer (rw p (newest t.settled [] id _ (unsettled t id h p))) in
      let s : is_settled id u ≡ true = rw o refl in
      (timer, ground (arith, s, h'.settles), run-Remembers es' u id _ o)
