-- ===== src/Port/Transport/Runs.antt =====
-- What holds of a transport behind any sequence of calls, timers and responses.
use js_ipfs.Prelude.{
  ◌≡◌, refl, sym, ◌∙◌, ℕ, true, false, List, [], ◌∷◌, ◌++◌, ◌==◌, nat_eq, lookup, is_some, arith,
  Bool-cases, inl, inr, ltb,
}
use js_ipfs.Port.Transport.{
  Query, is_set, Transport, disconnected, aborted, has_port, is_opened, new_transport, abort,
  fail_all, disconnect, step, run, Event, executes, connects, disconnects, fires, aborts, responds,
}
use js_ipfs.Port.Transport.Dictionary.{has-append}
use js_ipfs.Port.Transport.Sound.{
  is_pending, IsSound, execute-IsSound, connect-IsSound, ended-IsSound, told, abort-IsSound,
  timeout-IsSound, handle_event-IsSound,
}

module _ {I V : Type 0} where
  abbrev pub failing : ℕ → Transport I V → Transport I V
  failing j t = record t { settled = t.settled ++ (j, disconnected) ∷ [] }

  failing-IsSound :
      (j : ℕ) (t : Transport I V) (id : ℕ)
      → ((j == id) ≡ true → ltb id t.next_id ≡ true)
      → IsSound t id
      → IsSound (abort j (failing j t)) id
  unfolding abort
  failing-IsSound j t id known h = elim (Bool-cases (is_pending j t)) [
    | inl e ↦ rw e (
        ended-IsSound j _ _ t id e
          (has-append id j aborted (t.settled ++ (j, disconnected) ∷ [])
            ∙ ground (arith, has-append id j disconnected t.settled))
          (told (has_port t.port) j id t) h)
    | inr e ↦
        let away : (j == id) ≡ true → is_pending id t ≡ false =
          λ same. rw (sym ((nat_eq.beq_iff j id).0 same)) e in
        rw e (record {
          executed = h.executed;
          settles = has-append id j disconnected t.settled ∙ ground (arith, known, away, h.settles);
          timed = h.timed;
          asked = h.asked;
          limited = h.limited;
        })
  ]

  abort-next_id : (j : ℕ) (t : Transport I V) → (abort j t).next_id ≡ t.next_id
  unfolding abort
  abort-next_id j t = elim (Bool-cases (is_pending j t)) [ inl e ↦ rw e refl | inr e ↦ rw e refl ]

  fail_all-IsSound :
      (entries : List (ℕ × Query I)) (t : Transport I V) (id : ℕ)
      → (is_some (lookup id entries) ≡ true → ltb id t.next_id ≡ true)
      → IsSound t id
      → IsSound (fail_all entries t) id
  unfolding fail_all
  fail_all-IsSound [] t id known h = h
  fail_all-IsSound ((j, q) ∷ entries) t id known h =
      let known_here : (j == id) ≡ true → ltb id t.next_id ≡ true = λ e. known (rw e refl) in
      let known_there : is_some (lookup id entries) ≡ true
          → ltb id (abort j (failing j t)).next_id ≡ true =
        λ e. rw (abort-next_id j (failing j t)) (elim (Bool-cases (j == id)) [
          | inl same ↦ known_here same
          | inr other ↦ known (rw other e)
        ]) in
      fail_all-IsSound entries (abort j (failing j t)) id known_there
        (failing-IsSound j t id known_here h)

  pub disconnect-IsSound : (t : Transport I V) (id : ℕ) → IsSound t id → IsSound (disconnect t) id
  unfolding disconnect
  disconnect-IsSound t id h =
      let u = fail_all t.queries t in
      let h' : IsSound u id = fail_all-IsSound t.queries t id h.executed h in
      record {
        executed = h'.executed;
        settles = h'.settles;
        timed = h'.timed;
        asked = λ p.
            h'.asked (elim (Bool-cases (has_port u.port)) [ inl e ↦ e | inr e ↦ cc (rw e at p) ]);
        limited = h'.limited;
      }

  pub step-IsSound :
      (e : Event I V) (t : Transport I V) (id : ℕ) → IsSound t id → IsSound (step e t) id
  unfolding step
  step-IsSound (executes q) t id h = execute-IsSound q t id h
  step-IsSound connects t id h = connect-IsSound t id h
  step-IsSound disconnects t id h = disconnect-IsSound t id h
  step-IsSound (fires j) t id h = elim (Bool-cases (is_set j t.timers)) [
    | inl e ↦ rw e (timeout-IsSound j t id h)
    | inr e ↦ rw e h
  ]
  step-IsSound (aborts j) t id h = abort-IsSound j t id h
  step-IsSound (responds j ok v) t id h = elim (Bool-cases (is_opened t.port)) [
    | inl e ↦ rw e (handle_event-IsSound j ok v t id h)
    | inr e ↦ rw e h
  ]

  pub run_from-IsSound :
      (es : List (Event I V)) (t : Transport I V) (id : ℕ) → IsSound t id → IsSound (run es t) id
  unfolding run
  run_from-IsSound [] t id h = h
  run_from-IsSound (e ∷ es) t id h = run_from-IsSound es (step e t) id (step-IsSound e t id h)

  -- Behind any sequence of calls, fired timers and responses on a new transport, a query that was
  -- executed is either pending or settled, and nothing else is; a timer is set only for a pending
  -- query; and once there is a port, every pending query was posted.
  pub run-IsSound : (es : List (Event I V)) (id : ℕ) → IsSound (run es new_transport) id
  unfolding new_transport
  run-IsSound es id = run_from-IsSound es new_transport id (record {
    executed = ground arith;
    settles = ground arith;
    timed = ground arith;
    asked = ground arith;
    limited = ground arith;
  })
