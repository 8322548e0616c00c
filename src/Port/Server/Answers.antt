-- ===== src/Port/Server/Answers.antt =====
-- What the server answers, behind any sequence of messages and steps.
use js_ipfs.Prelude.{
  ◌≡◌, refl, ◌∙◌, ℕ, false, Option, none, some, List, [], ◌∷◌, nat_eq, lookup, Bool-cases,
  Option-cases, inl, inr,
}
use js_ipfs.Port.Server.{
  is_running, is_awaiting, Outcome, Query, Server, listed, Event, receives, resumes, aborts,
  replies, settles, new_server, answer, abort, step_query, query_of, step_new, step, run,
}
use js_ipfs.Port.Server.Agreement.{
  answers, At, IsSound, handle_query-IsSound, resume-IsSound, reply-IsSound, settle-IsSound,
  abort-IsSound, At-late,
}

module _ {V : Type 0} where
  answer-IsSound :
      (r : Option (Outcome V)) (j : ℕ) (q : Query V) (s : Server V) (id : ℕ)
      → lookup j s.queries ≡ some q
      → IsSound s id
      → IsSound (answer r j q s) id
  unfolding answer
  answer-IsSound none j q s id f h = h
  answer-IsSound (some o) j q s id f h = elim (Bool-cases (is_awaiting q.phase)) [
    | inl r ↦ rw r (reply-IsSound j q o s id f r h)
    | inr r ↦ rw r h
  ]

  step_query-IsSound :
      (e : Event V) (j : ℕ) (q : Query V) (s : Server V) (id : ℕ)
      → lookup j s.queries ≡ some q
      → IsSound s id
      → IsSound (step_query e j q s) id
  unfolding step_query
  step_query-IsSound (receives k thrown) j q s id f h = h
  step_query-IsSound (resumes k) j q s id f h = elim (Bool-cases (is_running q.phase)) [
    | inl r ↦ rw r (resume-IsSound j q s id f r h)
    | inr r ↦ rw r h
  ]
  step_query-IsSound (aborts k) j q s id f h = abort-IsSound j q s id f h
  step_query-IsSound (settles k o) j q s id f h = settle-IsSound j q o s id f h
  step_query-IsSound (replies k) j q s id f h = answer-IsSound q.result j q s id f h

  step_new-IsSound :
      (e : Event V) (s : Server V) (id : ℕ)
      → lookup (query_of e) s.queries ≡ none
      → IsSound s id
      → IsSound (step_new e s) id
  step_new-IsSound (receives k thrown) s id f h = handle_query-IsSound k thrown s id f h
  step_new-IsSound (resumes k) s id f h = h
  step_new-IsSound (aborts k) s id f h = h
  step_new-IsSound (settles k o) s id f h = h
  step_new-IsSound (replies k) s id f h = h

  step-found :
      (e : Event V) (q : Query V) (s : Server V)
      → lookup (query_of e) s.queries ≡ some q
      → step e s ≡ step_query e (query_of e) q s
  unfolding step
  step-found e q s f = rw (f, step) refl

  step-new :
      (e : Event V) (s : Server V) → lookup (query_of e) s.queries ≡ none → step e s ≡ step_new e s
  unfolding step
  step-new e s f = rw (f, step) refl

  run_from-IsSound :
      (es : List (Event V)) (s : Server V) (id : ℕ) → IsSound s id → IsSound (run es s) id
  unfolding run
  run_from-IsSound [] s id h = h
  run_from-IsSound (e ∷ es) s id h =
      run_from-IsSound es (step e s) id (elim (Option-cases (lookup (query_of e) s.queries)) [
        | inl f ↦ rw (step-new e s f) (step_new-IsSound e s id f h)
        | inr (q, f) ↦ rw (step-found e q s f) (step_query-IsSound e (query_of e) q s id f h)
      ])

  -- Behind any sequence of events on a new server, a query stands in its dictionary just until the
  -- microtask behind `run` or an abort, and at its end it has exactly one answer, or none if it was
  -- aborted; before its end it has none.
  pub run-Agrees : (es : List (Event V)) (id : ℕ) → IsSound (run es new_server) id
  unfolding new_server
  run-Agrees es id = run_from-IsSound es new_server id (refl, refl)

  -- Behind any sequence of events on a new server, an abort message for a query that is past the
  -- microtask behind `run` changes nothing: neither is its signal aborted nor its answer held back.
  pub aborts-late :
      (es : List (Event V)) (id : ℕ) (q : Query V)
      → let s : Server V = run es new_server in
        lookup id s.queries ≡ some q → is_running q.phase ≡ false → step (aborts id) s ≡ s
  unfolding step_query abort
  aborts-late es id q f late =
      let s : Server V = run es new_server in
      let h : At q.phase q.aborted (listed id s.table) (answers id s.posted) =
        let g : IsSound s id = run-Agrees es id in rw f at g in
      let away : listed id s.table ≡ false = At-late q.phase q.aborted _ _ late h in
      step-found (aborts id) q s f ∙ (rw away refl)
