-- ===== src/Port/Server/Tests.antt =====
-- A query that is aborted while its service runs is answered all the same.
use js_ipfs.Prelude.{◌≡◌, refl, ℕ, none, List, [], ◌∷◌, nat_eq, false}
use js_ipfs.Port.Server.{
  Query, succeeds, awaiting, Event, receives, resumes, aborts, replies, settles, new_server, step,
  run, handle_query, resume, reply, answer, settle, abort, step_query,
}
use js_ipfs.Port.Server.Agreement.{IsSound}
use js_ipfs.Port.Server.Answers.{run-Agrees, aborts-late}

abbrev started : List (Event ℕ)
started = receives 0 none ∷ resumes 0 ∷ []

abbrev pending : Query ℕ
pending = record { phase = awaiting; aborted = false; result = none }

run-Agrees_example : IsSound (run started new_server) 0
run-Agrees_example = run-Agrees started 0

aborts-late_example : step (aborts 0) (run started new_server) ≡ run started new_server
unfolding run step new_server handle_query resume step_query
aborts-late_example = aborts-late started 0 pending refl refl

-- An abort that comes at once holds the answer back; a late one does not.
abort_in_time :
    (run {V = ℕ}
      (receives 0 none ∷ aborts 0 ∷ resumes 0 ∷ settles 0 (succeeds 7) ∷ replies 0 ∷ [])
      new_server).posted
    ≡ []
unfolding run step new_server handle_query resume reply answer settle abort step_query
abort_in_time = refl

abort_too_late :
    (run {V = ℕ}
      (receives 0 none ∷ resumes 0 ∷ aborts 0 ∷ settles 0 (succeeds 7) ∷ replies 0 ∷ [])
      new_server).posted
    ≡ (0, succeeds 7) ∷ []
unfolding run step new_server handle_query resume reply answer settle abort step_query
abort_too_late = refl
