-- ===== src/Port/Transport/Tests.antt =====
-- Runs of a transport.
use js_ipfs.Prelude.{◌≡◌, refl, ℕ, true, false, none, some, List, [], ◌∷◌, lookup, nat_eq}
use js_ipfs.Port.Transport.{
  Query, Transport, succeeded, disconnected, timed_out, Event, executes, connects, disconnects,
  fires, responds, already_open, is_set, asks, gives_up, new_transport, execute, connect, abort,
  timeout, fail_all, disconnect, step, run,
}
use js_ipfs.Port.Transport.Sound.{is_pending, IsSound}
use js_ipfs.Port.Transport.Runs.{run-IsSound}
use js_ipfs.Port.Transport.Settling.{disconnect-settled, responds-settled, fires-settled}

abbrev query : Query ℕ
query = record { input = 5; timeout = some 100 }

-- Two queries before there is a port, and one behind that.
abbrev events : List (Event ℕ ℕ)
events = executes query ∷ executes query ∷ connects ∷ executes query ∷ fires 1 ∷ []

abbrev before : Transport ℕ ℕ
before = run events new_transport

posted_once : before.posted ≡ asks 0 5 ∷ asks 1 5 ∷ asks 2 5 ∷ gives_up 1 ∷ []
unfolding run step new_transport execute connect timeout
posted_once = refl

run-IsSound_example : IsSound before 1
run-IsSound_example = run-IsSound events 1

disconnect-settled_example :
    (is_pending 2 (disconnect before) ≡ false)
    × (lookup 2 (run (responds 2 true 9 ∷ []) (disconnect before)).settled ≡ some disconnected)
unfolding run step new_transport execute connect timeout
disconnect-settled_example = disconnect-settled events (responds 2 true 9 ∷ []) 2 refl

responds-settled_example :
    (is_pending 0 (step (responds 0 true 9) before) ≡ false)
    × (lookup 0 (run (disconnects ∷ []) (step (responds 0 true 9) before)).settled
        ≡ some (succeeded 9))
unfolding run step new_transport execute connect timeout
responds-settled_example = responds-settled events (disconnects ∷ []) 0 true 9 refl refl

fires-settled_example :
    (is_set 0 before.timers ≡ true)
    × (is_pending 0 (step (fires 0) before) ≡ false)
    × (lookup 0 (run (responds 0 true 9 ∷ []) (step (fires 0) before)).settled ≡ some timed_out)
unfolding run step new_transport execute connect timeout
fires-settled_example = fires-settled events (responds 0 true 9 ∷ []) 0 query refl refl

-- Without a port, `disconnect` does not keep the transport from being connected.
connect_after_disconnect :
    ((connect (disconnect before)).1 ≡ some already_open)
    × ((connect (disconnect (new_transport {I = ℕ} {V = ℕ}))).1 ≡ none)
unfolding run step new_transport execute connect timeout disconnect fail_all abort
connect_after_disconnect = (refl, refl)
