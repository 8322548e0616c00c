-- ===== src/Service/Tests.antt =====
-- Runs of service.js.
use js_ipfs.Prelude.{ℕ, arith, refl}
use js_ipfs.Service.{started, start, stop, activation_resolved, deactivation_rejected, new_world}
use js_ipfs.Service.Runs.{
  Calm, Reach, here, next, calls, starts, resolves, stops, IsExclusive, world,
  new_world-IsExclusive,
}

started_and_stopping : Reach Calm (new_world {V = ℕ}) (world (started 7) 0 1)
unfolding new_world start stop activation_resolved
started_and_stopping =
    next (next (next here (calls refl (starts refl))) (calls refl (resolves 7 (omega arith) refl)))
      (calls refl (stops refl))

new_world-IsExclusive_example : IsExclusive (world {V = ℕ} (started 7) 0 1)
new_world-IsExclusive_example = new_world-IsExclusive (world (started 7) 0 1) started_and_stopping

-- A deactivation that rejects leaves the service started.
still_started : Reach Calm (new_world {V = ℕ}) (world (started 7) 0 0)
unfolding new_world deactivation_rejected
still_started = next started_and_stopping (Calm.fails (omega arith) refl)
