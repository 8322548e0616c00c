-- ===== src/Service/Runs.antt =====
-- Runs of a service: with stops that do not overlap other calls, and with any calls.
use js_ipfs.Prelude.{ℕ, ◌≤◌, ◌<◌, ◌≡◌, refl, arith}
use js_ipfs.Service.{
  Status, stopped, starting, started, stopping, World, start, stop, activation_resolved,
  activation_rejected, deactivated, deactivation_rejected, new_world,
}

-- The events that change a service: a call of `start` or `stop`, and the end of an activation or a
-- deactivation that is under way.
pub data Step {V : Type 0} (w : World V) : World V → Type 0 where
  starts : {u : World V} → u ≡ (start w).1 → Step w u
  resolves : {u : World V} (v : V) → 0 < w.activations → u ≡ activation_resolved v w → Step w u
  rejects : {u : World V} → 0 < w.activations → u ≡ activation_rejected w → Step w u
  stops : {u : World V} → u ≡ (stop w).1 → Step w u
  deactivates : {u : World V} → 0 < w.deactivations → u ≡ deactivated w → Step w u
  fails : {u : World V} → 0 < w.deactivations → u ≡ deactivation_rejected w → Step w u

-- A step that calls nothing while a deactivation is under way.
pub data Calm {V : Type 0} (w : World V) : World V → Type 0 where
  calls : {u : World V} → w.deactivations ≡ 0 → Step w u → Calm w u
  ends : {u : World V} → 0 < w.deactivations → u ≡ deactivated w → Calm w u
  fails : {u : World V} → 0 < w.deactivations → u ≡ deactivation_rejected w → Calm w u

pub data Reach {V : Type 0} (R : World V → World V → Type 0) (w : World V) : World V → Type 0 where
  here : Reach R w w
  next : {t u : World V} → Reach R w t → R t u → Reach R w u

-- At most one activation or deactivation is under way, and the status shows which.
abbrev pub Agrees : {V : Type 0} → Status V → ℕ → ℕ → Type 0
Agrees stopped a d = (a ≡ 0) × (d ≡ 0)
Agrees starting a d = (a ≡ 1) × (d ≡ 0)
Agrees (started v) a d = (a ≡ 0) × (d ≤ 1)
Agrees stopping a d = ⊥

abbrev pub IsExclusive : {V : Type 0} → World V → Type 0
IsExclusive w = Agrees w.state w.activations w.deactivations

abbrev pub world : {V : Type 0} → Status V → ℕ → ℕ → World V
world s a d = record { state = s; activations = a; deactivations = d }

module _ {V : Type 0} where
  start-IsExclusive :
      (s : Status V) (a d : ℕ) → d ≡ 0 → Agrees s a d → IsExclusive (start (world s a d)).1
  unfolding start
  start-IsExclusive stopped a d z h = omega arith
  start-IsExclusive starting a d z h = h
  start-IsExclusive (started v) a d z h = h
  start-IsExclusive stopping a d z h = h

  stop-IsExclusive :
      (s : Status V) (a d : ℕ) → d ≡ 0 → Agrees s a d → IsExclusive (stop (world s a d)).1
  unfolding stop
  stop-IsExclusive stopped a d z h = h
  stop-IsExclusive starting a d z h = h
  stop-IsExclusive (started v) a d z h = omega arith
  stop-IsExclusive stopping a d z h = h

  resolved-IsExclusive :
      (v : V) (s : Status V) (a d : ℕ)
      → 0 < a
      → Agrees s a d
      → IsExclusive (activation_resolved v (world s a d))
  unfolding activation_resolved
  resolved-IsExclusive v stopped a d p h = absurd (omega arith)
  resolved-IsExclusive v starting a d p h = omega arith
  resolved-IsExclusive v (started u) a d p h = absurd (omega arith)
  resolved-IsExclusive v stopping a d p h = absurd h

  rejected-IsExclusive :
      (s : Status V) (a d : ℕ)
      → 0 < a
      → Agrees s a d
      → IsExclusive (activation_rejected (world s a d))
  unfolding activation_rejected
  rejected-IsExclusive stopped a d p h = absurd (omega arith)
  rejected-IsExclusive starting a d p h = omega arith
  rejected-IsExclusive (started u) a d p h = absurd (omega arith)
  rejected-IsExclusive stopping a d p h = absurd h

  deactivated-IsExclusive :
      (s : Status V) (a d : ℕ) → 0 < d → Agrees s a d → IsExclusive (deactivated (world s a d))
  unfolding deactivated
  deactivated-IsExclusive stopped a d p h = absurd (omega arith)
  deactivated-IsExclusive starting a d p h = absurd (omega arith)
  deactivated-IsExclusive (started u) a d p h = omega arith
  deactivated-IsExclusive stopping a d p h = absurd h

  deactivation_rejected-IsExclusive :
      (s : Status V) (a d : ℕ) → Agrees s a d → IsExclusive (deactivation_rejected (world s a d))
  unfolding deactivation_rejected
  deactivation_rejected-IsExclusive stopped a d h = omega arith
  deactivation_rejected-IsExclusive starting a d h = omega arith
  deactivation_rejected-IsExclusive (started u) a d h = omega arith
  deactivation_rejected-IsExclusive stopping a d h = absurd h

  Calm-IsExclusive : {w u : World V} → Calm w u → IsExclusive w → IsExclusive u
  Calm-IsExclusive {w} (calls z (starts e)) h =
      rw e (start-IsExclusive w.state w.activations w.deactivations z h)
  Calm-IsExclusive {w} (calls z (resolves v p e)) h =
      rw e (resolved-IsExclusive v w.state w.activations w.deactivations p h)
  Calm-IsExclusive {w} (calls z (rejects p e)) h =
      rw e (rejected-IsExclusive w.state w.activations w.deactivations p h)
  Calm-IsExclusive {w} (calls z (stops e)) h =
      rw e (stop-IsExclusive w.state w.activations w.deactivations z h)
  Calm-IsExclusive {w} (calls z (deactivates p e)) h = absurd (omega arith)
  Calm-IsExclusive {w} (calls z (fails p e)) h = absurd (omega arith)
  Calm-IsExclusive {w} (fails p e) h =
      rw e (deactivation_rejected-IsExclusive w.state w.activations w.deactivations h)
  Calm-IsExclusive {w} (ends p e) h =
      rw e (deactivated-IsExclusive w.state w.activations w.deactivations p h)

  Reach-IsExclusive : {w u : World V} → IsExclusive w → Reach Calm w u → IsExclusive u
  Reach-IsExclusive h here = h
  Reach-IsExclusive h (next r st) = Calm-IsExclusive st (Reach-IsExclusive h r)

-- From a new service, whatever the activations and deactivations that are called resolve or reject
-- to, when none of the calls falls between the beginning and the end of a deactivation: the service
-- is stopped with nothing under way, starting with one activation and no deactivation under way, or
-- started with no activation and at most one deactivation under way; it is never in the state
-- `stopping`.
pub new_world-IsExclusive :
    {V : Type 0} (w : World V) → Reach Calm (new_world {V = V}) w → IsExclusive w
unfolding new_world
new_world-IsExclusive w r = Reach-IsExclusive (refl, refl) r
