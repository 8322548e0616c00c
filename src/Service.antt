-- ===== src/Service.antt =====
-- packages/ipfs-core/src/utils/service.js: a service that is started and stopped asynchronously.
-- Each `await` ends a step; what runs between two of them is one function.
pub mod Runs
mod Tests
use js_ipfs.Prelude.{ℕ, suc, ◌+◌, ◌-◌, Option, none, some, ◌≡◌, Bool, true, false}

-- `ServiceState`
pub data Status (V : Type 0) : Type 0 where
  stopped : Status V
  starting : Status V
  started : V → Status V
  stopping : Status V

-- What `Service.start` does before it waits or ends.
pub data StartReply : Type 0 where
  activates already_starting already_started retries_when_stopped : StartReply

pub data StopReply (V : Type 0) : Type 0 where
  nothing : StopReply V
  retries_when_ready : StopReply V
  waits : StopReply V
  deactivates : V → StopReply V

pub data UseReply (V : Type 0) : Type 0 where
  value : V → UseReply V
  waits : UseReply V
  not_started : UseReply V

-- The service, with the activations and deactivations that are under way.
pub record World (V : Type 0) : Type 0 where
  pub state : Status V
  pub activations : ℕ
  pub deactivations : ℕ

module _ {V : Type 0} where
  abbrev start_at : Status V → StartReply
  start_at stopped = activates
  start_at starting = already_starting
  start_at (started v) = already_started
  start_at stopping = retries_when_stopped

  -- `Service.start`: only a stopped service is activated.
  pub start : World V → StartReply × World V
  start w = elim (start_at w.state) [
    | activates ↦ (activates, record w { state = starting; activations = w.activations + 1 })
    | reply ↦ (reply, w)
  ]

  -- `service.state = { status: 'started', value: result }`
  pub activation_resolved : V → World V → World V
  activation_resolved v w = record w { state = started v; activations = w.activations - 1 }

  -- The `catch` of `Service.start`.
  pub activation_rejected : World V → World V
  activation_rejected w = record w { state = stopped; activations = w.activations - 1 }

  abbrev stop_at : Status V → StopReply V
  stop_at stopped = nothing
  stop_at starting = retries_when_ready
  stop_at (started v) = deactivates v
  stop_at stopping = StopReply.waits

  -- `Service.stop`, up to its `await`. The state is left alone until `deactivate` has ended.
  pub stop : World V → StopReply V × World V
  stop w = elim (stop_at w.state) [
    | deactivates v ↦ (deactivates v, record w { deactivations = w.deactivations + 1 })
    | reply ↦ (reply, w)
  ]

  -- Behind `await deactivate(state.value)`.
  pub deactivated : World V → World V
  deactivated w = record w { state = stopped; deactivations = w.deactivations - 1 }

  -- When `deactivate` rejects, `stop` throws in front of the assignment: the state stays.
  pub deactivation_rejected : World V → World V
  deactivation_rejected w = record w { deactivations = w.deactivations - 1 }

  -- `Service.try`
  pub try_at : Status V → Option V
  try_at (started v) = some v
  try_at _ = none

  -- `Service.use`
  pub use_at : Status V → UseReply V
  use_at (started v) = value v
  use_at starting = UseReply.waits
  use_at _ = not_started

  -- The constructor.
  pub new_world : World V
  new_world = record { state = stopped; activations = 0; deactivations = 0 }
