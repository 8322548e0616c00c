-- ===== src/Port/Transport.antt =====
-- packages/ipfs-message-port-client/src/client/transport.js and query.js. The ids of one transport have
-- its random prefix in common, which is left out: an id is the number behind it.
pub mod Dictionary
pub mod Sound
pub mod Runs
pub mod Settling
mod Tests
use js_ipfs.Prelude.{
  ℕ, ◌+◌, Bool, true, false, not, Option, none, some, List, [], ◌∷◌, ◌++◌, ◌==◌, nat_eq, map,
  if◌then◌else◌, lookup, erase, is_some, ◌&&◌, any, suc, zero,
}

-- A query; a timeout of `Infinity` is `none`.
pub record Query (I : Type 0) : Type 0 where
  pub input : I
  pub timeout : Option ℕ

-- What `succeed` and `fail` are called with.
pub data Outcome (V : Type 0) : Type 0 where
  succeeded : V → Outcome V
  failed : V → Outcome V
  disconnected timed_out aborted : Outcome V

pub data Message (I : Type 0) : Type 0 where
  asks : ℕ → I → Message I
  gives_up : ℕ → Message I

pub data PortState : Type 0 where
  absent opened closed : PortState

-- `settled` lists the calls of `succeed` and `fail` by the id of their query, `posted` the messages,
-- both in their order, and `timers` the timeouts that are set. A promise takes the first call.
pub record Transport (I V : Type 0) : Type 0 where
  pub port : PortState
  pub next_id : ℕ
  pub queries : List (ℕ × Query I)
  pub settled : List (ℕ × Outcome V)
  pub posted : List (Message I)
  pub timers : List ℕ

abbrev pub has_port : PortState → Bool
has_port absent = false
has_port opened = true
has_port closed = true

abbrev pub is_opened : PortState → Bool
is_opened absent = false
is_opened opened = true
is_opened closed = false

pub data Event (I V : Type 0) : Type 0 where
  executes : Query I → Event I V
  connects disconnects : Event I V
  fires aborts : ℕ → Event I V
  responds : ℕ → Bool → V → Event I V

-- The call of `connect`, when it throws.
pub data AlreadyOpen : Type 0 where
  already_open : AlreadyOpen

abbrev pub sets_timer : Option ℕ → Bool
sets_timer none = false
sets_timer (some zero) = false
sets_timer (some (suc n)) = true

abbrev pub post_query : {I : Type 0} → ℕ × Query I → Message I
post_query (id, q) = asks id q.input

abbrev pub cleared : ℕ → List ℕ → List ℕ
cleared id [] = []
cleared id (j ∷ ids) = if j == id then cleared id ids else j ∷ cleared id ids

abbrev pub is_set : ℕ → List ℕ → Bool
is_set id [] = false
is_set id (j ∷ ids) = if j == id then true else is_set id ids

module _ {I V : Type 0} where
  pub new_transport : Transport I V
  new_transport = record {
    port = absent;
    next_id = 0;
    queries = [];
    settled = [];
    posted = [];
    timers = [];
  }

  pub execute : Query I → Transport I V → Transport I V
  execute q t = record {
    port = t.port;
    next_id = t.next_id + 1;
    queries = t.queries ++ (t.next_id, q) ∷ [];
    settled = t.settled;
    posted = if has_port t.port then t.posted ++ post_query (t.next_id, q) ∷ [] else t.posted;
    timers = if sets_timer q.timeout then t.timers ++ t.next_id ∷ [] else t.timers;
  }

  -- The transport is left as it is when the call throws.
  pub connect : Transport I V → Transport I V × Option AlreadyOpen
  connect t =
      if has_port t.port
      then (t, some already_open)
      else (record t { port = opened; posted = t.posted ++ map post_query t.queries }, none)

  -- The query is no longer pending, and is called with an outcome.
  abbrev pub settle : ℕ → Outcome V → Transport I V → Transport I V
  settle id o t = record t { queries = erase id t.queries; settled = t.settled ++ (id, o) ∷ [] }

  -- The message that the server stops too, if there is a port.
  abbrev pub tell : ℕ → Transport I V → Transport I V
  tell id t = record t {
    posted = if has_port t.port then t.posted ++ gives_up id ∷ [] else t.posted;
  }

  abbrev pub clear_timer : ℕ → Transport I V → Transport I V
  clear_timer id t = record t { timers = cleared id t.timers }

  pub abort : ℕ → Transport I V → Transport I V
  abort id t =
      if is_some (lookup id t.queries) then clear_timer id (tell id (settle id aborted t)) else t

  -- `timeout`, called by a timer, which is then no longer set.
  pub timeout : ℕ → Transport I V → Transport I V
  timeout id t =
      let u = clear_timer id t in
      if is_some (lookup id t.queries) then tell id (settle id timed_out u) else u

  -- The loop of `disconnect`, over the entries that there were at its start.
  pub fail_all : List (ℕ × Query I) → Transport I V → Transport I V
  unfolding abort
  fail_all [] t = t
  fail_all ((id, q) ∷ entries) t =
      fail_all entries (abort id (record t { settled = t.settled ++ (id, disconnected) ∷ [] }))

  pub disconnect : Transport I V → Transport I V
  unfolding fail_all
  disconnect t =
      let u = fail_all t.queries t in record u { port = if has_port u.port then closed else absent }

  -- `handleEvent`, of a response that is `ok` or not.
  pub handle_event : ℕ → Bool → V → Transport I V → Transport I V
  handle_event id ok value t =
      if is_some (lookup id t.queries)
      then clear_timer id (settle id (if ok then succeeded value else failed value) t)
      else t

  -- A timer fires only while it is set, and a message arrives only while the port is open.
  pub step : Event I V → Transport I V → Transport I V
  unfolding execute connect disconnect timeout abort handle_event
  step (executes q) t = execute q t
  step connects t = (connect t).0
  step disconnects t = disconnect t
  step (fires id) t = if is_set id t.timers then timeout id t else t
  step (aborts id) t = abort id t
  step (responds id ok value) t = if is_opened t.port then handle_event id ok value t else t

  pub run : List (Event I V) → Transport I V → Transport I V
  unfolding step
  run [] t = t
  run (e ∷ es) t = run es (step e t)
