-- ===== src/Port/Server.antt =====
-- packages/ipfs-message-port-server/src/server.js. Each `await` ends a step. The services are outside:
-- what they resolve or reject is an event, and so is the end of the microtask behind `await this.run`.
-- The ids of queries are numbers, and no two queries have one id.
pub mod Agreement
pub mod Answers
mod Tests
use js_ipfs.Prelude.{
  ℕ, Bool, true, false, not, Option, none, some, List, [], ◌∷◌, ◌++◌, ◌==◌, nat_eq, if◌then◌else◌,
  lookup, insert, is_some, ◌&&◌,
}

-- How far `handleQuery` is: before the microtask behind `await this.run(query)`, at `await
-- query.result`, or at its end.
pub data Phase : Type 0 where
  running awaiting ended : Phase

abbrev pub is_running : Phase → Bool
is_running running = true
is_running awaiting = false
is_running ended = false

abbrev pub is_awaiting : Phase → Bool
is_awaiting running = false
is_awaiting awaiting = true
is_awaiting ended = false

-- What a promise is settled with.
pub data Outcome (V : Type 0) : Type 0 where
  succeeds : V → Outcome V
  fails : V → Outcome V
  abort_error : Outcome V

pub record Query (V : Type 0) : Type 0 where
  pub phase : Phase
  pub aborted : Bool
  pub result : Option (Outcome V)

-- `queries` are the query objects, of which `table` names those in the dictionary of the server;
-- `posted` are the messages of type `result`.
pub record Server (V : Type 0) : Type 0 where
  pub queries : List (ℕ × Query V)
  pub table : List ℕ
  pub posted : List (ℕ × Outcome V)

abbrev pub listed : ℕ → List ℕ → Bool
listed id [] = false
listed id (j ∷ ids) = if j == id then true else listed id ids

abbrev pub unlisted : ℕ → List ℕ → List ℕ
unlisted id [] = []
unlisted id (j ∷ ids) = if j == id then unlisted id ids else j ∷ unlisted id ids

-- A promise keeps its first outcome.
abbrev pub settled : {V : Type 0} → Option (Outcome V) → Outcome V → Option (Outcome V)
settled none o = some o
settled (some p) o = some p

pub data Event (V : Type 0) : Type 0 where
  receives : ℕ → Option V → Event V
  resumes aborts replies : ℕ → Event V
  settles : ℕ → Outcome V → Event V

module _ {V : Type 0} where
  pub new_server : Server V
  new_server = record { queries = []; table = []; posted = [] }

  -- `handleQuery` up to its first `await`; `thrown` is what `run` fails the query with at once.
  pub handle_query : ℕ → Option V → Server V → Server V
  handle_query id thrown s = record {
    queries =
        insert id
          (record {
            phase = running;
            aborted = false;
            result = elim thrown [ none ↦ none | some e ↦ some (fails e) ];
          })
          s.queries;
    table = id ∷ s.table;
    posted = s.posted;
  }

  -- From the first `await` to the second, or to the end when the query was aborted.
  pub resume : ℕ → Query V → Server V → Server V
  resume id q s = record {
    queries = insert id (record q { phase = if q.aborted then ended else awaiting }) s.queries;
    table = unlisted id s.table;
    posted = s.posted;
  }

  -- From the second `await` to the end.
  pub reply : ℕ → Query V → Outcome V → Server V → Server V
  reply id q o s = record {
    queries = insert id (record q { phase = ended }) s.queries;
    table = s.table;
    posted = s.posted ++ (id, o) ∷ [];
  }

  -- `await query.result` ends when the promise is settled.
  pub answer : Option (Outcome V) → ℕ → Query V → Server V → Server V
  unfolding reply
  answer none id q s = s
  answer (some o) id q s = if is_awaiting q.phase then reply id q o s else s

  -- `query.succeed` or `query.fail`, by the service
  pub settle : ℕ → Outcome V → Query V → Server V → Server V
  settle id o q s = record s {
    queries = insert id (record q { result = settled q.result o }) s.queries;
  }

  -- `Server.abort`, and `Query.abort` in it
  pub abort : ℕ → Query V → Server V → Server V
  abort id q s =
      if listed id s.table
      then record {
        queries =
            insert id (record q { aborted = true; result = settled q.result abort_error })
              s.queries;
        table = unlisted id s.table;
        posted = s.posted;
      }
      else s

  -- An event of a query that was received; a step that the code can not take at this point leaves the
  -- server as it is.
  pub step_query : Event V → ℕ → Query V → Server V → Server V
  unfolding resume answer settle abort
  step_query (receives j thrown) id q s = s
  step_query (resumes j) id q s = if is_running q.phase then resume id q s else s
  step_query (aborts j) id q s = abort id q s
  step_query (replies j) id q s = answer q.result id q s
  step_query (settles j o) id q s = settle id o q s

  abbrev pub query_of : Event V → ℕ
  query_of (receives j thrown) = j
  query_of (resumes j) = j
  query_of (aborts j) = j
  query_of (replies j) = j
  query_of (settles j o) = j

  abbrev pub step_new : Event V → Server V → Server V
  step_new (receives j thrown) s = handle_query j thrown s
  step_new (resumes j) s = s
  step_new (aborts j) s = s
  step_new (replies j) s = s
  step_new (settles j o) s = s

  pub step : Event V → Server V → Server V
  unfolding handle_query step_query
  step e s = elim (lookup (query_of e) s.queries) [
    | none ↦ step_new e s
    | some q ↦ step_query e (query_of e) q s
  ]

  pub run : List (Event V) → Server V → Server V
  unfolding step
  run [] s = s
  run (e ∷ es) s = run es (step e s)
