-- ===== src/Dispatch/PerConnection.antt =====
-- ThreadPerConnectionDispatcher of percona_playback/thread_per_connection: `dispatch` and
-- `finish_some_and_go`, interleaved with the threads that they start. A thread is the queue that it
-- takes its entries from (tbb::concurrent_bounded_queue: a push waits while the queue holds
-- `depth` entries, a pop waits while it is empty) and whether it is still running.
pub mod Steps
pub mod Effects
pub mod Kept
pub mod Invariant
pub mod Outcome
pub mod Count
pub mod Progress
pub mod Refinement
pub mod Marking
pub mod Threads
pub mod Sizes
pub mod Ends
use query_playback.Prelude.{
  ℕ, ◌+◌, ◌-◌, ◌≤◌, ◌<◌, ◌≡◌, Bool, true, false, not, ◌&&◌, List, [], ◌∷◌, ◌++◌, Option, none, some,
  length, ltb, if◌then◌else◌,
}
use query_playback.Table.{find, set, retain}

pub record DbThread (E : Type 0) : Type 0 where
  pub queries : List E
  pub running : Bool

-- The state of the program between two steps of its threads. `pending` is what `popEntry` will still
-- hand out, and `executed` is what has been executed, in that order.
pub record System (E : Type 0) : Type 0 where
  pub pending : List E
  pub executors : List (ℕ × DbThread E)
  pub num_running : ℕ
  pub executed : List E

abbrev pub DbExecutorsTable : Type 0 → Type 0
DbExecutorsTable E = List (ℕ × DbThread E)

-- `num_running > 10000`: the loop waits for threads to end.
abbrev pub too_many : ℕ → Bool
too_many num_running = ltb 10000 num_running

module _ {E : Type 0} where
  -- `g_dbclient_plugin->create(thread_id)` and `start_thread()`.
  abbrev pub start_thread : DbThread E
  start_thread = record { queries = []; running = true }

  -- The entry of `executors` where the dispatcher found a null pointer.
  unfoldable pub create : ℕ → System E → System E
  create thread_id s = record s {
    executors = set thread_id start_thread s.executors;
    num_running = s.num_running + 1;
  }

  -- `db_thread->queries->push(query_entry)`, when the queue has room.
  unfoldable pub push : ℕ → DbThread E → E → List E → System E → System E
  push thread_id t e rest s = record s {
    pending = rest;
    executors = set thread_id (record t { queries = t.queries ++ e ∷ [] }) s.executors;
  }

  -- What `nonblocking_join` says of a thread: `joins` is whether the wait was long enough, and a
  -- thread that runs is never joined.
  abbrev pub is_joined : (ℕ → Bool) → ℕ × DbThread E → Bool
  is_joined joins (id, t) = not t.running && joins id

  abbrev pub is_left : (ℕ → Bool) → ℕ × DbThread E → Bool
  is_left joins it = not (is_joined joins it)

  abbrev pub count_joined : (ℕ → Bool) → DbExecutorsTable E → ℕ
  count_joined joins [] = 0
  count_joined joins (it ∷ t) = (if is_joined joins it then 1 else 0) + count_joined joins t

  -- `finish_some_and_go`: the threads that are joined are erased, and not counted any more.
  unfoldable pub finish_some_and_go : (ℕ → Bool) → System E → System E
  finish_some_and_go joins s = record s {
    executors = retain (is_left joins) s.executors;
    num_running = s.num_running - count_joined joins s.executors;
  }

  -- A thread runs the first entry of its queue (`run` of DBThread), and ends if that shuts it down.
  unfoldable pub work : (E → Bool) → ℕ → E → List E → System E → System E
  work is_shutdown thread_id e rest s = record s {
    executors =
        set thread_id (record { queries = rest; running = not (is_shutdown e) }) s.executors;
    executed = s.executed ++ e ∷ [];
  }
