-- ===== src/QueryLog/Entries.antt =====
-- QueryLogEntries of percona_playback/query_log/query_log.h: `popEntry`, and
-- `setShutdownOnLastQueryOfConn` of query_log.cc. A set is the list of what was put in.
pub mod Shutdown
pub mod Marks
use query_playback.Prelude.{
  contains, ℕ, zero, suc, Bool, true, false, ◌||◌, List, [], ◌∷◌, ◌++◌, Option, none, some, ◌==◌,
  if◌then◌else◌,
}
use query_playback.QueryLog.Data.{QueryLogData, parse_thread_id}

-- QueryLogEntry: the data of a query, and the flag of its QueryEntry.
pub record QueryLogEntry : Type 0 where
  pub query : QueryLogData
  pub shutdown : Bool

-- `getThreadId`
unfoldable pub get_thread_id : QueryLogEntry → ℕ
unfolding parse_thread_id
get_thread_id e = (parse_thread_id e.query).0

pub record QueryLogEntries : Type 0 where
  pub entries : List QueryLogData
  -- the addresses of the texts
  pub last_query_of_conn : List ℕ

-- `popEntry`: the next entry, or a null pointer.
pop_front : List QueryLogData → List ℕ → Option QueryLogEntry × QueryLogEntries
pop_front [] last = (none, record { entries = []; last_query_of_conn = last })
pop_front (q ∷ qs) last = (
  some (record { query = q; shutdown = contains last q.data_ref.at }),
  record { entries = qs; last_query_of_conn = last },
)

unfoldable pub pop_entry : QueryLogEntries → Option QueryLogEntry × QueryLogEntries
unfolding pop_front
pop_entry es = pop_front es.entries es.last_query_of_conn

-- What the loop has when it has passed the entries from the back on: the entries, with their caches
-- filled in, the thread ids seen and the addresses kept.
pub record Marked : Type 0 where
  pub passed : List QueryLogData
  pub thread_ids : List ℕ
  pub last : List ℕ

abbrev pub mark_one : QueryLogData → Marked → Marked
mark_one q m =
    let (id, q') = parse_thread_id q in
    if contains m.thread_ids id then record m { passed = q' ∷ m.passed } else record {
      passed = q' ∷ m.passed;
      thread_ids = id ∷ m.thread_ids;
      last = q'.data_ref.at ∷ m.last;
    }

-- The loop runs from the last entry to the first.
unfoldable pub mark : List QueryLogData → List ℕ → Marked
mark [] last = record { passed = []; thread_ids = []; last = last }
mark (q ∷ qs) last = mark_one q (mark qs last)

unfoldable pub set_shutdown_on_last_query_of_conn : QueryLogEntries → QueryLogEntries
unfolding mark
set_shutdown_on_last_query_of_conn es =
    let m = mark es.entries es.last_query_of_conn in
    record { entries = m.passed; last_query_of_conn = m.last }

-- `while (entry = popEntry())`: all the entries that are handed out; `none` when the fuel runs out.
abbrev and_then : Option (List QueryLogEntry) → Option QueryLogEntry → Option (List QueryLogEntry)
and_then rest none = some []
and_then none (some e) = none
and_then (some es) (some e) = some (e ∷ es)

unfoldable pub pop_all : ℕ → QueryLogEntries → Option (List QueryLogEntry)
unfolding pop_entry
pop_all zero es = none
pop_all (suc fuel) es = let (e, es') = pop_entry es in and_then (pop_all fuel es') e
