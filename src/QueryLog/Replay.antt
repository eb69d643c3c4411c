-- ===== src/QueryLog/Replay.antt =====
-- The entries of the slow query log run by the threads: QueryLogEntry of
-- percona_playback/query_log/query_log.h as the QueryEntry of DBThread::run, on the connection of
-- the thread and the state that all threads share. A step of a thread is one step here; what the
-- clocks say in each of them is a parameter.
pub mod Connections
pub mod Trace
pub mod Reported
pub mod Null
pub mod Planned
pub mod Paced
use query_playback.Prelude.{
  ℕ, ◌+◌, Bool, true, false, List, [], ◌∷◌, Option, none, some, ◌==◌, if◌then◌else◌,
}
use query_playback.Text.{Bytes}
use query_playback.Thread.{DbClient, QueryEntry, run_entry}
use query_playback.QueryLog.Data.{Libc, is_quit}
use query_playback.QueryLog.Entries.{QueryLogEntry, get_thread_id}
use query_playback.QueryLog.Execute.{Options, Clock, Pace, ReportPlugin, Executed, execute}

-- What a thread works on: its connection, and what it shares with the others.
pub record OnThread (S R : Type 0) : Type 0 where
  pub connection : S
  pub turn : ℕ
  pub paced : Pace
  pub reports : R

-- The whole program: the connection of every thread. `turn` counts the queries, for the clocks.
pub record World (S R : Type 0) : Type 0 where
  pub connections : ℕ → S
  pub turn : ℕ
  pub paced : Pace
  pub reports : R

module _ {S R : Type 0} where
  -- A client changes nothing but the connection.
  abbrev with_connection : OnThread S R → Bool × S → Bool × OnThread S R
  with_connection t (ok, s) = (ok, record t { connection = s })

  abbrev pub on_connection : DbClient S → DbClient (OnThread S R)
  on_connection db = record {
    connect = λ t. with_connection t (db.connect t.connection);
    disconnect = λ t. record t { connection = db.disconnect t.connection };
    execute_query = λ query expected t.
        let (r, s) = db.execute_query query expected t.connection in
        (r, record t { connection = s });
  }

  -- The `disconnect` behind the loop of `run`.
  abbrev pub disconnect_if : DbClient S → Bool → OnThread S R → OnThread S R
  disconnect_if db true t = record t { connection = db.disconnect t.connection }
  disconnect_if db false t = t

  -- What a thread holds behind `execute`, which always ends.
  abbrev pub after_execute : OnThread S R → Option (Executed (OnThread S R) R) → OnThread S R
  after_execute t none = t
  after_execute t (some x) = record x.connection {
    turn = t.turn + 1;
    paced = x.paced;
    reports = x.reports;
  }

  abbrev pub thread_of : ℕ → World S R → OnThread S R
  thread_of id w = record {
    connection = w.connections id;
    turn = w.turn;
    paced = w.paced;
    reports = w.reports;
  }

  abbrev pub leave : ℕ → OnThread S R → World S R → World S R
  leave id t w = record {
    connections = λ i. if id == i then t.connection else w.connections i;
    turn = t.turn;
    paced = t.paced;
    reports = t.reports;
  }

module _ {S R : Type 0} (libc : Libc) (options : Options) (plugins : List (ReportPlugin R))
    (clocks : ℕ → Clock) where
  -- The virtual members of QueryLogEntry.
  abbrev pub query_log_entry : QueryEntry QueryLogEntry (OnThread S R)
  query_log_entry = record {
    is_quit = λ e. is_quit e.query;
    is_shutdown = λ e. e.shutdown;
    thread_id = get_thread_id;
    execute = λ db e t.
        after_execute t
          (execute libc options plugins db (clocks t.turn) e.query t.paced t t.reports);
  }

  module _ (db : DbClient S) (g_session_init_query : Bytes) where
    -- One round of the loop of `run`, and what is behind the loop when it ends.
    unfoldable pub run_one : QueryLogEntry → OnThread S R → OnThread S R
    unfolding run_entry execute
    run_one e t =
        disconnect_if db e.shutdown
          (run_entry (on_connection db) g_session_init_query query_log_entry e t)

    unfoldable pub play_entry : QueryLogEntry → World S R → World S R
    unfolding run_one
    play_entry e w = let id = get_thread_id e in leave id (run_one e (thread_of id w)) w

    -- The entries in the order in which the threads run them.
    abbrev pub play : List QueryLogEntry → World S R → World S R
    play [] w = w
    play (e ∷ es) w = play es (play_entry e w)
