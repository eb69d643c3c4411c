-- ===== src/Thread.antt =====
-- DBThread of percona_playback/db_thread.h and db_thread.cc, and the QueryEntry that it runs
-- (percona_playback/query_entry.h).
pub mod Run
use query_playback.Prelude.{ℕ, Bool, true, false, List, [], ◌∷◌, if◌then◌else◌}
use query_playback.Text.{Bytes, is_empty}
use query_playback.Result.{QueryResult, query_result}

-- The virtual members of a DBThread, on the state `S` of its connection.
pub record DbClient (S : Type 0) : Type 0 where
  pub connect : S → Bool × S
  pub disconnect : S → S
  -- the query and the expected result; the result that is left in `r`, which was `query_result`
  pub execute_query : Bytes → QueryResult → S → QueryResult × S

-- The virtual members of a QueryEntry of type `E`; `execute` runs it on a thread.
pub record QueryEntry (E S : Type 0) : Type 0 where
  pub is_quit : E → Bool
  pub is_shutdown : E → Bool
  pub thread_id : E → ℕ
  pub execute : DbClient S → E → S → S

-- FinishEntry, beside the entries of an input plugin.
pub data OrFinish (E : Type 0) : Type 0 where
  entry : E → OrFinish E
  finish : OrFinish E

module _ {E S : Type 0} (q : QueryEntry E S) where
  abbrev finish_is_quit : OrFinish E → Bool
  finish_is_quit (entry e) = q.is_quit e
  finish_is_quit finish = false

  abbrev finish_is_shutdown : OrFinish E → Bool
  finish_is_shutdown (entry e) = q.is_shutdown e
  finish_is_shutdown finish = true

  abbrev finish_thread_id : OrFinish E → ℕ
  finish_thread_id (entry e) = q.thread_id e
  finish_thread_id finish = 0

  abbrev finish_execute : DbClient S → OrFinish E → S → S
  finish_execute db (entry e) s = q.execute db e s
  finish_execute db finish s = s

  abbrev pub with_finish : QueryEntry (OrFinish E) S
  with_finish = record {
    is_quit = finish_is_quit;
    is_shutdown = finish_is_shutdown;
    thread_id = finish_thread_id;
    execute = finish_execute;
  }

module _ {S : Type 0} (db : DbClient S) (g_session_init_query : Bytes) where
  unfoldable pub init_session : S → S
  init_session s =
      if is_empty g_session_init_query
      then s
      else (db.execute_query g_session_init_query query_result s).1

  abbrev init_if : Bool × S → Bool × S
  init_if (ok, s) = if ok then (true, init_session s) else (false, s)

  unfoldable pub connect_and_init_session : S → Bool × S
  unfolding init_session
  connect_and_init_session s = init_if (db.connect s)

  module _ {E : Type 0} (q : QueryEntry E S) where
    -- The body of the loop of `run` on one entry.
    unfoldable pub run_entry : E → S → S
    unfolding connect_and_init_session
    run_entry e s =
        if q.is_quit e then (connect_and_init_session (db.disconnect s)).1 else q.execute db e s

    -- `run` on the entries that its queue has so far: the thread waits for more, or it has ended,
    -- with its entries that nobody will take.
    pub data Outcome : Type 0 where
      waits : S → Outcome
      ends : S → List E → Outcome

    unfoldable pub run : List E → S → Outcome
    unfolding run_entry
    run [] s = waits s
    run (e ∷ es) s =
        let s' = run_entry e s in
        let rest = run es s' in if q.is_shutdown e then ends (db.disconnect s') es else rest
