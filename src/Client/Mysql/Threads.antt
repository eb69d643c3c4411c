-- ===== src/Client/Mysql/Threads.antt =====
-- MySQLDBThread of percona_playback/mysql_client/mysql_client.cc as a client: its virtual members,
-- `run` and `test_connect`. mysql_thread_safe, mysql_library_init, mysql_thread_init and
-- mysql_thread_end are parameters.
use query_playback.Prelude.{ℕ, Bool, false, [], ◌∷◌, List, Option, none, some, ◌==◌}
use query_playback.Prelude.Int.{ℤ}
use query_playback.Text.{Bytes}
use query_playback.Result.{QueryResult, query_result}
use query_playback.Thread.{
  DbClient, QueryEntry, OrFinish, finish, with_finish, Outcome, waits, ends,
}
use query_playback.Thread
use query_playback.Client.Mysql.{
  MysqlOptions, Libmysql, MysqlThread, connect, disconnect, execute_query,
}

-- The functions of libmysqlclient that the threads and `processOptions` call around the queries, and
-- whether the constructor of boost::regex takes a text.
pub record Library (W : Type 0) : Type 0 where
  pub client : Libmysql W
  pub thread_safe : Bool
  pub library_init : W → ℤ × W
  pub thread_init : W → W
  pub thread_end : W → W
  pub regex_is_valid : Bytes → Bool

module _ {W : Type 0} (lib : Library W) (g_session_init_query : Bytes) where
  abbrev connect_if : MysqlOptions → Option (MysqlThread W) → Bool × Option (MysqlThread W)
  connect_if o none = (false, none)
  connect_if o (some s) = let (ok, t) = connect lib.client o s in (ok, some t)

  abbrev disconnect_if : MysqlOptions → Option (MysqlThread W) → Option (MysqlThread W)
  disconnect_if o none = none
  disconnect_if o (some s) = some (disconnect lib.client o s)

  abbrev with_result : Option (QueryResult × MysqlThread W) → QueryResult × Option (MysqlThread W)
  with_result none = (query_result, none)
  with_result (some (r, s)) = (r, some s)

  abbrev execute_if :
      MysqlOptions → ℕ → Bytes → Option (MysqlThread W) → QueryResult × Option (MysqlThread W)
  execute_if o depth query none = (query_result, none)
  execute_if o depth query (some s) =
      with_result (execute_query lib.client o g_session_init_query depth query s)

  -- The virtual members of MySQLDBThread. The state is `none` where `execute_query` is nested deeper
  -- than `depth`.
  abbrev pub mysql_client : MysqlOptions → ℕ → DbClient (Option (MysqlThread W))
  mysql_client o depth = record {
    connect = connect_if o;
    disconnect = disconnect_if o;
    execute_query = λ query expected s. execute_if o depth query s;
  }

  module _ (o : MysqlOptions) (depth : ℕ) {E : Type 0}
      (q : QueryEntry E (Option (MysqlThread W))) where
    abbrev after_run :
        Outcome (mysql_client o depth) g_session_init_query q → Option (MysqlThread W)
    after_run (waits s) = none
    after_run (ends none es) = none
    after_run (ends (some s) es) = some (record s { world = lib.thread_end s.world })

    -- MySQLDBThread::run on a thread that gets these entries: `none` where it does not end.
    unfoldable pub run : List E → MysqlThread W → Option (MysqlThread W)
    unfolding Thread.run
    run es s = after_run (
        Thread.run (mysql_client o depth) g_session_init_query q es
          (some (record s { have_connected = false; world = lib.thread_init s.world })))

  -- The FinishEntry alone, for a thread of any input plugin.
  abbrev finish_entry : QueryEntry (OrFinish Unit) (Option (MysqlThread W))
  finish_entry = with_finish (record {
    is_quit = λ e. false;
    is_shutdown = λ e. false;
    thread_id = λ e. 0;
    execute = λ db e s. s;
  })

  abbrev new_thread : W → MysqlThread W
  new_thread w = record { world = w; num_connect_errors = 0; have_connected = false; printed = [] }

  abbrev has_no_errors : Option (MysqlThread W) → Option (Bool × W)
  has_no_errors none = none
  has_no_errors (some s) = some (s.num_connect_errors == 0, s.world)

  unfoldable pub test_connect : MysqlOptions → ℕ → W → Option (Bool × W)
  unfolding run
  test_connect o depth w = has_no_errors (run o depth finish_entry (finish ∷ []) (new_thread w))
