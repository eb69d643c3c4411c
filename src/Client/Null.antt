-- ===== src/Client/Null.antt =====
-- NULLDBThread of percona_playback/null_dbclient/null_dbclient.cc, which keeps no state.
use query_playback.Prelude.{true}
use query_playback.Thread.{DbClient}

abbrev pub null_client : DbClient Unit
null_client = record {
  connect = λ s. (true, s);
  disconnect = λ s. s;
  execute_query = λ query expected_result s. (expected_result, s);
}
