-- ===== src/Result.antt =====
-- QueryResult of percona_playback/query_result.h. A duration is a count of microseconds, and the
-- setters and getters are the fields.
use query_playback.Prelude.{ℕ, Option, none, some}
use query_playback.Prelude.Int.{ℤ, pos}

pub record QueryResult : Type 0 where
  pub rows_sent : ℕ
  pub rows_examined : ℕ
  pub error : ℤ
  pub warning_count : ℤ
  pub duration : ℤ

-- The constructor, and the state after `clear`; a default time_duration is 0.
abbrev pub query_result : QueryResult
query_result = record {
  rows_sent = 0;
  rows_examined = 0;
  error = pos 0;
  warning_count = pos 0;
  duration = pos 0;
}

-- percona_playback_run_result of percona_playback/percona_playback.h.
pub record RunResult : Type 0 where
  pub err : ℤ
  pub n_log_entries : ℕ
  pub n_queries : ℕ

-- The result, with the world that the dispatcher leaves where it returns.
abbrev pub with_world : {W : Type 0} → RunResult → Option W → Option (RunResult × W)
with_world r none = none
with_world r (some w) = some (r, w)
