-- ===== src/Tests/Execute.antt =====
-- Two queries executed.
use query_playback.Prelude.{true, false, none}
use query_playback.Prelude.Int.{ℤ, pos}
use query_playback.Text.{codes}
use query_playback.QueryLog.Data.{Libc, QueryLogData}
use query_playback.QueryLog.Execute.{Options, Clock, Pace}

abbrev some_query : ℤ → QueryLogData
some_query time = record {
  data_ref = record { at = 8; text = codes "# User@Host: a\n# Rows_sent: 3\nSELECT 1;\n" };
  thread_id = 0;
  start_time = time;
}

abbrev clock : ℤ → Clock
clock now = record { first_now = pos 50; now = now; start_time = pos 10; end_time = pos 25 }

abbrev no_pace : Pace
no_pace = record { first_query_exec_offset = none; max_behind_ns = pos 0 }

abbrev all_options : Options
all_options = record { run_set_timestamp = false; accurate_mode = true; preserve_query_time = true }

abbrev some_libc : Libc
some_libc = record {
  strtod_us = λ s. pos 0;
  sscanf_time = λ s. record {
    num_read = 0;
    td = record {
      tm_year = pos 0;
      tm_mon = pos 0;
      tm_mday = pos 0;
      tm_hour = pos 0;
      tm_min = pos 0;
      tm_sec = pos 0;
    };
    msecs = pos 0;
  };
  mktime = λ t. pos 0;
}
