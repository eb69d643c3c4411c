-- ===== src/Tests/Pipeline.antt =====
-- A log of one query, from its bytes to its execution, and the plugin that reads it.
use query_playback.Prelude.{
  ◌+◌, ◌≡◌, refl, true, false, [], ◌∷◌, List, Option, some, length, ◌==◌, Bool-cases, inl, inr,
  arith,
}
use query_playback.Prelude.Int.{pos, ◌-ℤ◌, ◌*ℤ◌}
use query_playback.Result.{RunResult}
use query_playback.Text
use query_playback.Text.{Bytes, codes}
use query_playback.Table.{find, set}
use query_playback.QueryLog.Readline.{StringRef}
use query_playback.QueryLog.Data.{
  Libc, QueryLogData, query_log_data, parse_query_time_us, parse_thread_id, thread_id_in,
}
use query_playback.QueryLog.Scan.{Scan, scan_log}
use query_playback.QueryLog.Entries.{QueryLogEntry, get_thread_id}
use query_playback.QueryLog.Entries.Marks.{is_shutdown, entry_refs}
use query_playback.QueryLog.Plugin.{query_log_plugin, cannot_open, run}
use query_playback.QueryLog.Plugin.Results.{has_entries, IsGiven, ends_with, run-IsGiven}
use query_playback.QueryLog.Plugin.Pipeline.{
  dispatched, IsHandedOut, dispatched-IsHandedOut, log_refs, log-executed,
}
use query_playback.Dispatch.PerConnection.{System, create, push, work}
use query_playback.Dispatch.PerConnection.Steps.{Reach, here, next, creates, pushes, works, of_conn}
use query_playback.Dispatch.PerConnection.Invariant.{started}
use query_playback.Dispatch.PerConnection.Outcome.{IsDone}

abbrev pub flat_libc : Libc
flat_libc = record {
  strtod_us = λ s. pos 0;
  sscanf_time = λ s. record {
    num_read = 0;
    td = record {
      tm_year = pos 0;
      tm_mon = pos 0;
      tm_mday = pos 0;
      tm_hour = pos 0;
      tm_min = pos 0;
      tm_sec = pos 0;
    };
    msecs = pos 0;
  };
  mktime = λ t. pos 0;
}

abbrev pub one_query : StringRef
one_query = record { at = 9; text = codes "# T\nX\n" }

abbrev pub one_data : QueryLogData
one_data = record { data_ref = one_query; thread_id = 0; start_time = pos 0 }

abbrev pub one_scan : Scan
one_scan = record {
  current_timestamp = pos 0;
  accurate_mode = false;
  entries = one_data ∷ [];
  num_entries = 1;
  num_queries = 1;
}

abbrev pub one_entry : QueryLogEntry
one_entry = record { query = one_data; shutdown = true }

pub one_scanned : scan_log flat_libc false one_query ≡ some one_scan
unfolding scan_log query_log_data ◌-ℤ◌ ◌*ℤ◌ parse_query_time_us Text.find
one_scanned = refl

pub one_dispatched : dispatched flat_libc false false one_query ≡ some (one_entry ∷ [])
unfolding dispatched parse_thread_id query_log_data ◌-ℤ◌ ◌*ℤ◌ parse_query_time_us Text.find
    thread_id_in
one_dispatched = refl

dispatched-IsHandedOut_example :
    (st : Scan) × (out : List QueryLogEntry) × (scan_log flat_libc false one_query ≡ some st)
    × (dispatched flat_libc false false one_query ≡ some out)
    × IsHandedOut st out
dispatched-IsHandedOut_example = dispatched-IsHandedOut flat_libc false false one_query

abbrev pub played : System QueryLogEntry
played = record {
  pending = [];
  executors = (0, record { queries = []; running = false }) ∷ [];
  num_running = 1;
  executed = one_entry ∷ [];
}

pub played-Reach : Reach get_thread_id is_shutdown 1 (started (one_entry ∷ [])) played
unfolding find set create push work get_thread_id parse_thread_id thread_id_in Text.find
played-Reach =
    next
      (next (next here (creates one_entry [] refl refl refl))
        (pushes one_entry [] (record { queries = []; running = true }) refl refl (omega arith)))
      (works 0 one_entry [] (record { queries = one_entry ∷ []; running = true }) refl refl refl)

pub played-IsDone : IsDone played
unfolding find
played-IsDone =
    (refl, λ id t f. elim (Bool-cases (0 == id)) [ inl e ↦ ground arith | inr e ↦ ground arith ])

log-executed_example : entry_refs (of_conn get_thread_id 0 played.executed) ≡ log_refs 0 one_scan
log-executed_example =
    log-executed flat_libc false false one_query 1 one_scanned one_dispatched played-Reach
      played-IsDone 0

abbrev no_result : RunResult
no_result = record { err = pos 0; n_log_entries = 0; n_queries = 0 }

run-IsGiven_example :
    (given : Option (List QueryLogData)) × (after : RunResult) × (run flat_libc false false
        (λ qs n. some (n + length qs))
        (λ name. cannot_open)
        50
        (codes "# T\nX\n")
        (record query_log_plugin { std_in = true })
        no_result
        0
      ≡ ends_with flat_libc false false (λ qs n. some (n + length qs)) given after 0)
    × (has_entries given ≡ true)
    × IsGiven given no_result after
run-IsGiven_example =
    run-IsGiven flat_libc false false (λ qs n. some (n + length qs)) (λ name. cannot_open) 50
      (codes "# T\nX\n") (record query_log_plugin { std_in = true }) no_result 0
