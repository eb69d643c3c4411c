-- ===== src/Tests/Replay.antt =====
-- A log of one query, executed by a client that notes what it is asked, and by the null client.
use query_playback.Prelude.{
  All, ◌⊎◌, ◌/◌, ◌*◌, ◌+◌, some, ℕ, ◌≡◌, refl, true, false, [], ◌∷◌, List, none, arith,
}
use query_playback.Prelude.Int.{pos, ℤ, ◌≤ℤ◌}
use query_playback.Text.{Bytes, codes}
use query_playback.Thread.{DbClient, QueryEntry}
use query_playback.QueryLog.Scan.{Scan, scan_log}
use query_playback.QueryLog.Entries.{QueryLogEntry}
use query_playback.QueryLog.Plugin.Pooled.{pooled, IsPooled, pooled-IsPooled}
use query_playback.Dispatch.Pool.{Workers}
use query_playback.QueryLog.Execute.{Options, Clock}
use query_playback.QueryLog.Execute.Reports.{simple_plugin}
use query_playback.QueryLog.Plugin.Pipeline.{log_refs}
use query_playback.QueryLog.Replay.{OnThread, World, on_connection, query_log_entry, play}
use query_playback.QueryLog.Replay.Connections.{replay, play-replay}
use query_playback.QueryLog.Replay.Reported.{IsReplayed, play-IsReplayed}
use query_playback.QueryLog.Replay.Null.{play-null_client}
use query_playback.QueryLog.Plugin.Delays.{print_report-plans}
use query_playback.QueryLog.Plugin.Delays as Delays
use query_playback.QueryLog.Replay.Planned.{accurate, IsAt, IsAttained, IsGreatest}
use query_playback.QueryLog.Replay.Paced.{plans, play-IsPaced}
use query_playback.Client.Null.{null_client}
use query_playback.Report.Simple.{SimpleReport, simple_report}
use query_playback.Report.Simple.Printed.{print_report}
use query_playback.Tests.Pipeline.{
  flat_libc, one_query, one_scan, one_entry, played, one_scanned, one_dispatched, played-Reach,
  played-IsDone,
}

-- Every connection is a list of notes, the last one first.
abbrev noting : DbClient (List Bytes)
noting = record {
  connect = λ s. (true, codes "connect" ∷ s);
  disconnect = λ s. codes "disconnect" ∷ s;
  execute_query = λ query expected s. (expected, query ∷ s);
}

abbrev as_fast : Options
as_fast = record { run_set_timestamp = false; accurate_mode = false; preserve_query_time = false }

abbrev standing : ℕ → Clock
standing n = record { first_now = pos 0; now = pos 0; start_time = pos 0; end_time = pos 0 }

abbrev fresh_world : {S : Type 0} → S → World S SimpleReport
fresh_world s = record {
  connections = λ id. s;
  turn = 0;
  paced = record { first_query_exec_offset = none; max_behind_ns = pos 0 };
  reports = simple_report false;
}

play-replay_example :
    (play flat_libc as_fast
        (simple_plugin ∷ [])
        standing
        noting
        []
        played.executed
        (fresh_world [])).connections
      0
    ≡ replay flat_libc as_fast noting [] (log_refs 0 one_scan) []
play-replay_example =
    play-replay flat_libc as_fast noting [] (simple_plugin ∷ []) standing false false one_query 1
      one_scanned one_dispatched played-Reach played-IsDone (fresh_world []) 0

play-IsReplayed_example : IsReplayed one_scan (
    print_report true
      (play flat_libc as_fast
        (simple_plugin ∷ [])
        standing
        noting
        []
        played.executed
        (fresh_world [])).reports)
play-IsReplayed_example =
    play-IsReplayed flat_libc as_fast standing false false one_query 1 one_scanned one_dispatched
      played-Reach played-IsDone (omega arith) noting [] false (fresh_world []) refl

play-null_client_example :
    let p =
      print_report false
        (play flat_libc as_fast
          (simple_plugin ∷ [])
          standing
          null_client
          []
          (one_entry ∷ one_entry ∷ [])
          (fresh_world tt)).reports in
    (p.errors ≡ 0) × (p.differing_rows ≡ 0) × (p.rows_difference ≡ 0)
play-null_client_example =
    play-null_client flat_libc as_fast standing [] false false (one_entry ∷ one_entry ∷ [])
      (fresh_world tt) refl

abbrev noted_entry : QueryEntry QueryLogEntry (OnThread (List Bytes) SimpleReport)
noted_entry = query_log_entry flat_libc as_fast (simple_plugin ∷ []) standing

pooled-IsPooled_example :
    (st : Scan) × (out : List QueryLogEntry) × (ws : Workers QueryLogEntry) × (scan_log flat_libc
        false one_query
      ≡ some st)
    × (pooled flat_libc false false one_query (λ id. id + 5) 2 ≡ some ws)
    × IsPooled (λ id. id + 5) 2 (on_connection noting) [] noted_entry st out ws
pooled-IsPooled_example =
    pooled-IsPooled flat_libc false false one_query (λ id. id + 5) 2 (on_connection noting) []
      noted_entry (omega arith) (λ e. refl)

abbrev late : ℕ → Clock
late n = record {
  first_now = pos 5;
  now = pos (7 + 9000000 * n);
  start_time = pos 0;
  end_time = pos 0;
}

print_report-plans_example :
    (k : ℕ) × (Delays.print_report true
        (play flat_libc
          (accurate as_fast)
          (simple_plugin ∷ [])
          late
          noting
          []
          (one_entry ∷ one_entry ∷ [])
          (fresh_world [])).paced
      ≡ some (pos (k / 1000000)))
    × All
        (λ p. p.behind ≤ℤ pos k)
        (plans flat_libc as_fast
          (simple_plugin ∷ [])
          late
          noting
          []
          (one_entry ∷ one_entry ∷ [])
          (fresh_world []))
    × ((k ≡ 0)
        ⊎ IsAttained (pos k) (
            plans flat_libc as_fast
              (simple_plugin ∷ [])
              late
              noting
              []
              (one_entry ∷ one_entry ∷ [])
              (fresh_world [])))
print_report-plans_example =
    print_report-plans flat_libc as_fast (simple_plugin ∷ []) late noting []
      (one_entry ∷ one_entry ∷ []) (fresh_world []) refl

play-IsPaced_example :
    ((o : ℤ) × All (IsAt o) (
        plans flat_libc as_fast
          (simple_plugin ∷ [])
          late
          noting
          []
          (one_entry ∷ one_entry ∷ [])
          (fresh_world [])))
    × IsGreatest
        (pos 0)
        (play flat_libc
          (accurate as_fast)
          (simple_plugin ∷ [])
          late
          noting
          []
          (one_entry ∷ one_entry ∷ [])
          (fresh_world [])).paced.max_behind_ns
        (plans flat_libc as_fast
          (simple_plugin ∷ [])
          late
          noting
          []
          (one_entry ∷ one_entry ∷ [])
          (fresh_world []))
play-IsPaced_example =
    play-IsPaced flat_libc as_fast (simple_plugin ∷ []) late noting [] (one_entry ∷ one_entry ∷ [])
      (fresh_world [])
