-- ===== src/QueryLog/Execute.antt =====
-- `QueryLogData::execute` of percona_playback/query_log/query_log.cc. What the clocks say is a
-- parameter, and the update of `g_max_behind_ns` is one step, as its compare-and-exchange makes it.
pub mod Pacing
pub mod Reports
use query_playback.Prelude.{
  ℕ, Bool, true, false, not, ◌&&◌, List, [], ◌∷◌, Option, none, some, if◌then◌else◌,
}
use query_playback.Prelude.Int.{ℤ, pos, ◌+ℤ◌, ◌-ℤ◌, ltb_ℤ}
use query_playback.Text.{Bytes}
use query_playback.Result.{QueryResult, query_result}
use query_playback.Thread.{DbClient}
use query_playback.QueryLog.Data.{
  Libc, QueryLogData, text_of, parse_rows_sent, parse_rows_examined, parse_query_time_us,
  parse_thread_id, get_query,
}
use query_playback.Report.{Execution}

-- The options g_run_set_timestamp, g_accurate_mode and g_preserve_query_time.
pub record Options : Type 0 where
  pub run_set_timestamp : Bool
  pub accurate_mode : Bool
  pub preserve_query_time : Bool

-- What system_clock says when the offset is fixed and when the pause is computed, in nanoseconds,
-- and microsec_clock before and after the query.
pub record Clock : Type 0 where
  pub first_now : ℤ
  pub now : ℤ
  pub start_time : ℤ
  pub end_time : ℤ

-- `first_query_exec_offset`, once it is initialised, and `g_max_behind_ns`.
pub record Pace : Type 0 where
  pub first_query_exec_offset : Option ℤ
  pub max_behind_ns : ℤ

-- A ReportPlugin: whether it is active, and its `query_execution` on the state of the reports.
pub record ReportPlugin (R : Type 0) : Type 0 where
  pub active : Bool
  pub query_execution : Execution → R → R

abbrev pub offset_or : ℤ → Option ℤ → ℤ
offset_or first none = first
offset_or first (some o) = o

-- The pause of the accurate mode, `time_diff`, and what it leaves.
unfoldable pub pace : Clock → QueryLogData → Pace → ℤ × Pace
pace clock q p =
    let offset = offset_or (clock.first_now -ℤ q.start_time) p.first_query_exec_offset in
    let time_diff = q.start_time +ℤ offset -ℤ clock.now in
    let behind = pos 0 -ℤ time_diff in
    (
      time_diff,
      record {
        first_query_exec_offset = some offset;
        max_behind_ns = if ltb_ℤ p.max_behind_ns behind then behind else p.max_behind_ns;
      },
    )

unfoldable pub expected_result : Libc → QueryLogData → QueryResult
expected_result libc q = record query_result {
  rows_sent = parse_rows_sent q;
  rows_examined = parse_rows_examined q;
  error = pos 0;
  duration = parse_query_time_us libc (text_of q);
}

-- The argument of the usleep behind the query.
unfoldable pub sleep_after : Bool → ℤ → ℤ → Option ℤ
sleep_after preserve_query_time expected_duration took =
    if preserve_query_time && ltb_ℤ took expected_duration
    then some (expected_duration -ℤ took)
    else none

-- The loop over `report_plugins`.
unfoldable pub report_all : {R : Type 0} → List (ReportPlugin R) → Execution → R → R
report_all [] x r = r
report_all (p ∷ ps) x r = report_all ps x (if p.active then p.query_execution x r else r)

-- What `execute` leaves: the pauses before and behind the query, and the states of the pace, the
-- connection and the reports.
pub record Executed (S R : Type 0) : Type 0 where
  pub slept_before : Option ℤ
  pub slept_after : Option ℤ
  pub paced : Pace
  pub connection : S
  pub reports : R

abbrev pub pace_if : Bool → Clock → QueryLogData → Pace → Option ℤ × Pace
pace_if accurate_mode clock q p =
    let (time_diff, p') = pace clock q p in
    if accurate_mode then (some time_diff, p') else (none, p)

module _ {S R : Type 0} (libc : Libc) (options : Options) (plugins : List (ReportPlugin R)) where
  -- The part behind `getQuery`, with its text.
  unfoldable pub execute_text :
      DbClient S → Clock → QueryLogData → Bytes → Pace → S → R → Executed S R
  unfolding pace sleep_after expected_result report_all
  execute_text db clock q query p s reports =
      let expected = expected_result libc q in
      let (slept, p') = pace_if options.accurate_mode clock q p in
      let (r, s') = db.execute_query query expected s in
      let took = clock.end_time -ℤ clock.start_time in
      record {
        slept_before = slept;
        slept_after = sleep_after options.preserve_query_time expected.duration took;
        paced = p';
        connection = s';
        reports =
            report_all plugins
              (record {
                thread_id = (parse_thread_id q).0;
                query = query;
                expected = expected;
                actual = record r { duration = took };
              })
              reports;
      }

  abbrev pub with_query : (Bytes → Executed S R) → Option Bytes → Option (Executed S R)
  with_query f none = none
  with_query f (some query) = some (f query)

  unfoldable pub execute : DbClient S → Clock → QueryLogData → Pace → S → R → Option (Executed S R)
  unfolding execute_text
  execute db clock q p s reports =
      with_query (λ query. execute_text db clock q query p s reports)
        (get_query (not options.run_set_timestamp) q)
