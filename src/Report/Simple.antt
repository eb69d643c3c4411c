-- ===== src/Report/Simple.antt =====
-- SimpleReportPlugin of percona_playback/simple_report/simple_report.cc.
pub mod Totals
pub mod Options
pub mod Printed
use query_playback.Prelude.Int.{is_zero}
use query_playback.Prelude.{
  ℕ, ◌+◌, Bool, true, false, not, ◌&&◌, List, [], ◌∷◌, Option, none, some, length, ◌==◌,
  if◌then◌else◌,
}
use query_playback.Table.{find, set}
use query_playback.Report.{add_word, to_word, Execution, has_expected, is_faster}

pub record SimpleReport : Type 0 where
  pub nr_expected_rows_sent : ℕ
  pub nr_actual_rows_sent : ℕ
  pub nr_queries_rows_differ : ℕ
  pub nr_queries_executed : ℕ
  pub nr_error_queries : ℕ
  pub total_execution_time_ms : ℕ
  pub expected_total_execution_time_ms : ℕ
  pub nr_quicker_queries : ℕ
  pub nr_slower_queries : ℕ
  pub connection_query_counts : List (ℕ × ℕ)
  pub ignore_row_result_diffs : Bool

-- The constructor, with the option as it is parsed later.
abbrev pub simple_report : Bool → SimpleReport
simple_report ignore = record {
  nr_expected_rows_sent = 0;
  nr_actual_rows_sent = 0;
  nr_queries_rows_differ = 0;
  nr_queries_executed = 0;
  nr_error_queries = 0;
  total_execution_time_ms = 0;
  expected_total_execution_time_ms = 0;
  nr_quicker_queries = 0;
  nr_slower_queries = 0;
  connection_query_counts = [];
  ignore_row_result_diffs = ignore;
}

abbrev pub has_error : Execution → Bool
has_error x = not (is_zero x.actual.error)

abbrev pub rows_differ : Bool → Execution → Bool
rows_differ ignore x = not ignore && not (x.actual.rows_sent == x.expected.rows_sent)

-- One more where the test passes.
abbrev pub bump_if : Bool → ℕ → ℕ
bump_if b n = if b then add_word n 1 else n

-- `insert` of a zero where the key is missing, and then the increment.
abbrev pub count_of : Option ℕ → ℕ
count_of none = 0
count_of (some n) = n

unfoldable pub count_connection : ℕ → List (ℕ × ℕ) → List (ℕ × ℕ)
count_connection thread_id counts =
    set thread_id (add_word (count_of (find thread_id counts)) 1) counts

unfoldable pub query_execution : Execution → SimpleReport → SimpleReport
unfolding count_connection
query_execution x r = record r {
  nr_expected_rows_sent = add_word r.nr_expected_rows_sent x.expected.rows_sent;
  nr_actual_rows_sent = add_word r.nr_actual_rows_sent x.actual.rows_sent;
  nr_queries_rows_differ =
      bump_if (rows_differ r.ignore_row_result_diffs x) r.nr_queries_rows_differ;
  nr_queries_executed = add_word r.nr_queries_executed 1;
  nr_error_queries = bump_if (has_error x) r.nr_error_queries;
  total_execution_time_ms = add_word r.total_execution_time_ms (to_word x.actual.duration);
  expected_total_execution_time_ms =
      if has_expected x
      then add_word r.expected_total_execution_time_ms (to_word x.expected.duration)
      else r.expected_total_execution_time_ms;
  nr_quicker_queries = bump_if (has_expected x && is_faster x) r.nr_quicker_queries;
  nr_slower_queries = bump_if (has_expected x && not (is_faster x)) r.nr_slower_queries;
  connection_query_counts = count_connection x.thread_id r.connection_query_counts;
}
