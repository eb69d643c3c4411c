-- ===== src/QueryLog/Replay/Null.antt =====
-- What the simple report prints of a run with the null client.
use query_playback.Prelude.{
  ℕ, ◌≡◌, refl, ap, ap₂, ◌∙◌, sym, subst, Bool, true, false, not, ◌&&◌, List, [], ◌∷◌, All, ◌==◌,
  arith,
}
use query_playback.Prelude.Int.{ℤ, pos, is_zero, ◌-ℤ◌}
use query_playback.Text.{Bytes}
use query_playback.QueryLog.Data.{Libc}
use query_playback.QueryLog.Entries.{QueryLogEntry}
use query_playback.QueryLog.Execute.{Options, Clock}
use query_playback.QueryLog.Execute.Reports.{simple_plugin}
use query_playback.QueryLog.Replay.{World, play}
use query_playback.QueryLog.Replay.Trace.{play-Trace}
use query_playback.Client.Null.{null_client}
use query_playback.Report.{Execution, add_word}
use query_playback.Report.Simple.{SimpleReport, simple_report, query_execution, bump_if}
use query_playback.Report.Simple.Totals.{report_of}
use query_playback.Report.Simple.Printed.{print_report, difference}

-- The answer is what the log says.
abbrev IsExpected : Execution → Type 0
IsExpected x = (x.actual.error ≡ pos 0) × (x.actual.rows_sent ≡ x.expected.rows_sent)

record IsQuiet (r : SimpleReport) : Type 0 where
  no_errors : r.nr_error_queries ≡ 0
  no_differences : r.nr_queries_rows_differ ≡ 0
  same_rows : r.nr_expected_rows_sent ≡ r.nr_actual_rows_sent

no_row_differs : (ignore : Bool) (n m : ℕ) → n ≡ m → (not ignore && not (n == m)) ≡ false
no_row_differs true n m h = refl
no_row_differs false n m h = ground arith

report_of-IsQuiet :
    (ignore : Bool) (xs : List Execution) → All IsExpected xs → IsQuiet (report_of ignore xs)
unfolding query_execution
report_of-IsQuiet ignore [] h = record { no_errors = refl; no_differences = refl; same_rows = refl }
report_of-IsQuiet ignore (x ∷ xs) h =
    let v = report_of-IsQuiet ignore xs h.1 in
    let r = report_of ignore xs in
    record {
      no_errors = ap (λ (e : ℤ). bump_if (not (is_zero e)) r.nr_error_queries) h.0.0 ∙ v.no_errors;
      no_differences =
          ap (λ (b : Bool). bump_if b r.nr_queries_rows_differ)
            (no_row_differs r.ignore_row_result_diffs x.actual.rows_sent x.expected.rows_sent h.0.1)
          ∙ v.no_differences;
      same_rows = ap₂ add_word v.same_rows (sym h.0.1);
    }

difference_self : (n : ℕ) → difference n n ≡ 0
unfolding ◌-ℤ◌
difference_self n = ground arith

-- With the null client, which answers what the log says, whatever entries of a slow query log the
-- threads run, in whatever order and with whatever options: the simple report that is printed has no
-- errors, no queries with a difference in rows, and no difference between the sums of the rows.
pub play-null_client :
    (libc : Libc) (options : Options) (clocks : ℕ → Clock) (init : Bytes) (ignore show : Bool)
    (es : List QueryLogEntry) (w : World Unit SimpleReport)
    → w.reports ≡ simple_report ignore
    → let p =
        print_report show
          (play libc options (simple_plugin ∷ []) clocks null_client init es w).reports in
      (p.errors ≡ 0) × (p.differing_rows ≡ 0) × (p.rows_difference ≡ 0)
unfolding print_report
play-null_client libc options clocks init ignore show es w fresh =
    let t =
      play-Trace libc options clocks null_client init IsExpected
        (λ id query expected c took e. (e, refl)) ignore es w [] fresh tt in
    let v = subst IsQuiet (sym t.is_report) (report_of-IsQuiet ignore t.ys t.answered) in
    let r = (play libc options (simple_plugin ∷ []) clocks null_client init es w).reports in
    (
      v.no_errors,
      v.no_differences,
      ap (λ (n : ℕ). difference n r.nr_actual_rows_sent) v.same_rows
          ∙ difference_self r.nr_actual_rows_sent,
    )
