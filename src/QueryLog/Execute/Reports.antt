-- ===== src/QueryLog/Execute/Reports.antt =====
-- A query executed with the null client, and the simple report of it.
use query_playback.Prelude.{
  ℕ, List, ◌≡◌, refl, Bool, true, false, not, ◌&&◌, [], ◌∷◌, Option, some, ◌==◌, ap, arith,
}
use query_playback.Text.{Bytes}
use query_playback.QueryLog.Data.{Libc, QueryLogData, text_of}
use query_playback.QueryLog.Data.Query.{joined, statement_lines, get_query_lem}
use query_playback.QueryLog.Execute.{
  Options, Clock, Pace, ReportPlugin, Executed, expected_result, execute_text, with_query, execute,
}
use query_playback.Thread.{DbClient}
use query_playback.Client.Null.{null_client}
use query_playback.Report.{add_word}
use query_playback.Report.Simple as Simple

abbrev pub simple_plugin : ReportPlugin Simple.SimpleReport
simple_plugin = record { active = true; query_execution = Simple.query_execution }

never_differs :
    (ignore : Bool) (n count : ℕ) → Simple.bump_if (not ignore && not (n == n)) count ≡ count
never_differs true n count = refl
never_differs false n count = ground arith

execute_text-null_client :
    (libc : Libc) (options : Options) (clock : Clock) (q : QueryLogData) (query : Bytes) (p : Pace)
    (r : Simple.SimpleReport)
    → ((execute_text libc options
          (simple_plugin ∷ [])
          null_client
          clock
          q
          query
          p
          tt
          r).reports.nr_error_queries
        ≡ r.nr_error_queries)
      × ((execute_text libc options
            (simple_plugin ∷ [])
            null_client
            clock
            q
            query
            p
            tt
            r).reports.nr_queries_rows_differ
          ≡ r.nr_queries_rows_differ)
      × ((execute_text libc options
            (simple_plugin ∷ [])
            null_client
            clock
            q
            query
            p
            tt
            r).reports.nr_queries_executed
          ≡ add_word r.nr_queries_executed 1)
unfolding execute_text expected_result Simple.query_execution
execute_text-null_client libc options clock q query p r =
    (refl, never_differs r.ignore_row_result_diffs _ r.nr_queries_rows_differ, refl)

module _ {S R : Type 0} (libc : Libc) (options : Options) (plugins : List (ReportPlugin R)) where
  pub execute_lem :
      (db : DbClient S) (clock : Clock) (q : QueryLogData) (p : Pace) (s : S) (r : R)
      → execute libc options plugins db clock q p s r
        ≡ some (
            execute_text libc options plugins db clock q
              (joined (statement_lines (not options.run_set_timestamp) (text_of q)))
              p
              s
              r)
  unfolding execute
  execute_lem db clock q p s r =
      ap
        (λ (o : Option Bytes).
          with_query libc options plugins
            (λ text. execute_text libc options plugins db clock q text p s r) o)
        (get_query_lem (not options.run_set_timestamp) q)

-- With the null client, which answers what the log says, `execute` ends for every query, in every
-- mode, and the simple report counts one query more and neither an error nor a difference in rows.
pub execute-null_client :
    (libc : Libc) (options : Options) (clock : Clock) (q : QueryLogData) (p : Pace)
    (r : Simple.SimpleReport)
    → (out : Executed Unit Simple.SimpleReport) × (execute libc options
          (simple_plugin ∷ [])
          null_client
          clock
          q
          p
          tt
          r
        ≡ some out)
      × (out.reports.nr_error_queries ≡ r.nr_error_queries)
      × (out.reports.nr_queries_rows_differ ≡ r.nr_queries_rows_differ)
      × (out.reports.nr_queries_executed ≡ add_word r.nr_queries_executed 1)
execute-null_client libc options clock q p r =
    let query = joined (statement_lines (not options.run_set_timestamp) (text_of q)) in
    let (errors, differing, executed) = execute_text-null_client libc options clock q query p r in
    (
      execute_text libc options (simple_plugin ∷ []) null_client clock q query p tt r,
      execute_lem libc options (simple_plugin ∷ []) null_client clock q p tt r,
      errors,
      differing,
      executed,
    )
