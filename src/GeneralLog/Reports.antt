-- ===== src/GeneralLog/Reports.antt =====
-- An entry of a general log, and the simple report of it.
use query_playback.Prelude.{◌≡◌, refl, not, ◌&&◌, [], ◌∷◌, ◌==◌}
use query_playback.Prelude.Int.{ℤ}
use query_playback.Result.{query_result}
use query_playback.Thread.{DbClient}
use query_playback.GeneralLog.{GeneralLogEntry, execute}
use query_playback.QueryLog.Execute.Reports.{simple_plugin}
use query_playback.Report.Simple.{SimpleReport, bump_if, query_execution}

-- For an entry with the zero rows that its constructor gives it: whatever the client does, it
-- counts as neither quicker nor slower, and unless the option to ignore them is set, it counts as
-- a difference in rows exactly where the database sends any.
pub execute-simple_plugin :
    {S : Type 0} (db : DbClient S) (times : ℤ × ℤ) (e : GeneralLogEntry) (s : S) (r : SimpleReport)
    → e.rows_sent ≡ 0
    → e.rows_examined ≡ 0
    → ((execute (simple_plugin ∷ []) db times e s r).1.nr_quicker_queries ≡ r.nr_quicker_queries)
      × ((execute (simple_plugin ∷ []) db times e s r).1.nr_slower_queries ≡ r.nr_slower_queries)
      × ((execute (simple_plugin ∷ []) db times e s r).1.nr_queries_rows_differ
          ≡ bump_if
              (not r.ignore_row_result_diffs
                && not ((db.execute_query e.query query_result s).0.rows_sent == 0))
              r.nr_queries_rows_differ)
unfolding execute query_execution
execute-simple_plugin db times e s r sent examined = (refl, refl, rw (sent, examined) refl)
