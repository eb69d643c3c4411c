-- ===== src/Tests/Reports.antt =====
-- The simple report on a few executed queries.
use query_playback.Prelude.{ℕ, List, [], ◌∷◌}
use query_playback.Prelude.Int.{pos}
use query_playback.Text.{codes}
use query_playback.Result.{QueryResult, query_result}
use query_playback.Report.{Execution}

abbrev took : ℕ → QueryResult
took us = record query_result { duration = pos us }

abbrev pub executions : List Execution
executions =
    record { thread_id = 7; query = codes "select 1"; expected = took 20; actual = took 30 }
    ∷ record { thread_id = 8; query = codes "Update t"; expected = took 20; actual = took 10 }
    ∷ []
