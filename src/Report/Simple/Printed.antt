-- ===== src/Report/Simple/Printed.antt =====
-- `print_report` of SimpleReportPlugin in percona_playback/simple_report/simple_report.cc: the
-- numbers that it prints, without the average, which is a double.
use query_playback.Prelude.{
  ℕ, ◌+◌, ◌-◌, ◌^◌, ◌≡◌, refl, ◌∙◌, Bool, List, [], ◌∷◌, length, ltb, ◌==◌, if◌then◌else◌, arith,
}
use query_playback.Prelude.Int.{ℤ, pos, negsuc, pos_part, neg_part, ◌-ℤ◌}
use query_playback.Prelude.Occurrences.{count}
use query_playback.Table.{find}
use query_playback.OrderedMap.{nat_order, insert_all, lookup, Ascends, nil}
use query_playback.OrderedMap.Laws.{lookup-insert_all, lookup-nil}
use query_playback.Report.{word_mod, Execution}
use query_playback.Report.Simple.{SimpleReport, count_of}

-- A uint64_t read as an int64_t.
abbrev pub to_int64 : ℕ → ℤ
to_int64 n = if ltb n (2 ^ 63) then pos n else negsuc (word_mod - 1 - n)

-- `llabs` of the difference, which is a number of 64 bits in every run whose sums are below 2^63.
abbrev pub difference : ℕ → ℕ → ℕ
difference a b = pos_part (to_int64 a -ℤ to_int64 b) + neg_part (to_int64 a -ℤ to_int64 b)

pub record PrintedReport : Type 0 where
  pub executed : ℕ
  pub total_duration : ℕ
  pub expected_duration : ℕ
  pub quicker : ℕ
  pub slower : ℕ
  pub errors : ℕ
  pub expected_rows : ℕ
  pub actual_rows : ℕ
  pub rows_difference : ℕ
  pub differing_rows : ℕ
  pub connections : ℕ
  -- the lines of the results per thread
  pub conn_counts : List (ℕ × ℕ)

-- The loop that fills `sorted_conn_count`.
unfoldable pub sorted_conn_count : SimpleReport → List (ℕ × ℕ)
unfolding insert_all
sorted_conn_count r = insert_all r.connection_query_counts []

unfoldable pub print_report : Bool → SimpleReport → PrintedReport
unfolding sorted_conn_count ◌-ℤ◌
print_report show_connection_query_count r = record {
  executed = r.nr_queries_executed;
  total_duration = r.total_execution_time_ms;
  expected_duration = r.expected_total_execution_time_ms;
  quicker = r.nr_quicker_queries;
  slower = r.nr_slower_queries;
  errors = r.nr_error_queries;
  expected_rows = r.nr_expected_rows_sent;
  actual_rows = r.nr_actual_rows_sent;
  rows_difference = difference r.nr_expected_rows_sent r.nr_actual_rows_sent;
  differing_rows = r.nr_queries_rows_differ;
  connections = length r.connection_query_counts;
  conn_counts = if show_connection_query_count then sorted_conn_count r else [];
}

lookup-find : (id : ℕ) (m : List (ℕ × ℕ)) → lookup id m ≡ find id m
unfolding lookup find
lookup-find id [] = refl
lookup-find id ((k, n) ∷ m) = ground (arith, lookup-find id m)

pub lookup-sorted_conn_count :
    (id : ℕ) (r : SimpleReport)
    → lookup id (sorted_conn_count r) ≡ find id r.connection_query_counts
unfolding sorted_conn_count
lookup-sorted_conn_count id r =
    lookup-insert_all id r.connection_query_counts [] nil
    ∙ rw (lookup-nil {A = ℕ} id) (lookup-find id r.connection_query_counts)

-- A printed report against what was executed.
pub record Prints (xs : List Execution) (p : PrintedReport) : Type 0 where
  pub ascends : Ascends p.conn_counts
  pub per_thread : (id : ℕ) → count_of (lookup id p.conn_counts) ≡ count (λ x. x.thread_id == id) xs
  pub executed_is : p.executed ≡ length xs
  pub difference_is :
      p.rows_difference ≡ (p.expected_rows - p.actual_rows) + (p.actual_rows - p.expected_rows)
