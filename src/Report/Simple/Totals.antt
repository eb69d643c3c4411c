-- ===== src/Report/Simple/Totals.antt =====
-- What the simple report counts.
use query_playback.Prelude.{
  ℕ, ◌+◌, ◌<◌, ◌≤◌, ◌≡◌, refl, ◌∙◌, Bool, not, ◌&&◌, List, [], ◌∷◌, length, ◌==◌, if◌then◌else◌,
  Bool-cases, inl, inr, arith,
}
use query_playback.Prelude.Int.{is_zero, ltb_ℤ}
use query_playback.Prelude.Occurrences.{count, count-le}
use query_playback.Table.{find, find-set}
use query_playback.Report.{word_mod, add_word, Execution, has_expected, is_faster}
use query_playback.Report.Simple.{
  SimpleReport, simple_report, has_error, rows_differ, bump_if, count_of, count_connection,
  query_execution,
}

-- The report after the queries of a list, the last one first in the list.
abbrev pub report_of : Bool → List Execution → SimpleReport
report_of ignore [] = simple_report ignore
report_of ignore (x ∷ xs) = query_execution x (report_of ignore xs)

bump_if-count :
    (p : Execution → Bool) (x : Execution) (xs : List Execution)
    → length xs + 1 < word_mod
    → count p xs ≤ length xs
    → bump_if (p x) (count p xs) ≡ count p (x ∷ xs)
bump_if-count p x xs h k = elim (Bool-cases (p x)) [ inl e ↦ rw e (omega arith) | inr e ↦ rw e ]

report_of_keeps :
    (ignore : Bool) (xs : List Execution) → (report_of ignore xs).ignore_row_result_diffs ≡ ignore
unfolding query_execution
report_of_keeps ignore [] = refl
report_of_keeps ignore (x ∷ xs) = report_of_keeps ignore xs

count_connection_lem :
    (k id : ℕ) (counts : List (ℕ × ℕ))
    → count_of (find id (count_connection k counts))
      ≡ (if k == id then add_word (count_of (find k counts)) 1 else count_of (find id counts))
unfolding count_connection
count_connection_lem k id counts =
    ground (arith, find-set k id (add_word (count_of (find k counts)) 1) counts)

bump_own :
    (x : Execution) (id : ℕ) (xs : List Execution)
    → length xs + 1 < word_mod
    → (if x.thread_id == id
        then add_word (count (λ y. y.thread_id == x.thread_id) xs) 1
        else count (λ y. y.thread_id == id) xs)
      ≡ count (λ y. y.thread_id == id) (x ∷ xs)
bump_own x id xs h = elim (Bool-cases (x.thread_id == id)) [
  | inl e ↦
      let same : x.thread_id ≡ id = ground arith in
      let few = count-le (λ y. y.thread_id == id) xs in rw (e, same) (omega arith)
  | inr e ↦ rw e
]

-- The log has a time for the query, and it ran in less.
abbrev pub is_quicker : Execution → Bool
is_quicker x = not (is_zero x.expected.duration) && ltb_ℤ x.actual.duration x.expected.duration

abbrev pub is_slower : Execution → Bool
is_slower x = not (is_zero x.expected.duration) && not (ltb_ℤ x.actual.duration x.expected.duration)

-- The counters of the report against the list of what was executed.
pub record Counts (ignore : Bool) (xs : List Execution) : Type 0 where
  pub executed : (report_of ignore xs).nr_queries_executed ≡ length xs
  pub errors : (report_of ignore xs).nr_error_queries ≡ count has_error xs
  pub differing : (report_of ignore xs).nr_queries_rows_differ ≡ count (rows_differ ignore) xs
  pub quicker : (report_of ignore xs).nr_quicker_queries ≡ count is_quicker xs
  pub slower : (report_of ignore xs).nr_slower_queries ≡ count is_slower xs
  pub per_connection :
      (id : ℕ)
      → count_of (find id (report_of ignore xs).connection_query_counts)
        ≡ count (λ x. x.thread_id == id) xs

pub report_of-Counts :
    (ignore : Bool) (xs : List Execution) → length xs < word_mod → Counts ignore xs
unfolding query_execution
report_of-Counts ignore [] h = record {
  executed = refl;
  errors = refl;
  differing = refl;
  quicker = refl;
  slower = refl;
  per_connection = λ id. unfold find in refl;
}
report_of-Counts ignore (x ∷ xs) h =
    let v = report_of-Counts ignore xs (omega arith) in
    record {
      executed = rw v.executed (omega arith);
      errors = rw v.errors (bump_if-count has_error x xs (omega arith) (count-le _ xs));
      differing =
          rw (v.differing, report_of_keeps ignore xs)
            (bump_if-count (rows_differ ignore) x xs (omega arith) (count-le _ xs));
      quicker =
          rw v.quicker
            (bump_if-count (λ y. has_expected y && is_faster y) x xs (omega arith) (count-le _ xs));
      slower = rw v.slower (
          bump_if-count (λ y. has_expected y && not (is_faster y)) x xs (omega arith)
            (count-le _ xs));
      per_connection = λ id.
          count_connection_lem x.thread_id id (report_of ignore xs).connection_query_counts
          ∙ rw (v.per_connection x.thread_id, v.per_connection id) (bump_own x id xs (omega arith));
    }
