-- ===== src/Report/Error.antt =====
-- ErrorReportPlugin of percona_playback/error_report/error_report.cc. What `query_execution` prints
-- is the list of its three numbers and the query, the last one first.
use query_playback.Prelude.{
  ℕ, ◌≡◌, refl, Bool, ◌&&◌, List, [], ◌∷◌, select, map, if◌then◌else◌, Bool-cases, inl, inr,
}
use query_playback.Prelude.Int.{ltb_ℤ}
use query_playback.Text.{Bytes}
use query_playback.Report.{add_word, to_word, Execution, has_expected}

pub record Slower : Type 0 where
  pub thread_id : ℕ
  pub took : ℕ
  pub instead_of : ℕ
  pub query : Bytes

pub record ErrorReport : Type 0 where
  pub total_execution_time_ms : ℕ
  pub expected_total_execution_time_ms : ℕ
  pub printed : List Slower

abbrev pub error_report : ErrorReport
error_report = record {
  total_execution_time_ms = 0;
  expected_total_execution_time_ms = 0;
  printed = [];
}

abbrev pub is_late : Execution → Bool
is_late x = ltb_ℤ x.expected.duration x.actual.duration

abbrev pub line_for : Execution → Slower
line_for x = record {
  thread_id = x.thread_id;
  took = to_word x.actual.duration;
  instead_of = to_word x.expected.duration;
  query = x.query;
}

unfoldable pub query_execution : Execution → ErrorReport → ErrorReport
query_execution x r =
    let timed : ErrorReport = record r {
      total_execution_time_ms = add_word r.total_execution_time_ms (to_word x.actual.duration);
    } in
    if has_expected x
    then record timed {
      expected_total_execution_time_ms =
          add_word r.expected_total_execution_time_ms (to_word x.expected.duration);
      printed = if is_late x then line_for x ∷ r.printed else r.printed;
    }
    else timed

-- The report after the queries of a list, the last one first in the list.
abbrev pub report_of : List Execution → ErrorReport
report_of [] = error_report
report_of (x ∷ xs) = query_execution x (report_of xs)

-- The queries with a time in the log that took longer than that are printed, and no others, in the
-- order of their execution.
pub printed-report_of :
    (xs : List Execution)
    → (report_of xs).printed ≡ map (λ x. line_for x) (select (λ x. has_expected x && is_late x) xs)
unfolding query_execution
printed-report_of [] = refl
printed-report_of (x ∷ xs) = elim (Bool-cases (has_expected x)) [
  | inl e ↦ elim (Bool-cases (is_late x)) [
    | inl f ↦ rw (e, f, printed-report_of xs) refl
    | inr f ↦ rw (e, f, printed-report_of xs) refl
  ]
  | inr e ↦ rw (e, printed-report_of xs) refl
]
