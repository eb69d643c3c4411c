-- ===== src/Report/Full.antt =====
-- FullReportPlugin of percona_playback/full_report/full_report.cc.
pub mod Letters
pub mod Categories
pub mod Printed
use query_playback.Prelude.{
  ℕ, ◌+◌, ◌-◌, ◌%◌, Bool, true, false, not, ◌&&◌, List, [], ◌∷◌, Option, none, some, ltb, leb, map,
  if◌then◌else◌,
}
use query_playback.Text.{Bytes, codes, find, found_at}
use query_playback.Report.{add_word, to_word, Execution, has_expected, is_faster}

-- The three counters of a kind of statement.
pub record Tally : Type 0 where
  pub nr : ℕ
  pub nr_faster : ℕ
  pub nr_slower : ℕ

pub record FullReport : Type 0 where
  pub selects : Tally
  pub updates : Tally
  pub inserts : Tally
  pub deletes : Tally
  pub replaces : Tally
  pub drops : Tally
  pub total_execution_time_ms : ℕ
  pub expected_total_execution_time_ms : ℕ

abbrev pub no_tally : Tally
no_tally = record { nr = 0; nr_faster = 0; nr_slower = 0 }

abbrev pub full_report : FullReport
full_report = record {
  selects = no_tally;
  updates = no_tally;
  inserts = no_tally;
  deletes = no_tally;
  replaces = no_tally;
  drops = no_tally;
  total_execution_time_ms = 0;
  expected_total_execution_time_ms = 0;
}

-- `boost::to_upper_copy` in the classic locale.
abbrev pub to_upper_byte : ℕ → ℕ
to_upper_byte c = if leb 97 c && leb c 122 then c - 32 else c

abbrev pub to_upper : Bytes → Bytes
to_upper s = map (λ c. to_upper_byte c) s

abbrev pub word_of : Bool → ℕ
word_of true = 1
word_of false = 0

-- `nr++`, `nr_faster+= faster` and `nr_slower+= slower`.
unfoldable pub tally : ℕ → ℕ → Tally → Tally
tally faster slower t = record {
  nr = add_word t.nr 1;
  nr_faster = add_word t.nr_faster faster;
  nr_slower = add_word t.nr_slower slower;
}

unfoldable pub contains : Bytes → Bytes → Bool
contains word s = found_at (find s word)

unfoldable pub add_times : Execution → FullReport → FullReport
add_times x r = record r {
  total_execution_time_ms = add_word r.total_execution_time_ms (to_word x.actual.duration);
  expected_total_execution_time_ms =
      if has_expected x
      then add_word r.expected_total_execution_time_ms (to_word x.expected.duration)
      else r.expected_total_execution_time_ms;
}

unfoldable pub count_statement : Bytes → ℕ → ℕ → FullReport → FullReport
unfolding tally contains
count_statement new_query faster slower r =
    if contains (codes "SELECT ") new_query
    then record r { selects = tally faster slower r.selects }
    else if contains (codes "UPDATE ") new_query
    then record r { updates = tally faster slower r.updates }
    else if contains (codes "INSERT ") new_query
    then record r { inserts = tally faster slower r.inserts }
    else if contains (codes "DELETE ") new_query
    then record r { deletes = tally faster slower r.deletes }
    else if contains (codes "REPLACE ") new_query
    then record r { replaces = tally faster slower r.replaces }
    else if contains (codes "DROP ") new_query
    then record r { drops = tally faster slower r.drops }
    else r

unfoldable pub query_execution : Execution → FullReport → FullReport
unfolding add_times count_statement
query_execution x r =
    count_statement (to_upper x.query) (word_of (has_expected x && is_faster x))
      (word_of (has_expected x && not (is_faster x))) (add_times x r)
