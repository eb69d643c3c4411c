-- ===== src/Report.antt =====
-- The report plugins: percona_playback/simple_report, percona_playback/full_report and
-- percona_playback/error_report. The counters are atomic 64-bit words, and each `query_execution`
-- is one step of the model: a counter is a sum, which the order of its additions does not change.
pub mod Simple
pub mod Full
pub mod Error
use query_playback.Prelude.{
  ℕ, ◌+◌, ◌-◌, ◌%◌, ◌^◌, Bool, true, false, not, List, [], ◌∷◌, ◌==◌, ltb, if◌then◌else◌,
}
use query_playback.Prelude.Int.{is_zero, ℤ, pos, negsuc, ltb_ℤ}
use query_playback.Text.{Bytes}
use query_playback.Result.{QueryResult}

abbrev pub word_mod : ℕ
word_mod = 2 ^ 64

-- A `long` read as a uint64_t.
abbrev pub to_word : ℤ → ℕ
to_word (pos n) = n % word_mod
to_word (negsuc n) = word_mod - 1 - n % word_mod

-- `fetch_and_add`
abbrev pub add_word : ℕ → ℕ → ℕ
add_word a b = (a + b) % word_mod

-- The arguments of `query_execution`.
pub record Execution : Type 0 where
  pub thread_id : ℕ
  pub query : Bytes
  pub expected : QueryResult
  pub actual : QueryResult

-- `expected.getDuration().total_microseconds()` as a condition.
abbrev pub has_expected : Execution → Bool
has_expected x = not (is_zero x.expected.duration)

abbrev pub is_faster : Execution → Bool
is_faster x = ltb_ℤ x.actual.duration x.expected.duration
