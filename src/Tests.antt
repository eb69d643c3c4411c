-- ===== src/Tests.antt =====
-- Concrete logs and queues, and the theorems of the query log applied to them.
pub mod Threads
pub mod Pipeline
pub mod Replay
pub mod Registry
pub mod Options
pub mod Program
pub mod Reports
pub mod Mysql
pub mod Execute
pub mod GeneralLog
pub mod Playback
pub mod FullReports
use query_playback.Prelude.{
  ℕ, ◌+◌, ◌<◌, ◌≡◌, ◌≢◌, ◌⊎◌, inl, inr, ◌↔◌, refl, Bool, true, false, not, ◌||◌, List, [], ◌∷◌,
  ◌++◌, Option, none, some, length, select, map, All, ltb, ◌-◌, if◌then◌else◌, arith,
}
use mathlib.Core.List.{Perm}
use query_playback.Prelude.Int.{ℤ, pos}
use query_playback.Text.{Bytes, codes, blanks, trim, find}
use query_playback.Text.Trim.{skip, chop, trim_lem}
use query_playback.Text.Number.{strtoull, digit_text, value, ullong_mod, strtoull-digit_text}
use query_playback.QueryLog.Readline.{StringRef, readline}
use query_playback.QueryLog.Readline.Lines.{lines, remaining, ReadsLine, readline_cases}
use query_playback.QueryLog.Data.{
  Tm, TimeFields, Libc, QueryLogData, text_of, thread_id_in, parse_thread_id, is_quit, get_query,
}
use query_playback.QueryLog.Data.Query.{joined, statement_lines, get_query_lem}
use query_playback.QueryLog.Data.OneLine.{HasNoNewline, get_query-HasNoNewline}
use query_playback.QueryLog.Data.Fields.{
  IsCached, parse_thread_id_lem, is_quit_iff, thread_id_in-digit_text,
}
use query_playback.QueryLog.Scan.{Scan, scan_log, start_scan}
use query_playback.QueryLog.Scan.Walk.{scan_log-walk}
use query_playback.QueryLog.Scan.Steps.{walk, outside}
use query_playback.QueryLog.Scan.Invariant.{IsScanned, scan_log-IsScanned}
use query_playback.QueryLog.Order.{put_in_order}
use query_playback.QueryLog.Order.Connection.{of_conn, data_ref_of, put_in_order-of_conn}
use query_playback.QueryLog.Order.Sorted.{IsSorted, put_in_order-IsSorted}
use query_playback.QueryLog.Entries.{QueryLogEntry, set_shutdown_on_last_query_of_conn, pop_all}
use query_playback.QueryLog.Entries.Shutdown.{last_of_conn, shutdowns, pop_all-last_of_conn}

abbrev no_time : Tm
no_time = record {
  tm_year = pos 0;
  tm_mon = pos 0;
  tm_mday = pos 0;
  tm_hour = pos 0;
  tm_min = pos 0;
  tm_sec = pos 0;
}

abbrev flat_libc : Libc
flat_libc = record {
  strtod_us = λ s. pos 0;
  sscanf_time = λ s. record { num_read = 6; td = no_time; msecs = pos 0 };
  mktime = λ t. pos 0;
}

abbrev log_text : Bytes
log_text = codes "# User@Host: a\n# Thread_id: 7\nSELECT 1;\n# User@Host: b\nSELECT 2;\n"

abbrev small_log : StringRef
small_log = record { at = 100; text = log_text }

abbrev query_at : ℕ → Bytes → ℤ → QueryLogData
query_at at text time = record {
  data_ref = record { at = at; text = text };
  thread_id = 0;
  start_time = time;
}

abbrev first_query : QueryLogData
first_query = query_at 100 (codes "# User@Host: a\n# Thread_id: 7\nSELECT 1;\n") (pos 30)

abbrev second_query : QueryLogData
second_query = query_at 200 (codes "# User@Host: b\n# Thread_id: 8\nSELECT 2;\n") (pos 20)

abbrev third_query : QueryLogData
third_query = query_at 300 (codes "# User@Host: a\n# Thread_id: 7\nSELECT 3;\n") (pos 10)

abbrev three_queries : List QueryLogData
three_queries = first_query ∷ second_query ∷ third_query ∷ []

abbrev three_cached : All IsCached three_queries
three_cached = (inl refl, (inl refl, (inl refl, tt)))

put_in_order-IsSorted_example :
    IsSorted (put_in_order false true three_queries)
    × Perm (map data_ref_of (put_in_order false true three_queries)) (map data_ref_of three_queries)
put_in_order-IsSorted_example = put_in_order-IsSorted false true three_queries refl three_cached

pop_all-last_of_conn_example :
    (out : List QueryLogEntry) × (pop_all (length three_queries + 1) (
        set_shutdown_on_last_query_of_conn
          (record { entries = three_queries; last_query_of_conn = [] }))
      ≡ some out)
    × (map (λ e. e.query.data_ref) out ≡ map (λ q. q.data_ref) three_queries)
    × (shutdowns out ≡ last_of_conn three_queries)
    × All (λ e. IsCached e.query) out
pop_all-last_of_conn_example =
    pop_all-last_of_conn three_queries three_cached
      ((omega arith, (omega arith, tt)), ((omega arith, tt), (tt, tt)))

scan_log-walk_example :
    scan_log flat_libc true small_log
    ≡ some (walk flat_libc small_log 100 outside (start_scan true) (lines log_text))
scan_log-walk_example = scan_log-walk flat_libc small_log true

scan_log-IsScanned_example :
    (st : Scan) × (scan_log flat_libc false small_log ≡ some st) × IsScanned small_log st
scan_log-IsScanned_example = scan_log-IsScanned flat_libc false small_log

get_query_lem_example :
    get_query true first_query ≡ some (joined (statement_lines true (text_of first_query)))
get_query_lem_example = get_query_lem true first_query

get_query-HasNoNewline_example :
    (query : Bytes) × (get_query false third_query ≡ some query) × HasNoNewline query
get_query-HasNoNewline_example = get_query-HasNoNewline false third_query

label_found :
    find
      (codes "# " ++ (codes "Thread_id: " ++ (digit_text (4 ∷ 2 ∷ []) ++ codes "\n")))
      (codes "Thread_id: ")
    ≡ some (length (codes "# "))
unfolding find
label_found = refl

thread_id_in-digit_text_example :
    thread_id_in (codes "# " ++ (codes "Thread_id: " ++ (digit_text (4 ∷ 2 ∷ []) ++ codes "\n")))
    ≡ value 0 (4 ∷ 2 ∷ [])
thread_id_in-digit_text_example =
    thread_id_in-digit_text (codes "# ") (codes "\n") 4 (2 ∷ []) label_found
      (omega arith, (omega arith, tt)) refl (omega arith)

strtoull-digit_text_example :
    strtoull (digit_text (1 ∷ 9 ∷ []) ++ codes " rows")
    ≡ (if ltb (value 0 (1 ∷ 9 ∷ [])) ullong_mod then value 0 (1 ∷ 9 ∷ []) else ullong_mod - 1)
strtoull-digit_text_example =
    strtoull-digit_text 1 (9 ∷ []) (codes " rows") (omega arith, (omega arith, tt)) refl
