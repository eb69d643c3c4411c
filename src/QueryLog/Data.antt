-- ===== src/QueryLog/Data.antt =====
-- QueryLogData of percona_playback/query_log/query_log.h, and its members in query_log.cc that
-- read the text of a query. All of them stop inside the entry: behind an entry the log ends or
-- goes on with `#`, which is no part of a number, so the bytes behind it do not matter to strtoull.
pub mod Query
pub mod OneLine
pub mod Fields
use query_playback.Prelude.{
  ℕ, zero, suc, ◌+◌, ◌*◌, Bool, true, false, not, ◌&&◌, [], ◌∷◌, ◌++◌, Option, none, some, length,
  drop, ◌==◌, if◌then◌else◌,
}
use query_playback.Prelude.Int.{ℤ, pos, ◌-ℤ◌, ◌*ℤ◌, ltb_ℤ}
use query_playback.Text.{Bytes, codes, starts_with, find, found_at, trim, blanks, is_empty}
use query_playback.Text.Number.{strtoull}
use query_playback.QueryLog.Readline.{StringRef, readline}

-- `std::tm`, as far as `parse_time` fills it in.
pub record Tm : Type 0 where
  pub tm_year : ℤ
  pub tm_mon : ℤ
  pub tm_mday : ℤ
  pub tm_hour : ℤ
  pub tm_min : ℤ
  pub tm_sec : ℤ

-- What sscanf with the format of `parse_time` gives: the count of the fields read, and their values
-- (those not read keep the zero that was in them).
pub record TimeFields : Type 0 where
  pub num_read : ℕ
  pub td : Tm
  pub msecs : ℤ

-- The parts of the C library that depend on floats, scan formats and the time zone.
pub record Libc : Type 0 where
  -- (long)(strtod(s) * 1000000)
  pub strtod_us : Bytes → ℤ
  pub sscanf_time : Bytes → TimeFields
  -- seconds since the epoch
  pub mktime : Tm → ℤ

-- Times are nanoseconds since the epoch.
pub record QueryLogData : Type 0 where
  pub data_ref : StringRef
  -- the cache of the thread id, 0 when nothing is cached
  pub thread_id : ℕ
  pub start_time : ℤ

abbrev pub text_of : QueryLogData → Bytes
text_of q = q.data_ref.text

-- The number behind the first place where `label` stands, if it stands anywhere.
abbrev pub number_after : Bytes → Bytes → Option ℕ → Option ℕ
number_after label s none = none
number_after label s (some k) = some (strtoull (drop (k + length label) s))

abbrev pub or_zero : Option ℕ → ℕ
or_zero none = 0
or_zero (some n) = n

unfoldable pub parse_rows_sent : QueryLogData → ℕ
parse_rows_sent q =
    or_zero
      (number_after (codes "Rows_sent: ") (text_of q) (find (text_of q) (codes "Rows_sent: ")))

-- The label that is looked for is spelled with a capital E.
unfoldable pub parse_rows_examined : QueryLogData → ℕ
parse_rows_examined q = or_zero (
    number_after (codes "Rows_examined: ") (text_of q) (find (text_of q) (codes "Rows_Examined: ")))

-- The label of MySQL 5.6.2 and later.
abbrev pub id_of_text : Bytes → Option ℕ → ℕ
id_of_text s (some n) = n
id_of_text s none = or_zero (number_after (codes "Id: ") s (find s (codes "Id: ")))

-- The thread id in the text, 0 where there is none.
unfoldable pub thread_id_in : Bytes → ℕ
thread_id_in s = id_of_text s (number_after (codes "Thread_id: ") s (find s (codes "Thread_id: ")))

-- `parseThreadId` with its cache: the id, and the entry with the cache filled in.
unfoldable pub parse_thread_id : QueryLogData → ℕ × QueryLogData
parse_thread_id q =
    if not (q.thread_id == 0)
    then (q.thread_id, q)
    else (thread_id_in (text_of q), record q { thread_id = thread_id_in (text_of q) })

abbrev query_time_at : Libc → Bytes → Option ℕ → ℤ
query_time_at libc s none = pos 0
query_time_at libc s (some k) = libc.strtod_us (drop (k + length (codes "Query_time: ")) s)

-- `(long)(parseQueryTime() * 1000000)`, the only use of `parseQueryTime`.
unfoldable pub parse_query_time_us : Libc → Bytes → ℤ
parse_query_time_us libc s = query_time_at libc s (find s (codes "Query_time: "))

-- The constructor; `end_time` is the log's time stamp, taken when the query had ended.
unfoldable pub query_log_data : Libc → StringRef → ℤ → QueryLogData
query_log_data libc data_ref end_time = record {
  data_ref = data_ref;
  thread_id = 0;
  start_time = end_time -ℤ parse_query_time_us libc data_ref.text *ℤ 1000;
}

-- `operator <`
abbrev pub starts_before : QueryLogData → QueryLogData → Bool
starts_before a b = ltb_ℤ a.start_time b.start_time

unfoldable pub is_quit : QueryLogData → Bool
is_quit q = found_at (find (text_of q) (codes "\n# administrator command: Quit;"))

-- The body of the loop of `getQuery` on one line. The state is `found_non_comment_line` and `ret`.
unfoldable pub add_line : Bool → Bool × Bytes → Bytes → Bool × Bytes
add_line remove_timestamp (found, ret) line =
    if not found && starts_with line (codes "#")
    then (found, ret)
    else if remove_timestamp && starts_with line (codes "SET timestamp=")
    then (true, ret)
    else if is_empty (trim blanks line)
    then (true, ret)
    else (true, (if is_empty ret then ret else ret ++ codes " ") ++ trim blanks line)

-- The loop of `getQuery` from a position; `none` when the fuel runs out.
unfoldable pub get_query_from : ℕ → Bool → StringRef → Option ℕ → Bool × Bytes → Option Bytes
unfolding add_line readline
get_query_from zero remove_timestamp d p (found, ret) = none
get_query_from (suc fuel) remove_timestamp d p (found, ret) =
    let (line, p') = readline d p in
    let rest =
      get_query_from fuel remove_timestamp d p'
        (add_line remove_timestamp (found, ret) line.text) in
    if is_empty line.text then some ret else rest

-- Every round but the last reads a byte.
unfoldable pub get_query : Bool → QueryLogData → Option Bytes
unfolding get_query_from
get_query remove_timestamp q =
    get_query_from (length (text_of q) + 1) remove_timestamp q.data_ref (some 0) (false, [])
