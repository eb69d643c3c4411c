-- ===== src/QueryLog/Scan.antt =====
-- The reading loop of `getEntries` in percona_playback/query_log/query_log.cc (up to the message
-- that the log is read), and `parse_time`. The counters are bounded by the length of the log, so
-- they do not wrap.
pub mod Steps
pub mod Entry
pub mod Walk
pub mod Invariant
use query_playback.Prelude.{
  ℕ, zero, suc, ◌+◌, ◌-◌, Bool, true, false, not, ◌&&◌, List, [], ◌∷◌, ◌++◌, Option, none, some,
  length, take, drop, ◌==◌, ltb, if◌then◌else◌,
}
use query_playback.Prelude.Int.{ℤ, pos, negsuc, ◌+ℤ◌, ◌-ℤ◌, ◌*ℤ◌, ltb_ℤ}
use query_playback.Text.{Bytes, codes, starts_with, ends_with, is_empty}
use query_playback.QueryLog.Readline.{StringRef, empty_ref, readline}
use query_playback.QueryLog.Data.{Tm, TimeFields, Libc, QueryLogData, query_log_data}

-- Months count from 0, and years from 1900, where two digits below 70 are of this century.
abbrev adjust_tm : Tm → Tm
adjust_tm td = record td {
  tm_year = td.tm_year +ℤ (if ltb_ℤ td.tm_year (pos 70) then pos 100 else pos 0);
  tm_mon = td.tm_mon -ℤ pos 1;
}

abbrev time_of : Libc → TimeFields → ℤ → Bool × ℤ
time_of libc f start_time =
    if ltb f.num_read 6
    then (false, start_time)
    else (true, libc.mktime (adjust_tm f.td) *ℤ 1_000_000_000 +ℤ f.msecs *ℤ 1000)

-- The result, and `start_time` after the call.
unfoldable pub parse_time : Libc → Bytes → ℤ → Bool × ℤ
parse_time libc s start_time = time_of libc (libc.sscanf_time s) start_time

-- The variables of `getEntries`, the entries that it makes, and `g_accurate_mode`.
pub record Scan : Type 0 where
  pub current_timestamp : ℤ
  pub accurate_mode : Bool
  pub entries : List QueryLogData
  pub num_entries : ℕ
  pub num_queries : ℕ

-- `== QueryLogData::TimePoint()`
abbrev pub is_epoch : ℤ → Bool
is_epoch (pos n) = n == 0
is_epoch (negsuc n) = false

unfoldable pub see_time : Libc → Bytes → Scan → Scan
see_time libc line st = record st {
  current_timestamp = (parse_time libc line st.current_timestamp).1;
}

-- What follows the inner loop.
unfoldable pub add_query : Libc → ℕ → StringRef → Scan → Scan
add_query libc num_sql_lines query_data st =
    if num_sql_lines == 0 then record st { num_entries = st.num_entries + 1 } else record st {
      num_entries = st.num_entries + 1;
      accurate_mode = st.accurate_mode && not (is_epoch st.current_timestamp);
      entries = st.entries ++ (query_log_data libc query_data st.current_timestamp ∷ []);
      num_queries = st.num_queries + 1;
    }

-- `string_ref(ptr, len)` into the memory of the log.
abbrev pub slice : StringRef → ℕ → ℕ → StringRef
slice d at len = record { at = at; text = take len (drop (at - d.at) d.text) }

-- Where the inner loop stops.
abbrev pub goes_on : Bytes → Bool
goes_on line =
    not (is_empty line)
    && (not (starts_with line (codes "# User@Host")) && not (starts_with line (codes "# Time")))

abbrev pub count_sql : Bytes → ℕ → ℕ
count_sql line n = if not (starts_with line (codes "#")) then n + 1 else n

-- What the inner loop leaves: the count of SQL lines, the length, the line behind, the position.
pub record EntryLines : Type 0 where
  pub num_sql_lines : ℕ
  pub query_data_len : ℕ
  pub next_line : StringRef
  pub pos_after : Option ℕ

-- The inner loop, from `next_line` on; `none` when the fuel runs out.
unfoldable pub read_entry : ℕ → StringRef → Option ℕ → StringRef → ℕ → ℕ → Option EntryLines
unfolding readline starts_with
read_entry zero d p next_line num_sql_lines query_data_len = none
read_entry (suc fuel) d p next_line num_sql_lines query_data_len =
    let n = count_sql next_line.text num_sql_lines in
    let len = query_data_len + length next_line.text in
    let (line, p') = readline d p in
    let rest = read_entry fuel d p' line n len in
    if goes_on line.text
    then rest
    else some (record { num_sql_lines = n; query_data_len = len; next_line = line; pos_after = p' })

-- The next round of the outer loop: the position, `next_line` and the variables.
abbrev pub Round : Type 0
Round = Option ℕ → StringRef → Scan → Option Scan

abbrev pub after_entry :
    Libc → StringRef → Round → StringRef → Scan → Option EntryLines → Option Scan
after_entry libc d again line st none = none
after_entry libc d again line st (some e) =
    again e.pos_after e.next_line
      (add_query libc e.num_sql_lines (slice d line.at e.query_data_len) st)

-- A line that is no metadata: each of the three tests goes on to the next round, and so does what
-- passes none of them.
abbrev pub skip_line : Bytes → Option Scan → Option Scan
skip_line line next_round =
    if ends_with line (codes "started with:\n")
    then next_round
    else if starts_with line (codes "Tcp port: ")
    then next_round
    else if starts_with line (codes "Time ")
    then next_round
    else next_round

abbrev pub scan_line : Libc → StringRef → Round → StringRef → Option ℕ → Scan → Option Scan
scan_line libc d again line p st =
    let skipped = skip_line line.text (again p empty_ref st) in
    let timed = again p empty_ref (see_time libc line.text st) in
    let entry = after_entry libc d again line st (read_entry (length d.text + 1) d p line 0 0) in
    if is_empty line.text
    then some st
    else if not (starts_with line.text (codes "#"))
    then skipped
    else if starts_with line.text (codes "# Time")
    then timed
    else entry

abbrev pub take_line : StringRef → Option ℕ → StringRef → StringRef × Option ℕ
take_line d p next_line = if is_empty next_line.text then readline d p else (next_line, p)

-- The outer loop; `none` when the fuel runs out.
unfoldable pub scan_from : ℕ → Libc → StringRef → Round
unfolding read_entry see_time add_query ends_with
scan_from zero libc d p next_line st = none
scan_from (suc fuel) libc d p next_line st =
    let (line, p') = take_line d p next_line in
    scan_line libc d (λ q next st'. scan_from fuel libc d q next st') line p' st

abbrev pub start_scan : Bool → Scan
start_scan accurate_mode = record {
  current_timestamp = pos 0;
  accurate_mode = accurate_mode;
  entries = [];
  num_entries = 0;
  num_queries = 0;
}

-- All of the log; every round but the last takes a byte.
unfoldable pub scan_log : Libc → Bool → StringRef → Option Scan
unfolding scan_from
scan_log libc accurate_mode log =
    scan_from (length log.text + 1) libc log (some 0) empty_ref (start_scan accurate_mode)
