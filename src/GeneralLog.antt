-- ===== src/GeneralLog.antt =====
-- The general-log input plugin: ParseGeneralLog of percona_playback/general_log/parse_general_log.cc
-- and GeneralLogEntry of general_log_entry.h and general_log_entry.cc. A file is the list of the lines that
-- getline gives, each of them with no zero byte; the two fields of the regular expression are a
-- parameter. The times of an entry are never set, so they are the zeros of its constructor.
pub mod LineEntries
pub mod Shutdown
pub mod Reports
pub mod Plugin
use query_playback.Prelude.{
  contains, ℕ, ◌+◌, ◌-◌, Bool, true, false, not, ◌&&◌, ◌||◌, List, [], ◌∷◌, ◌++◌, Option, none,
  some, length, take, drop, leb, ◌==◌, if◌then◌else◌,
}
use query_playback.Prelude.Int.{pos, ℤ, ◌-ℤ◌}
use query_playback.Text.{Bytes, codes, starts_with, is_empty}
use query_playback.Text.Number.{strtoull}
use query_playback.Result.{QueryResult, query_result}
use query_playback.Thread.{DbClient}
use query_playback.QueryLog.Execute.{ReportPlugin, report_all}

pub record GeneralLogEntry : Type 0 where
  pub shutdown : Bool
  pub thread_id : ℕ
  pub rows_sent : ℕ
  pub rows_examined : ℕ
  pub query : Bytes

abbrev pub general_log_entry : GeneralLogEntry
general_log_entry = record {
  shutdown = false;
  thread_id = 0;
  rows_sent = 0;
  rows_examined = 0;
  query = [];
}

-- The query without its last byte, and without the carriage return before that.
abbrev pub ends_in_cr : Bytes → Bool
ends_in_cr ns = starts_with (drop (length ns - 2) ns) (codes "\r")

abbrev pub without_end : Bytes → Bytes
without_end ns =
    if leb 2 (length ns) && ends_in_cr ns then take (length ns - 2) ns else take (length ns - 1) ns

-- The fields of the regular expression in a line, if it stands there.
abbrev pub Matcher : Type 0
Matcher = Bytes → Option (Bytes × Bytes)

abbrev pub add_fields : Option (Bytes × Bytes) → GeneralLogEntry → GeneralLogEntry
add_fields none e = e
add_fields (some (id, ns)) e = record e {
  thread_id = strtoull id;
  query = e.query ++ (without_end ns ++ codes " ");
}

unfoldable pub add_query_line : Matcher → Bytes → GeneralLogEntry → GeneralLogEntry
unfolding starts_with
add_query_line match line e = add_fields (match line) e

unfoldable pub ignores : Bytes → Bool
unfolding starts_with
ignores line =
    starts_with line (codes "#")
    || (leb 14 (length line) && starts_with (drop (length line - 14) line) (codes "started with:"))
    || starts_with line (codes "Tcp port: ")
    || starts_with line (codes "Time Id Command Argument")

-- The loop over the lines, with `tmp_entry` and the entries so far.
unfoldable pub read_lines :
    Matcher → List Bytes → GeneralLogEntry → List GeneralLogEntry → List GeneralLogEntry
unfolding add_query_line ignores
read_lines match [] tmp_entry entries = entries
read_lines match (line ∷ lines) tmp_entry entries =
    let e = add_query_line match line tmp_entry in
    let ignored = read_lines match lines tmp_entry entries in
    let longer = read_lines match lines e entries in
    let complete = read_lines match lines general_log_entry (entries ++ e ∷ []) in
    if ignores line then ignored else if is_empty e.query then longer else complete

unfoldable pub get_entries : Matcher → List Bytes → List GeneralLogEntry
unfolding read_lines
get_entries match lines = read_lines match lines general_log_entry []

-- `setShutdownOnLastQueryOfConn`: the entries from the back on, and the thread ids seen.
abbrev pub mark_entry :
    GeneralLogEntry → List GeneralLogEntry × List ℕ → List GeneralLogEntry × List ℕ
mark_entry e (done, thread_ids) =
    if contains thread_ids e.thread_id
    then (e ∷ done, thread_ids)
    else (record e { shutdown = true } ∷ done, e.thread_id ∷ thread_ids)

unfoldable pub mark_entries : List GeneralLogEntry → List GeneralLogEntry × List ℕ
mark_entries [] = ([], [])
mark_entries (e ∷ es) = mark_entry e (mark_entries es)

unfoldable pub set_shutdown_on_last_query_of_conn : List GeneralLogEntry → List GeneralLogEntry
unfolding mark_entries
set_shutdown_on_last_query_of_conn es = (mark_entries es).0

-- `execute`, with what microsec_clock says before and after the query.
unfoldable pub execute :
    {S R : Type 0} → List (ReportPlugin R) → DbClient S → ℤ × ℤ → GeneralLogEntry → S → R → S × R
unfolding report_all
execute plugins db (start_time, end_time) e s reports =
    let expected : QueryResult = record query_result {
      rows_sent = e.rows_sent;
      rows_examined = e.rows_examined;
    } in
    let (r, s') = db.execute_query e.query expected s in
    (
      s',
      report_all plugins
          (record {
            thread_id = e.thread_id;
            query = e.query;
            expected = expected;
            actual = record r { duration = end_time -ℤ start_time };
          })
          reports,
    )

abbrev pub is_quit : GeneralLogEntry → Bool
is_quit e = starts_with e.query (codes "# administrator command: Quit;")
