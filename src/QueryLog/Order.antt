-- ===== src/QueryLog/Order.antt =====
-- The second half of `getEntries` in percona_playback/query_log/query_log.cc: the start times of a
-- connection are made to rise, and the entries are sorted by them. std::stable_sort is the
-- insertion sort, which gives the one list that is sorted and keeps the order of equal entries.
pub mod Connection
pub mod Sorted
pub mod Kept
use query_playback.Prelude.{
  ℕ, Bool, not, ◌||◌, List, [], ◌∷◌, Option, none, some, ◌==◌, if◌then◌else◌,
}
use query_playback.Prelude.Int.{ℤ, pos, ltb_ℤ}
use query_playback.QueryLog.Readline.{StringRef}
use query_playback.QueryLog.Data.{Libc, QueryLogData, parse_thread_id, starts_before}
use query_playback.QueryLog.Scan.{Scan, scan_log}

-- `unordered_map<uint64_t, TimePoint>` under `operator[]`: a missing key gives the epoch.
abbrev pub TimeMap : Type 0
TimeMap = ℕ → ℤ

abbrev pub no_times : TimeMap
no_times id = pos 0

abbrev pub set_time : TimeMap → ℕ → ℤ → TimeMap
set_time last id t j = if j == id then t else last j

-- The loop over the entries, with `last_timestamp_of_conn`.
unfoldable pub adjust : TimeMap → List QueryLogData → List QueryLogData
adjust last [] = []
adjust last (q ∷ qs) =
    let (id, q') = parse_thread_id q in
    let is_sooner = ltb_ℤ q'.start_time (last id) in
    (if is_sooner then record q' { start_time = last id } else q')
    ∷ adjust (if is_sooner then last else set_time last id q'.start_time) qs

abbrev pub insert : QueryLogData → List QueryLogData → List QueryLogData
insert q [] = q ∷ []
insert q (x ∷ xs) = if starts_before x q then x ∷ insert q xs else q ∷ x ∷ xs

abbrev pub stable_sort : List QueryLogData → List QueryLogData
stable_sort [] = []
stable_sort (q ∷ qs) = insert q (stable_sort qs)

-- The entries as they are played back.
unfoldable pub put_in_order : Bool → Bool → List QueryLogData → List QueryLogData
unfolding adjust
put_in_order disable_sorting accurate_mode qs =
    if not disable_sorting || accurate_mode then stable_sort (adjust no_times qs) else qs

abbrev pub finish_scan : Bool → Option Scan → Option Scan
finish_scan disable_sorting none = none
finish_scan disable_sorting (some st) =
    some (record st { entries = put_in_order disable_sorting st.accurate_mode st.entries })

-- The whole of `getEntries`, with the flag that it may reset.
unfoldable pub get_entries : Libc → Bool → Bool → StringRef → Option Scan
unfolding scan_log put_in_order
get_entries libc accurate_mode disable_sorting log =
    finish_scan disable_sorting (scan_log libc accurate_mode log)
