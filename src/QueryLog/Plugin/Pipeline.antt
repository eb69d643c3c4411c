-- ===== src/QueryLog/Plugin/Pipeline.antt =====
-- From the log to the executed queries: getEntries, and `dispatch` of
-- percona_playback/thread_per_connection with its threads.
use query_playback.Prelude.{
  some_eq, ℕ, ◌+◌, ◌≡◌, refl, ap, ◌∙◌, sym, subst, Bool, [], List, Option, none, some, length, map,
  select,
}
use query_playback.QueryLog.Readline.{StringRef}
use query_playback.QueryLog.Data.{Libc}
use query_playback.QueryLog.Scan.{Scan, scan_log}
use query_playback.QueryLog.Scan.Invariant.{scan_log-IsScanned, Ascends-HasDistinctAddresses}
use query_playback.QueryLog.Order.{put_in_order, get_entries}
use query_playback.QueryLog.Order.Connection.{data_ref_of, put_in_order-of_conn}
use query_playback.QueryLog.Order.Connection as Connection
use query_playback.QueryLog.Order.Kept.{put_in_order-IsCached, put_in_order-HasDistinctAddresses}
use query_playback.QueryLog.Entries.{
  QueryLogEntry, get_thread_id, set_shutdown_on_last_query_of_conn, pop_all,
}
use query_playback.QueryLog.Entries.Shutdown.{pop_all-last_of_conn}
use query_playback.QueryLog.Entries.Marks.{
  is_shutdown, entry_refs, shutdowns-MarksLast, of_conn-entry_refs,
}
use query_playback.Dispatch.PerConnection.{System}
use query_playback.Dispatch.PerConnection.Steps.{Reach, of_conn}
use query_playback.Dispatch.PerConnection.Marking.{MarksLast, MarksLast-ShutsLast}
use query_playback.Dispatch.PerConnection.Invariant.{started}
use query_playback.Dispatch.PerConnection.Outcome.{IsDone, executed-of_conn}

abbrev pub entries_of : Option Scan → Option (List QueryLogEntry)
entries_of none = none
entries_of (some st) =
    pop_all (length st.entries + 1) (
      set_shutdown_on_last_query_of_conn (record { entries = st.entries; last_query_of_conn = [] }))

-- The entries that `dispatch` gets from the log, one after another.
unfoldable pub dispatched : Libc → Bool → Bool → StringRef → Option (List QueryLogEntry)
unfolding get_entries set_shutdown_on_last_query_of_conn pop_all
dispatched libc accurate_mode disable_sorting log =
    entries_of (get_entries libc accurate_mode disable_sorting log)

-- The texts of a connection in the order of the log.
abbrev pub log_refs : ℕ → Scan → List StringRef
log_refs id st = map data_ref_of (select (Connection.of_conn id) st.entries)

pub record IsHandedOut (st : Scan) (out : List QueryLogEntry) : Type 0 where
  pub same_refs : (id : ℕ) → entry_refs (of_conn get_thread_id id out) ≡ log_refs id st
  pub marks : MarksLast get_thread_id is_shutdown out

-- For every log and every setting of the options the entries are all handed out: for each connection
-- those that the reading loop made, in the order of the log, and exactly the last of them shuts the
-- connection down.
pub dispatched-IsHandedOut :
    (libc : Libc) (accurate_mode disable_sorting : Bool) (log : StringRef)
    → (st : Scan) × (out : List QueryLogEntry) × (scan_log libc accurate_mode log ≡ some st)
      × (dispatched libc accurate_mode disable_sorting log ≡ some out)
      × IsHandedOut st out
unfolding dispatched
dispatched-IsHandedOut libc accurate_mode disable log =
    let (st, scanned, v) = scan_log-IsScanned libc accurate_mode log in
    let qs = put_in_order disable st.accurate_mode st.entries in
    let cached = put_in_order-IsCached disable st.accurate_mode st.entries v.cached in
    let distinct =
      put_in_order-HasDistinctAddresses disable st.accurate_mode st.entries v.cached
        (Ascends-HasDistinctAddresses log.at st.entries v.ascends) in
    let (out, runs, refs, shuts, out_cached) = pop_all-last_of_conn qs cached distinct in
    let read : get_entries libc accurate_mode disable log ≡ some (record st { entries = qs }) =
      unfold get_entries in rw scanned refl in
    (
      st,
      out,
      scanned,
      rw read runs,
      record {
        same_refs = λ id.
            of_conn-entry_refs id out qs out_cached refs
            ∙ put_in_order-of_conn id disable st.accurate_mode st.entries v.cached;
        marks = shutdowns-MarksLast out qs out_cached refs shuts;
      },
    )

pub out-IsHandedOut :
    (libc : Libc) (accurate_mode disable_sorting : Bool) (log : StringRef) {st : Scan}
    {out : List QueryLogEntry}
    → scan_log libc accurate_mode log ≡ some st
    → dispatched libc accurate_mode disable_sorting log ≡ some out
    → IsHandedOut st out
out-IsHandedOut libc accurate_mode disable log {st} {out} scanned handed =
    let (st', out', scanned', handed', v) = dispatched-IsHandedOut libc accurate_mode disable log in
    let same_scan : st' ≡ st = some_eq (sym scanned' ∙ scanned) in
    let same_out : out' ≡ out = some_eq (sym handed' ∙ handed) in
    subst (λ (o : List QueryLogEntry). IsHandedOut st o) same_out
      (subst (λ (t : Scan). IsHandedOut t out') same_scan v)

-- For every log and every setting of the options, and however the dispatcher and its threads are
-- interleaved: when all is handed out and every thread has ended, the queries executed for a
-- connection are those that the reading loop made of the log for it, each once, in the order of the
-- log.
pub log-executed :
    (libc : Libc) (accurate_mode disable_sorting : Bool) (log : StringRef) (depth : ℕ) {st : Scan}
    {out : List QueryLogEntry} {s : System QueryLogEntry}
    → scan_log libc accurate_mode log ≡ some st
    → dispatched libc accurate_mode disable_sorting log ≡ some out
    → Reach get_thread_id is_shutdown depth (started out) s
    → IsDone s
    → (id : ℕ) → entry_refs (of_conn get_thread_id id s.executed) ≡ log_refs id st
log-executed libc accurate_mode disable log depth {st} {out} {s} scanned handed r d id =
    let w = out-IsHandedOut libc accurate_mode disable log scanned handed in
    ap entry_refs (
      executed-of_conn get_thread_id is_shutdown depth out
        (MarksLast-ShutsLast get_thread_id is_shutdown out w.marks) r d id)
    ∙ w.same_refs id
