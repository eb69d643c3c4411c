-- ===== src/QueryLog/Replay/Reported.antt =====
-- What the simple report prints of a log.
use query_playback.Prelude.{
  ℕ, ◌+◌, ◌<◌, ◌≡◌, ap, ◌∙◌, sym, subst, Bool, true, List, [], ◌∷◌, some, map, select, length, ◌==◌,
  arith,
}
use query_playback.Prelude.Occurrences.{
  count, count-le, count-all, count-map, length-map, select_comm, same_counts-length,
}
use query_playback.Text.{Bytes}
use query_playback.Thread.{DbClient}
use query_playback.QueryLog.Readline.{StringRef}
use query_playback.QueryLog.Data.{Libc, QueryLogData, text_of, thread_id_in}
use query_playback.QueryLog.Scan.{Scan, scan_log}
use query_playback.QueryLog.Order.Connection.{data_ref_of}
use query_playback.QueryLog.Entries.{QueryLogEntry, get_thread_id}
use query_playback.QueryLog.Entries.Marks.{is_shutdown, entry_refs}
use query_playback.QueryLog.Execute.{Options, Clock}
use query_playback.QueryLog.Execute.Reports.{simple_plugin}
use query_playback.QueryLog.Plugin.Pipeline.{dispatched, log_refs, log-executed}
use query_playback.QueryLog.Replay.{World, play}
use query_playback.QueryLog.Replay.Trace.{is_query, queries, play-Trace}
use query_playback.Dispatch.PerConnection.{System}
use query_playback.Dispatch.PerConnection.Steps.{Reach, of_conn}
use query_playback.Dispatch.PerConnection.Invariant.{started}
use query_playback.Dispatch.PerConnection.Outcome.{IsDone}
use query_playback.OrderedMap.{nat_order, lookup, Ascends, nil}
use query_playback.OrderedMap.Laws.{insert_all-Ascends}
use query_playback.Report.{Execution, word_mod}
use query_playback.Report.Simple.{SimpleReport, simple_report, count_of}
use query_playback.Report.Simple.Totals.{report_of, report_of-Counts}
use query_playback.Report.Simple.Printed.{
  PrintedReport, print_report, sorted_conn_count, lookup-sorted_conn_count,
}

-- The texts of the log that are queries.
abbrev pub query_count : List StringRef → ℕ
query_count rs = count is_query rs

abbrev pub all_refs : Scan → List StringRef
all_refs st = map data_ref_of st.entries

-- A printed report against the log.
pub record IsReplayed (st : Scan) (p : PrintedReport) : Type 0 where
  pub ascends : Ascends p.conn_counts
  pub per_thread : (id : ℕ) → count_of (lookup id p.conn_counts) ≡ query_count (log_refs id st)
  pub executed_is : p.executed ≡ query_count (all_refs st)

-- The queries among the members of one connection are the members of that connection among the
-- queries.
query_count-conn :
    {A : Type 0} (ref_of : A → StringRef) (id_of : A → ℕ) (id : ℕ) (xs : List A)
    → query_count (map ref_of (select (λ x. id_of x == id) xs))
      ≡ count (λ x. id_of x == id) (select (λ x. is_query (ref_of x)) xs)
query_count-conn ref_of id_of id xs =
    count-map ref_of is_query (select (λ x. id_of x == id) xs)
    ∙ ap length (select_comm (λ x. is_query (ref_of x)) (λ x. id_of x == id) xs)

same_total :
    (es : List QueryLogEntry) (st : Scan)
    → ((id : ℕ) → entry_refs (of_conn get_thread_id id es) ≡ log_refs id st)
    → length (queries es) ≡ query_count (all_refs st)
same_total es st h =
    let qs = select (λ q. is_query (data_ref_of q)) st.entries in
    let id_of = λ (q : QueryLogData). thread_id_in (text_of q) in
    sym (length-map get_thread_id (queries es))
    ∙ same_counts-length (map get_thread_id (queries es)) (map id_of qs) (λ id.
      count-map get_thread_id (λ k. k == id) (queries es)
      ∙ sym (query_count-conn (λ e. e.query.data_ref) get_thread_id id es)
      ∙ ap query_count (h id)
      ∙ query_count-conn data_ref_of id_of id st.entries
      ∙ sym (count-map id_of (λ k. k == id) qs))
    ∙ length-map id_of qs
    ∙ sym (count-map data_ref_of is_query st.entries)

-- A report of a trace of the entries of a log, which is printed.
printed-IsReplayed :
    (ignore : Bool) (ys : List Execution) (es : List QueryLogEntry) (st : Scan)
    → ((id : ℕ) → entry_refs (of_conn get_thread_id id es) ≡ log_refs id st)
    → ((p : ℕ → Bool)
        → count (λ y. p y.thread_id) ys ≡ count (λ e. p (get_thread_id e)) (queries es) + 0)
    → length ys < word_mod
    → IsReplayed st (print_report true (report_of ignore ys))
unfolding print_report
printed-IsReplayed ignore ys es st h counts few =
    let r = report_of ignore ys in
    let v = report_of-Counts ignore ys few in
    let length_is : length ys ≡ query_count (all_refs st) =
      sym (count-all ys)
      ∙ counts (λ k. true)
      ∙ omega arith
      ∙ count-all (queries es)
      ∙ same_total es st h in
    record {
      ascends = unfold sorted_conn_count in insert_all-Ascends r.connection_query_counts [] nil;
      per_thread = λ id.
          ap count_of (lookup-sorted_conn_count id r)
          ∙ v.per_connection id
          ∙ counts (λ k. k == id)
          ∙ omega arith
          ∙ sym (query_count-conn (λ e. e.query.data_ref) get_thread_id id es)
          ∙ ap query_count (h id);
      executed_is = v.executed ∙ length_is;
    }

module _ (libc : Libc) (options : Options) (clocks : ℕ → Clock)
    (accurate_mode disable_sorting : Bool) (log : StringRef) (depth : ℕ) {st : Scan}
    {out : List QueryLogEntry} {s : System QueryLogEntry}
    (scanned : scan_log libc accurate_mode log ≡ some st)
    (handed : dispatched libc accurate_mode disable_sorting log ≡ some out)
    (reached : Reach get_thread_id is_shutdown depth (started out) s) (done : IsDone s)
    (few : length st.entries < word_mod) where
  few_queries :
      (ys : List Execution)
      → ((p : ℕ → Bool)
          → count (λ y. p y.thread_id) ys
            ≡ count (λ e. p (get_thread_id e)) (queries s.executed) + 0)
      → length ys < word_mod
  few_queries ys counts =
      let order =
        log-executed libc accurate_mode disable_sorting log depth scanned handed reached done in
      let total = same_total s.executed st order in
      let all_ys = count-all ys in
      let all_queries = count-all (queries s.executed) in
      let le = count-le is_query (all_refs st) in
      let len = length-map data_ref_of st.entries in
      omega (arith, few, total, all_ys, all_queries, le, len, counts (λ k. true))

  -- For every log with fewer than 2^64 entries, every setting of the options and every client, and
  -- however the dispatcher and its threads are interleaved: when all is handed out and every thread
  -- has ended, the simple report that is printed with the results per thread lists for each
  -- connection the number of its queries in the log, in ascending order of the connections, and the
  -- number of all of them. A command Quit is no query.
  pub play-IsReplayed :
      {S : Type 0} (db : DbClient S) (init : Bytes) (ignore : Bool) (w : World S SimpleReport)
      → w.reports ≡ simple_report ignore
      → IsReplayed st (
          print_report true
            (play libc options (simple_plugin ∷ []) clocks db init s.executed w).reports)
  play-IsReplayed db init ignore w fresh =
      let t =
        play-Trace libc options clocks db init (λ x. Unit) (λ id query expected c took e. tt) ignore
          s.executed w [] fresh tt in
      let order =
        log-executed libc accurate_mode disable_sorting log depth scanned handed reached done in
      subst (λ (r : SimpleReport). IsReplayed st (print_report true r)) (sym t.is_report)
        (printed-IsReplayed ignore t.ys s.executed st order t.counts (few_queries t.ys t.counts))
