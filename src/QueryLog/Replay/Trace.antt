-- ===== src/QueryLog/Replay/Trace.antt =====
-- The executions that the simple report is told of when the entries of a log are run.
use query_playback.Prelude.{
  ◌⊎◌, ℕ, ◌+◌, ◌≡◌, refl, ap, ◌∙◌, sym, subst, Bool, true, false, not, List, [], ◌∷◌, Option,
  select, All, Bool-cases, inl, inr, arith,
}
use query_playback.Prelude.Int.{ℤ, pos, ◌-ℤ◌}
use query_playback.Prelude.Occurrences.{count, bit, count-cons}
use query_playback.Text.{Bytes, is_empty}
use query_playback.Result.{QueryResult}
use query_playback.Thread.{DbClient, init_session, connect_and_init_session, run_entry}
use query_playback.QueryLog.Readline.{StringRef}
use query_playback.QueryLog.Data.{Libc, text_of, parse_thread_id, is_quit}
use query_playback.QueryLog.Data.Query.{joined, statement_lines}
use query_playback.QueryLog.Entries.{QueryLogEntry, get_thread_id}
use query_playback.QueryLog.Execute.{
  Options, Clock, Executed, expected_result, report_all, execute_text, execute,
}
use query_playback.QueryLog.Execute.Reports.{execute_lem, simple_plugin}
use query_playback.QueryLog.Replay.{
  OnThread, World, on_connection, after_execute, disconnect_if, thread_of, query_log_entry, run_one,
  play_entry, play,
}
use query_playback.QueryLog.Replay.Connections.{data_of}
use query_playback.Report.{Execution}
use query_playback.Report.Simple.{SimpleReport, query_execution}
use query_playback.Report.Simple.Totals.{report_of}

-- An entry that is no administrator command Quit.
abbrev pub is_query : StringRef → Bool
is_query r = not (is_quit (data_of r))

abbrev pub queries : List QueryLogEntry → List QueryLogEntry
queries es = select (λ e. is_query e.query.data_ref) es

-- An answer of a client as the reports get it: the pause in it aside, which the clocks say.
module _ {S : Type 0} (libc : Libc) (options : Options) (clocks : ℕ → Clock) (db : DbClient S)
    (init : Bytes) (Q : Execution → Type 0)
    (answers : (thread_id : ℕ) (query : Bytes) (expected : QueryResult) (s : S) (took : ℤ)
      → expected.error ≡ pos 0
      → Q (record {
        thread_id = thread_id;
        query = query;
        expected = expected;
        actual = record (db.execute_query query expected s).0 { duration = took };
      })) where
  -- One report more of an execution.
  record Reports (e : QueryLogEntry) (t t' : OnThread S SimpleReport) : Type 0 where
    x : Execution
    its_id : x.thread_id ≡ get_thread_id e
    answered : Q x
    reported : t'.reports ≡ query_execution x t.reports

  execute-Reports :
      (e : QueryLogEntry) (t : OnThread S SimpleReport)
      → Reports e t (
          after_execute t (
            execute libc options
              (simple_plugin ∷ [])
              (on_connection db)
              (clocks t.turn)
              e.query
              t.paced
              t
              t.reports))
  unfolding execute_text expected_result report_all get_thread_id
  execute-Reports e t =
      let query = joined (statement_lines (not options.run_set_timestamp) (text_of e.query)) in
      let clock = clocks t.turn in
      subst
        (λ (o : Option (Executed (OnThread S SimpleReport) SimpleReport)).
          Reports e t (after_execute t o))
        (sym (
          execute_lem libc options (simple_plugin ∷ []) (on_connection db) clock e.query t.paced t
            t.reports))
        (record {
          x = record {
            thread_id = (parse_thread_id e.query).0;
            query = query;
            expected = expected_result libc e.query;
            actual = record (db.execute_query query (expected_result libc e.query) t.connection).0 {
              duration = clock.end_time -ℤ clock.start_time;
            };
          };
          its_id = refl;
          answered =
              answers (parse_thread_id e.query).0 query (expected_result libc e.query) t.connection
                (clock.end_time -ℤ clock.start_time) refl;
          reported = refl;
        })

  init_session-reports :
      (t : OnThread S SimpleReport) → (init_session (on_connection db) init t).reports ≡ t.reports
  unfolding init_session
  init_session-reports t = elim (Bool-cases (is_empty init)) [ inl e ↦ rw e | inr e ↦ rw e ]

  connect-reports :
      (t : OnThread S SimpleReport)
      → (connect_and_init_session (on_connection db) init t).1.reports ≡ t.reports
  unfolding connect_and_init_session
  connect-reports t = elim (Bool-cases (db.connect t.connection).0) [
    | inl e ↦ rw e (init_session-reports (record t { connection = (db.connect t.connection).1 }))
    | inr e ↦ rw e
  ]

  -- A command Quit is not reported, and every other entry is, once.
  abbrev Goes : QueryLogEntry → OnThread S SimpleReport → OnThread S SimpleReport → Type 0
  Goes e t t' =
      ((is_query e.query.data_ref ≡ false) × (t'.reports ≡ t.reports))
      ⊎ ((is_query e.query.data_ref ≡ true) × Reports e t t')

  run_entry-Goes :
      (e : QueryLogEntry) (t : OnThread S SimpleReport)
      → Goes e t (
          run_entry
            (on_connection db)
            init
            (query_log_entry libc options (simple_plugin ∷ []) clocks)
            e
            t)
  unfolding run_entry is_quit
  run_entry-Goes e t = elim (Bool-cases (is_quit e.query)) [
    | inl q ↦
        rw q (inl (refl, connect-reports (record t { connection = db.disconnect t.connection })))
    | inr q ↦ rw q (inr (refl, execute-Reports e t))
  ]

  disconnect-Goes :
      (b : Bool) (e : QueryLogEntry) (t t' : OnThread S SimpleReport)
      → Goes e t t'
      → Goes e t (disconnect_if db b t')
  disconnect-Goes false e t t' h = h
  disconnect-Goes true e t t' (inl (q, same)) = inl (q, same)
  disconnect-Goes true e t t' (inr (q, r)) =
      inr (q, record { x = r.x; its_id = r.its_id; answered = r.answered; reported = r.reported })

  run_one-Goes :
      (e : QueryLogEntry) (t : OnThread S SimpleReport)
      → Goes e t (run_one libc options (simple_plugin ∷ []) clocks db init e t)
  unfolding run_one
  run_one-Goes e t = disconnect-Goes e.shutdown e t _ (run_entry-Goes e t)

  -- The reports of a list of executions, in which an entry that is a query stands once.
  pub record Trace (ignore : Bool) (es : List QueryLogEntry) (xs : List Execution)
      (r : SimpleReport) : Type 0 where
    pub ys : List Execution
    pub is_report : r ≡ report_of ignore ys
    pub answered : All Q ys
    pub counts :
        (p : ℕ → Bool)
        → count (λ y. p y.thread_id) ys
          ≡ count (λ e. p (get_thread_id e)) (queries es) + count (λ y. p y.thread_id) xs

  count_step :
      (p : ℕ → Bool) (e : QueryLogEntry) (es : List QueryLogEntry) (x : Execution)
      (xs : List Execution) (n : ℕ)
      → is_query e.query.data_ref ≡ true
      → x.thread_id ≡ get_thread_id e
      → n ≡ count (λ f. p (get_thread_id f)) (queries es) + count (λ y. p y.thread_id) (x ∷ xs)
      → n ≡ count (λ f. p (get_thread_id f)) (queries (e ∷ es)) + count (λ y. p y.thread_id) xs
  count_step p e es x xs n q same h = rw q (
      omega (
        arith,
        h,
        count-cons (λ f. p (get_thread_id f)) e (queries es),
        count-cons (λ y. p y.thread_id) x xs,
        ap (λ (i : ℕ). bit (p i)) same,
      ))

  pub play-Trace :
      (ignore : Bool) (es : List QueryLogEntry) (w : World S SimpleReport) (xs : List Execution)
      → w.reports ≡ report_of ignore xs
      → All Q xs
      → Trace ignore es xs (play libc options (simple_plugin ∷ []) clocks db init es w).reports
  play-Trace ignore [] w xs h k = record {
    ys = xs;
    is_report = h;
    answered = k;
    counts = λ p. omega arith;
  }
  play-Trace ignore (e ∷ es) w xs h k =
      let id = get_thread_id e in
      let w' = play_entry libc options (simple_plugin ∷ []) clocks db init e w in
      let reports_is : w'.reports
          ≡ (run_one libc options (simple_plugin ∷ []) clocks db init e (thread_of id w)).reports =
        unfold play_entry in refl in
      elim (run_one-Goes e (thread_of id w)) [
        | inl (q, same) ↦
            let rest = play-Trace ignore es w' xs (reports_is ∙ same ∙ h) k in
            record {
              ys = rest.ys;
              is_report = rest.is_report;
              answered = rest.answered;
              counts = λ p. rw q (rest.counts p);
            }
        | inr (q, r) ↦
            let rest =
              play-Trace ignore es w' (r.x ∷ xs)
                (reports_is ∙ r.reported ∙ ap (query_execution r.x) h) (r.answered, k) in
            record {
              ys = rest.ys;
              is_report = rest.is_report;
              answered = rest.answered;
              counts = λ p. count_step p e es r.x xs _ q r.its_id (rest.counts p);
            }
      ]
