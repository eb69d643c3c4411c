-- ===== src/QueryLog/Replay/Connections.antt =====
-- What the server sees of a log.
use query_playback.Prelude.{
  ℕ, ◌≡◌, refl, ap, ◌∙◌, Bool, true, false, not, List, [], ◌∷◌, Option, some, ◌==◌, if◌then◌else◌,
  Bool-cases, inl, inr, arith,
}
use query_playback.Text.{Bytes, is_empty}
use query_playback.Prelude.Int.{pos}
use query_playback.Thread.{DbClient, init_session, connect_and_init_session, run_entry}
use query_playback.QueryLog.Readline.{StringRef}
use query_playback.QueryLog.Data.{Libc, QueryLogData, is_quit, parse_rows_sent, parse_rows_examined}
use query_playback.QueryLog.Data.Query.{joined, statement_lines}
use query_playback.QueryLog.Entries.{QueryLogEntry, get_thread_id}
use query_playback.QueryLog.Entries.Marks.{is_shutdown, entry_refs}
use query_playback.QueryLog.Execute.{
  Options, Clock, ReportPlugin, Executed, expected_result, execute_text, execute,
}
use query_playback.QueryLog.Execute.Reports.{execute_lem}
use query_playback.QueryLog.Replay.{
  OnThread, World, on_connection, after_execute, thread_of, query_log_entry, run_one, play_entry,
  play,
}
use query_playback.Dispatch.PerConnection.Steps.{of_conn, Reach, ShutsLast}
use query_playback.Dispatch.PerConnection.{System}
use query_playback.Dispatch.PerConnection.Marking.{MarksLast-ShutsLast}
use query_playback.Dispatch.PerConnection.Invariant.{started}
use query_playback.Dispatch.PerConnection.Outcome.{IsDone, executed-of_conn}
use query_playback.QueryLog.Scan.{Scan, scan_log}
use query_playback.QueryLog.Plugin.Pipeline.{dispatched, log_refs, out-IsHandedOut}

abbrev pub data_of : StringRef → QueryLogData
data_of r = record { data_ref = r; thread_id = 0; start_time = pos 0 }

module _ {S : Type 0} (libc : Libc) (options : Options) (db : DbClient S) (init : Bytes) where
  -- What a client gets to do for one entry of the log, with the bytes of that entry alone.
  abbrev pub replay_one : StringRef → S → S
  replay_one r s =
      if is_quit (data_of r)
      then (connect_and_init_session db init (db.disconnect s)).1
      else (db.execute_query (joined (statement_lines (not options.run_set_timestamp) r.text))
          (expected_result libc (data_of r)) s).1

  -- The entries of a connection, and the `disconnect` behind the last one.
  abbrev pub replay : List StringRef → S → S
  replay [] s = s
  replay (r ∷ []) s = db.disconnect (replay_one r s)
  replay (r ∷ q ∷ rs) s = replay (q ∷ rs) (replay_one r s)

  module _ {R : Type 0} (plugins : List (ReportPlugin R)) (clocks : ℕ → Clock) where
    init_session-on_connection :
        (t : OnThread S R)
        → (init_session (on_connection db) init t).connection ≡ init_session db init t.connection
    unfolding init_session
    init_session-on_connection t = elim (Bool-cases (is_empty init)) [ inl e ↦ rw e | inr e ↦ rw e ]

    connect-on_connection :
        (t : OnThread S R)
        → (connect_and_init_session (on_connection db) init t).1.connection
          ≡ (connect_and_init_session db init t.connection).1
    unfolding connect_and_init_session
    connect-on_connection t = elim (Bool-cases (db.connect t.connection).0) [
      | inl e ↦
          rw e (init_session-on_connection (record t { connection = (db.connect t.connection).1 }))
      | inr e ↦ rw e
    ]

    execute-connection :
        (e : QueryLogEntry) (t : OnThread S R)
        → (after_execute t (
            execute libc options plugins
              (on_connection db)
              (clocks t.turn)
              e.query
              t.paced
              t
              t.reports)).connection
          ≡ (db.execute_query
              (joined (statement_lines (not options.run_set_timestamp) e.query.data_ref.text))
              (expected_result libc e.query)
              t.connection).1
    unfolding execute_text
    execute-connection e t =
        ap (λ (o : Option (Executed (OnThread S R) R)). (after_execute t o).connection)
          (execute_lem libc options plugins (on_connection db) (clocks t.turn) e.query t.paced t
            t.reports)

    run_entry-connection :
        (e : QueryLogEntry) (t : OnThread S R)
        → (run_entry
            (on_connection db)
            init
            (query_log_entry libc options plugins clocks)
            e
            t).connection
          ≡ replay_one e.query.data_ref t.connection
    unfolding run_entry is_quit expected_result parse_rows_sent parse_rows_examined
    run_entry-connection e t = elim (Bool-cases (is_quit e.query)) [
      | inl q ↦ rw q (connect-on_connection (record t { connection = db.disconnect t.connection }))
      | inr q ↦ rw q (execute-connection e t)
    ]

    -- Behind an entry that shuts the thread down it disconnects.
    abbrev replay_entry : QueryLogEntry → S → S
    replay_entry e s =
        if e.shutdown
        then db.disconnect (replay_one e.query.data_ref s)
        else replay_one e.query.data_ref s

    run_one-connection :
        (e : QueryLogEntry) (t : OnThread S R)
        → (run_one libc options plugins clocks db init e t).connection ≡ replay_entry e t.connection
    unfolding run_one
    run_one-connection e t = elim (Bool-cases e.shutdown) [
      | inl x ↦ rw x (ap db.disconnect (run_entry-connection e t))
      | inr x ↦ rw x (run_entry-connection e t)
    ]

    abbrev replay_entries : List QueryLogEntry → S → S
    replay_entries [] s = s
    replay_entries (e ∷ es) s = replay_entries es (replay_entry e s)

    play_entry-own :
        (e : QueryLogEntry) (id : ℕ) (w : World S R)
        → (get_thread_id e == id) ≡ true
        → (play_entry libc options plugins clocks db init e w).connections id
          ≡ replay_entry e (w.connections id)
    unfolding play_entry
    play_entry-own e id w h =
        let same : get_thread_id e ≡ id = ground arith in
        rw h (
          run_one-connection e (thread_of (get_thread_id e) w)
          ∙ ap (λ (i : ℕ). replay_entry e (w.connections i)) same)

    play_entry-other :
        (e : QueryLogEntry) (id : ℕ) (w : World S R)
        → (get_thread_id e == id) ≡ false
        → (play_entry libc options plugins clocks db init e w).connections id ≡ w.connections id
    unfolding play_entry
    play_entry-other e id w h = rw h refl

    -- A connection sees its own entries alone.
    play-connections :
        (id : ℕ) (es : List QueryLogEntry) (w : World S R)
        → (play libc options plugins clocks db init es w).connections id
          ≡ replay_entries (of_conn get_thread_id id es) (w.connections id)
    play-connections id [] w = refl
    play-connections id (e ∷ es) w =
        let w' = play_entry libc options plugins clocks db init e w in
        let rest = play-connections id es w' in
        elim (Bool-cases (get_thread_id e == id)) [
          | inl own ↦ rest ∙ rw (own, play_entry-own e id w own) refl
          | inr other ↦ rest ∙ rw (other, play_entry-other e id w other) refl
        ]

    replay_entries-ShutsLast :
        (es : List QueryLogEntry) (s : S)
        → ShutsLast is_shutdown es
        → replay_entries es s ≡ replay (entry_refs es) s
    replay_entries-ShutsLast [] s h = refl
    replay_entries-ShutsLast (e ∷ []) s h = rw h refl
    replay_entries-ShutsLast (e ∷ f ∷ es) s h =
        rw h.0 (replay_entries-ShutsLast (f ∷ es) (replay_one e.query.data_ref s) h.1)

    -- For every log, every setting of the options and every client, and however the dispatcher and
    -- its threads are interleaved: when all is handed out and every thread has ended, the client of a
    -- connection has been through what the log alone says, the same for all interleavings. In the
    -- order of the log it has executed the text of each query of the connection, and for an
    -- administrator command Quit disconnected and connected again, and at the end it disconnected.
    pub play-replay :
        (accurate_mode disable_sorting : Bool) (log : StringRef) (depth : ℕ) {st : Scan}
        {out : List QueryLogEntry} {s : System QueryLogEntry}
        → scan_log libc accurate_mode log ≡ some st
        → dispatched libc accurate_mode disable_sorting log ≡ some out
        → Reach get_thread_id is_shutdown depth (started out) s
        → IsDone s
        → (w : World S R) (id : ℕ)
        → (play libc options plugins clocks db init s.executed w).connections id
          ≡ replay (log_refs id st) (w.connections id)
    play-replay accurate_mode disable log depth {st} {out} {s} scanned handed r d w id =
        let v = out-IsHandedOut libc accurate_mode disable log scanned handed in
        let shuts = MarksLast-ShutsLast get_thread_id is_shutdown out v.marks in
        play-connections id s.executed w
        ∙ ap (λ (es : List QueryLogEntry). replay_entries es (w.connections id))
            (executed-of_conn get_thread_id is_shutdown depth out shuts r d id)
        ∙ replay_entries-ShutsLast (of_conn get_thread_id id out) (w.connections id) (shuts id)
        ∙ ap (λ (rs : List StringRef). replay rs (w.connections id)) (v.same_refs id)
