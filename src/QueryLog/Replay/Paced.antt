-- ===== src/QueryLog/Replay/Paced.antt =====
-- When the entries of a log are run in the accurate mode, and what the report of the query log plugin
-- says of it.
use query_playback.Prelude.{
  ℕ, ◌≡◌, inl, inr, refl, ap, ◌∙◌, subst, Bool, true, false, List, [], ◌∷◌, Option, some, All,
  if◌then◌else◌, Bool-cases, arith,
}
use query_playback.Prelude.Int.{ℤ, pos, ◌+ℤ◌, ◌-ℤ◌}
use query_playback.Text.{Bytes, is_empty}
use query_playback.Thread.{DbClient, init_session, connect_and_init_session, run_entry}
use query_playback.QueryLog.Data.{Libc, is_quit}
use query_playback.QueryLog.Entries.{QueryLogEntry, get_thread_id}
use query_playback.QueryLog.Execute.{
  Options, Clock, Pace, ReportPlugin, Executed, offset_or, pace, execute_text, execute,
}
use query_playback.QueryLog.Execute.Pacing.{run_time_is, max_behind_ns_bounds}
use query_playback.QueryLog.Execute.Reports.{execute_lem}
use query_playback.QueryLog.Replay.{
  OnThread, World, on_connection, after_execute, disconnect_if, thread_of, query_log_entry, run_one,
  play_entry, play,
}
use query_playback.QueryLog.Replay.Trace.{is_query}
use query_playback.QueryLog.Replay.Planned.{
  Planned, planned_of, IsAt, accurate, IsGreatest, pace-max, IsGreatest-cons,
}

module _ {S R : Type 0} (libc : Libc) (options : Options) (plugins : List (ReportPlugin R))
    (clocks : ℕ → Clock) (db : DbClient S) (init : Bytes) where
  execute-paced :
      (e : QueryLogEntry) (t : OnThread S R)
      → (after_execute t (
          execute libc
            (accurate options)
            plugins
            (on_connection db)
            (clocks t.turn)
            e.query
            t.paced
            t
            t.reports)).paced
        ≡ (pace (clocks t.turn) e.query t.paced).1
  unfolding execute_text
  execute-paced e t =
      ap (λ (o : Option (Executed (OnThread S R) R)). (after_execute t o).paced)
        (execute_lem libc (accurate options) plugins (on_connection db) (clocks t.turn) e.query
          t.paced t t.reports)

  init_session-paced : (t : OnThread S R) → (init_session (on_connection db) init t).paced ≡ t.paced
  unfolding init_session
  init_session-paced t = elim (Bool-cases (is_empty init)) [ inl e ↦ rw e | inr e ↦ rw e ]

  connect-paced :
      (t : OnThread S R) → (connect_and_init_session (on_connection db) init t).1.paced ≡ t.paced
  unfolding connect_and_init_session
  connect-paced t = elim (Bool-cases (db.connect t.connection).0) [
    | inl e ↦ rw e (init_session-paced (record t { connection = (db.connect t.connection).1 }))
    | inr e ↦ rw e
  ]

  -- Only a query moves the pace.
  abbrev next_pace : QueryLogEntry → ℕ → Pace → Pace
  next_pace e turn p = if is_query e.query.data_ref then (pace (clocks turn) e.query p).1 else p

  run_entry-paced :
      (e : QueryLogEntry) (t : OnThread S R)
      → (run_entry
          (on_connection db)
          init
          (query_log_entry libc (accurate options) plugins clocks)
          e
          t).paced
        ≡ next_pace e t.turn t.paced
  unfolding run_entry is_quit
  run_entry-paced e t = elim (Bool-cases (is_quit e.query)) [
    | inl q ↦ rw q (connect-paced (record t { connection = db.disconnect t.connection }))
    | inr q ↦ rw q (execute-paced e t)
  ]

  disconnect_if-paced : (b : Bool) (t : OnThread S R) → (disconnect_if db b t).paced ≡ t.paced
  disconnect_if-paced true t = refl
  disconnect_if-paced false t = refl

  play_entry-paced :
      (e : QueryLogEntry) (w : World S R)
      → (play_entry libc (accurate options) plugins clocks db init e w).paced
        ≡ next_pace e w.turn w.paced
  unfolding play_entry run_one
  play_entry-paced e w =
      disconnect_if-paced e.shutdown _ ∙ run_entry-paced e (thread_of (get_thread_id e) w)

  -- The queries of a list of entries, as they are run one after another.
  abbrev pub plans : List QueryLogEntry → World S R → List Planned
  plans [] w = []
  plans (e ∷ es) w =
      let rest = plans es (play_entry libc (accurate options) plugins clocks db init e w) in
      if is_query e.query.data_ref then planned_of (clocks w.turn) e.query w.paced ∷ rest else rest

  after_query :
      (e : QueryLogEntry) (w : World S R)
      → is_query e.query.data_ref ≡ true
      → (play_entry libc (accurate options) plugins clocks db init e w).paced
        ≡ (pace (clocks w.turn) e.query w.paced).1
  after_query e w q = play_entry-paced e w ∙ rw q refl

  after_other :
      (e : QueryLogEntry) (w : World S R)
      → is_query e.query.data_ref ≡ false
      → (play_entry libc (accurate options) plugins clocks db init e w).paced ≡ w.paced
  after_other e w q = play_entry-paced e w ∙ rw q refl

  offset_at : ℕ → QueryLogEntry → World S R → ℤ
  offset_at turn e w =
      offset_or ((clocks turn).first_now -ℤ e.query.start_time) w.paced.first_query_exec_offset

  offset_after :
      (e : QueryLogEntry) (w : World S R)
      → is_query e.query.data_ref ≡ true
      → (play_entry libc
          (accurate options)
          plugins
          clocks
          db
          init
          e
          w).paced.first_query_exec_offset
        ≡ some (offset_at w.turn e w)
  unfolding pace offset_at
  offset_after e w q = ap (λ (p : Pace). p.first_query_exec_offset) (after_query e w q)

  plans-offset :
      (es : List QueryLogEntry) (w : World S R) (o : ℤ)
      → w.paced.first_query_exec_offset ≡ some o
      → All (IsAt o) (plans es w)
  unfolding offset_at
  plans-offset [] w o h = tt
  plans-offset (e ∷ es) w o h =
      let first = (clocks w.turn).first_now -ℤ e.query.start_time in
      elim (Bool-cases (is_query e.query.data_ref)) [
        | inl q ↦ rw q (
          run_time_is (clocks w.turn) e.query w.paced
              ∙ ap (λ (x : Option ℤ). e.query.start_time +ℤ offset_or first x) h,
          plans-offset es _ o
              (offset_after e w q ∙ ap (λ (x : Option ℤ). some (offset_or first x)) h),
        )
        | inr q ↦ rw q (
            plans-offset es _ o
              (ap (λ (p : Pace). p.first_query_exec_offset) (after_other e w q) ∙ h))
      ]

  one_offset : (es : List QueryLogEntry) (w : World S R) → (o : ℤ) × All (IsAt o) (plans es w)
  one_offset [] w = (pos 0, tt)
  one_offset (e ∷ es) w = elim (Bool-cases (is_query e.query.data_ref)) [
    | inl q ↦ (
      offset_at w.turn e w,
      rw q (
        unfold offset_at in run_time_is (clocks w.turn) e.query w.paced,
        plans-offset es (play_entry libc (accurate options) plugins clocks db init e w)
            (offset_at w.turn e w) (offset_after e w q),
      ),
    )
    | inr q ↦
        let (o, h) =
          one_offset es (play_entry libc (accurate options) plugins clocks db init e w) in
        (o, rw q h)
  ]

  play-IsGreatest :
      (es : List QueryLogEntry) (w : World S R)
      → IsGreatest w.paced.max_behind_ns
          (play libc (accurate options) plugins clocks db init es w).paced.max_behind_ns
          (plans es w)
  play-IsGreatest [] w = record { bounds = tt; never_falls = omega arith; attained = inl refl }
  play-IsGreatest (e ∷ es) w =
      let w' = play_entry libc (accurate options) plugins clocks db init e w in
      let v = play-IsGreatest es w' in
      elim (Bool-cases (is_query e.query.data_ref)) [
        | inl q ↦
            let max = ap (λ (p : Pace). p.max_behind_ns) (after_query e w q) in
            let now = max_behind_ns_bounds (clocks w.turn) e.query w.paced in
            rw q (
              IsGreatest-cons (planned_of (clocks w.turn) e.query w.paced) (plans es w')
                (pace-max (clocks w.turn) e.query w.paced) now.0 now.1
                (subst
                  (λ (m : ℤ).
                    IsGreatest m
                      (play libc (accurate options) plugins clocks db init es
                        w').paced.max_behind_ns
                      (plans es w'))
                  max v))
        | inr q ↦
            let same : w'.paced.max_behind_ns ≡ w.paced.max_behind_ns =
              ap (λ (p : Pace). p.max_behind_ns) (after_other e w q) in
            rw q (
              subst
                (λ (m : ℤ).
                  IsGreatest m
                    (play libc (accurate options) plugins clocks db init es w').paced.max_behind_ns
                    (plans es w'))
                same v)
      ]

  -- In the accurate mode, whatever entries of a slow query log the threads run, in whatever order,
  -- and whatever the clocks say: every query is planned at its start time plus one offset, the same
  -- for all of them. At the end `g_max_behind_ns` is not below what it was, and not below the delay
  -- of any of them, and it is what it was or one of the delays.
  pub play-IsPaced :
      (es : List QueryLogEntry) (w : World S R)
      → ((o : ℤ) × All (IsAt o) (plans es w))
        × IsGreatest w.paced.max_behind_ns
            (play libc (accurate options) plugins clocks db init es w).paced.max_behind_ns
            (plans es w)
  play-IsPaced es w = (one_offset es w, play-IsGreatest es w)
