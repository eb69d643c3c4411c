-- ===== src/QueryLog/Plugin/Pooled.antt =====
-- From the log to the workers of the pool: getEntries, and `run`, `dispatch` and
-- `finish_all_and_wait` of percona_playback/thread_pool, which marks no entries.
use query_playback.Prelude.{
  ℕ, ◌+◌, ◌%◌, ◌<◌, ◌≡◌, refl, ap, ◌∙◌, Bool, true, false, List, [], ◌∷◌, ◌++◌, Option, none, some,
  length, map, All, ◌==◌, arith,
}
use query_playback.Prelude.Occurrences.{select_narrower, select_apart}
use query_playback.Text.{Bytes}
use query_playback.Thread.{entry, finish, DbClient, QueryEntry, with_finish, run, ends}
use query_playback.Thread.Run.{run_entries}
use query_playback.QueryLog.Readline.{StringRef}
use query_playback.QueryLog.Data.{Libc, QueryLogData}
use query_playback.QueryLog.Data.Fields.{IsCached}
use query_playback.QueryLog.Scan.{Scan, scan_log}
use query_playback.QueryLog.Scan.Invariant.{scan_log-IsScanned}
use query_playback.QueryLog.Order.{put_in_order, get_entries}
use query_playback.QueryLog.Order.Connection.{data_ref_of, put_in_order-of_conn}
use query_playback.QueryLog.Order.Kept.{put_in_order-IsCached}
use query_playback.QueryLog.Entries.{QueryLogEntry, get_thread_id, pop_all}
use query_playback.QueryLog.Entries.Shutdown.{handed_out, pop_all-handed_out}
use query_playback.QueryLog.Entries.Marks.{is_shutdown, entry_refs, of_conn-entry_refs}
use query_playback.QueryLog.Plugin.Pipeline.{log_refs}
use query_playback.Dispatch.Pool.{Workers, run_pool, worker_index, dispatch, finish_all}
use query_playback.Dispatch.Pool.Queues.{queue_at, share, pool_runs}
use query_playback.Dispatch.PerConnection.Steps.{of_conn}

abbrev pub unmarked_entries : Option Scan → Option (List QueryLogEntry)
unmarked_entries none = none
unmarked_entries (some st) =
    pop_all (length st.entries + 1) (record { entries = st.entries; last_query_of_conn = [] })

abbrev pub dispatch_to : (ℕ → ℕ) → ℕ → Option (List QueryLogEntry) → Option (Workers QueryLogEntry)
dispatch_to crc count none = none
dispatch_to crc count (some es) = dispatch crc get_thread_id es (run_pool count)

-- The queues when the log is dispatched to the pool.
unfoldable pub pooled :
    Libc → Bool → Bool → StringRef → (ℕ → ℕ) → ℕ → Option (Workers QueryLogEntry)
unfolding get_entries pop_all dispatch run_pool
pooled libc accurate_mode disable_sorting log crc count =
    dispatch_to crc count (unmarked_entries (get_entries libc accurate_mode disable_sorting log))

handed_out-refs : (qs : List QueryLogData) → entry_refs (handed_out qs []) ≡ map data_ref_of qs
handed_out-refs [] = refl
handed_out-refs (q ∷ qs) = ap (◌∷◌ q.data_ref) (handed_out-refs qs)

handed_out-IsCached :
    (qs : List QueryLogData) → All IsCached qs → All (λ e. IsCached e.query) (handed_out qs [])
handed_out-IsCached [] h = tt
handed_out-IsCached (q ∷ qs) h = (h.0, handed_out-IsCached qs h.1)

handed_out_unmarked :
    {S : Type 0} (q : QueryEntry QueryLogEntry S) (qs : List QueryLogData)
    → ((e : QueryLogEntry) → q.is_shutdown e ≡ is_shutdown e)
    → All (λ e. q.is_shutdown e ≡ false) (handed_out qs [])
handed_out_unmarked q [] h = tt
handed_out_unmarked q (x ∷ xs) h =
    (h (record { query = x; shutdown = false }), handed_out_unmarked q xs h)

equal_self : (n : ℕ) → (n == n) ≡ true
equal_self n = ground arith

module _ (crc : ℕ → ℕ) (count : ℕ) where
  abbrev share_of : ℕ → List QueryLogEntry → List QueryLogEntry
  share_of j es = share crc get_thread_id count j es

  own_share :
      (id : ℕ) (es : List QueryLogEntry)
      → of_conn get_thread_id id (share_of (crc id % count) es) ≡ of_conn get_thread_id id es
  own_share id es =
      select_narrower (λ e. get_thread_id e == id)
        (λ e. worker_index crc get_thread_id count e == (crc id % count)) es
        (λ e own.
          let same : get_thread_id e ≡ id = ground arith in
          ap (λ (i : ℕ). (crc i % count) == (crc id % count)) same ∙ equal_self (crc id % count))

  other_share :
      (id j : ℕ) (es : List QueryLogEntry)
      → ((crc id % count) == j) ≡ false
      → of_conn get_thread_id id (share_of j es) ≡ []
  other_share id j es apart =
      select_apart (λ e. get_thread_id e == id) (λ e. worker_index crc get_thread_id count e == j)
        es
        (λ e own.
          let same : get_thread_id e ≡ id = ground arith in
          ap (λ (i : ℕ). (crc i % count) == j) same ∙ apart)

-- What the workers do with a log: `out` is what is dispatched.
pub record IsPooled {S : Type 0} (crc : ℕ → ℕ) (count : ℕ) (db : DbClient S) (init : Bytes)
    (q : QueryEntry QueryLogEntry S) (st : Scan) (out : List QueryLogEntry)
    (ws : Workers QueryLogEntry) : Type 0 where
  -- a worker runs its share and ends, with nothing left in its queue
  pub runs_share :
      (j : ℕ) (s : S)
      → j < count
      → run db init (with_finish q) (queue_at j (finish_all ws)) s
        ≡ ends
            (db.disconnect (
              run_entries db init
                (with_finish q)
                (map entry (share crc get_thread_id count j out) ++ finish ∷ [])
                s))
            []
  -- the share of the worker of a connection has its queries in the order of the log
  pub in_order :
      (id : ℕ)
      → entry_refs (of_conn get_thread_id id (share crc get_thread_id count (crc id % count) out))
        ≡ log_refs id st
  -- no other worker has any of them
  pub apart :
      (id j : ℕ)
      → ((crc id % count) == j) ≡ false
      → of_conn get_thread_id id (share crc get_thread_id count j out) ≡ []

-- For every log, every setting of the options, every client and any number of workers but 0: the log
-- is dispatched to the queues of the pool, and when finish_all_and_wait has shut them down every
-- worker runs its queue to the end. All queries of a connection are run by one worker, in the order
-- of the log.
pub pooled-IsPooled :
    {S : Type 0} (libc : Libc) (accurate_mode disable_sorting : Bool) (log : StringRef)
    (crc : ℕ → ℕ) (count : ℕ) (db : DbClient S) (init : Bytes) (q : QueryEntry QueryLogEntry S)
    → 0 < count
    → ((e : QueryLogEntry) → q.is_shutdown e ≡ is_shutdown e)
    → (st : Scan) × (out : List QueryLogEntry) × (ws : Workers QueryLogEntry) × (scan_log libc
          accurate_mode log
        ≡ some st)
      × (pooled libc accurate_mode disable_sorting log crc count ≡ some ws)
      × IsPooled crc count db init q st out ws
unfolding pooled
pooled-IsPooled libc accurate_mode disable log crc count db init q some_worker shuts =
    let (st, scanned, v) = scan_log-IsScanned libc accurate_mode log in
    let qs = put_in_order disable st.accurate_mode st.entries in
    let cached = put_in_order-IsCached disable st.accurate_mode st.entries v.cached in
    let out = handed_out qs [] in
    let popped : pop_all (length qs + 1) (record { entries = qs; last_query_of_conn = [] })
        ≡ some out =
      pop_all-handed_out (length qs + 1) qs [] (omega arith) in
    let read : get_entries libc accurate_mode disable log ≡ some (record st { entries = qs }) =
      unfold get_entries in rw scanned refl in
    let (ws, given, runs) =
      pool_runs crc get_thread_id db init q count out (handed_out_unmarked q qs shuts)
        some_worker in
    (
      st,
      out,
      ws,
      scanned,
      rw (read, popped) given,
      record {
        runs_share = runs;
        in_order = λ id.
            ap entry_refs (own_share crc count id out)
            ∙ of_conn-entry_refs id out qs (handed_out-IsCached qs cached) (handed_out-refs qs)
            ∙ put_in_order-of_conn id disable st.accurate_mode st.entries v.cached;
        apart = λ id j other. other_share crc count id j out other;
      },
    )
