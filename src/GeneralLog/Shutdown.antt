-- ===== src/GeneralLog/Shutdown.antt =====
-- The entries of the general log as the dispatcher of percona_playback/thread_per_connection needs
-- them.
use query_playback.Prelude.{
  contains, ℕ, ◌≡◌, refl, ap, ◌∙◌, Bool, false, List, [], ◌∷◌, map, All, ◌==◌, Bool-cases,
  Option-cases, inl, inr, arith,
}
use query_playback.Text.{Bytes}
use query_playback.Dispatch.PerConnection.{System}
use query_playback.Dispatch.PerConnection.Steps.{Reach, of_conn, ShutsLast}
use query_playback.Dispatch.PerConnection.Marking.{MarksLast, MarksLast-ShutsLast}
use query_playback.Dispatch.PerConnection.Invariant.{started}
use query_playback.Dispatch.PerConnection.Outcome.{IsDone, executed-of_conn}
use query_playback.GeneralLog.{
  GeneralLogEntry, Matcher, get_entries, mark_entries, set_shutdown_on_last_query_of_conn,
}
use query_playback.GeneralLog.LineEntries.{is_skipped, line_entries, get_entries-line_entries}

abbrev pub id_of : GeneralLogEntry → ℕ
id_of e = e.thread_id

abbrev pub shuts : GeneralLogEntry → Bool
shuts e = e.shutdown

mark_entries-ids : (es : List GeneralLogEntry) → map id_of (mark_entries es).0 ≡ map id_of es
unfolding mark_entries
mark_entries-ids [] = refl
mark_entries-ids (e ∷ es) = elim (Bool-cases (contains (mark_entries es).1 e.thread_id)) [
  | inl k ↦ rw k (ap (λ (is : List ℕ). e.thread_id ∷ is) (mark_entries-ids es))
  | inr k ↦ rw k (ap (λ (is : List ℕ). e.thread_id ∷ is) (mark_entries-ids es))
]

mark_entries-seen :
    (es : List GeneralLogEntry) (id : ℕ)
    → contains (mark_entries es).1 id ≡ contains (map id_of es) id
unfolding mark_entries
mark_entries-seen [] id = refl
mark_entries-seen (e ∷ es) id =
    ground (arith, mark_entries-seen es id, mark_entries-seen es e.thread_id)

mark_entries-MarksLast :
    (es : List GeneralLogEntry)
    → All (λ e. e.shutdown ≡ false) es
    → MarksLast id_of shuts (mark_entries es).0
unfolding mark_entries
mark_entries-MarksLast [] h = tt
mark_entries-MarksLast (e ∷ es) h =
    let seen = mark_entries-seen es e.thread_id in
    let ids = mark_entries-ids es in
    elim (Bool-cases (contains (mark_entries es).1 e.thread_id)) [
      | inl k ↦ rw k (h.0 ∙ rw (ids, ← seen, k) refl, mark_entries-MarksLast es h.1)
      | inr k ↦ rw k (rw (ids, ← seen, k) refl, mark_entries-MarksLast es h.1)
    ]

-- After `setShutdownOnLastQueryOfConn`, for every connection, the last entry shuts down and no other
-- does, when none did before.
pub set_shutdown-ShutsLast :
    (es : List GeneralLogEntry)
    → All (λ e. e.shutdown ≡ false) es
    → (id : ℕ) → ShutsLast shuts (of_conn id_of id (set_shutdown_on_last_query_of_conn es))
unfolding set_shutdown_on_last_query_of_conn
set_shutdown-ShutsLast es h id =
    MarksLast-ShutsLast id_of shuts (mark_entries es).0 (mark_entries-MarksLast es h) id

abbrev pub queries_of : ℕ → List GeneralLogEntry → List Bytes
queries_of id es = map (λ e. e.query) (of_conn id_of id es)

queries_of-marked :
    (id : ℕ) (es : List GeneralLogEntry) → queries_of id (mark_entries es).0 ≡ queries_of id es
unfolding mark_entries
queries_of-marked id [] = refl
queries_of-marked id (e ∷ es) =
    let tail = queries_of-marked id es in
    elim (Bool-cases (e.thread_id == id)) [
      | inl own ↦ elim (Bool-cases (contains (mark_entries es).1 e.thread_id)) [
        | inl k ↦ rw (k, own) (ap (λ (qs : List Bytes). e.query ∷ qs) tail)
        | inr k ↦ rw (k, own) (ap (λ (qs : List Bytes). e.query ∷ qs) tail)
      ]
      | inr other ↦ elim (Bool-cases (contains (mark_entries es).1 e.thread_id)) [
        | inl k ↦ rw (k, other) tail
        | inr k ↦ rw (k, other) tail
      ]
    ]

line_entries-new :
    (match : Matcher) (lines : List Bytes)
    → All (λ e. e.shutdown ≡ false) (line_entries match lines)
line_entries-new match [] = tt
line_entries-new match (line ∷ lines) = elim (Bool-cases (is_skipped line)) [
  | inl g ↦ rw g (line_entries-new match lines)
  | inr g ↦ elim (Option-cases (match line)) [
    | inl n ↦ rw (g, n) (line_entries-new match lines)
    | inr (fields, f) ↦ rw (g, f) (refl, line_entries-new match lines)
  ]
]

-- Take the entries of a general log, marked by `setShutdownOnLastQueryOfConn` and dispatched. However
-- the dispatcher and its threads are interleaved, when all is handed out and every thread has ended,
-- the queries executed for a connection are those that the reading loop makes of the log for it, in
-- their order: one for each line that is not ignored and matches, its text without the last byte and
-- with a space behind it. Of a statement of several lines this is the first line only, where the
-- others do not match.
pub general_log-executed :
    (match : Matcher) (lines : List Bytes) (depth : ℕ) {s : System GeneralLogEntry}
    → Reach id_of shuts depth
        (started (set_shutdown_on_last_query_of_conn (get_entries match lines)))
        s
    → IsDone s
    → (id : ℕ) → queries_of id s.executed ≡ queries_of id (line_entries match lines)
general_log-executed match lines depth r d id =
    let read = get_entries-line_entries match lines in
    let new : All (λ e. e.shutdown ≡ false) (get_entries match lines) =
      rw read (line_entries-new match lines) in
    let all = set_shutdown_on_last_query_of_conn (get_entries match lines) in
    let marked : queries_of id all ≡ queries_of id (get_entries match lines) =
      unfold set_shutdown_on_last_query_of_conn in queries_of-marked id (get_entries match lines) in
    ap (λ (es : List GeneralLogEntry). map (λ e. e.query) es)
      (executed-of_conn id_of shuts depth all (set_shutdown-ShutsLast (get_entries match lines) new)
        r d id)
    ∙ marked
    ∙ ap (λ (es : List GeneralLogEntry). queries_of id es) read
