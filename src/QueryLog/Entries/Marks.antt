-- ===== src/QueryLog/Entries/Marks.antt =====
-- The entries that are handed out, as percona_playback/thread_per_connection needs them.
use query_playback.Prelude.{
  contains, ℕ, ◌≡◌, refl, ap₂, ◌∙◌, Bool, not, List, [], ◌∷◌, map, select, All, ◌==◌, Bool-cases,
  inl, inr, arith,
}
use query_playback.QueryLog.Readline.{StringRef}
use query_playback.QueryLog.Data.{QueryLogData, text_of, thread_id_in}
use query_playback.QueryLog.Data.Fields.{IsCached, parse_thread_id_lem}
use query_playback.QueryLog.Entries.{QueryLogEntry, get_thread_id}
use query_playback.QueryLog.Entries.Shutdown.{id_of, ids, last_of_conn, shutdowns}
use query_playback.Dispatch.PerConnection.Steps.{of_conn}
use query_playback.Dispatch.PerConnection.Marking.{MarksLast}

abbrev pub is_shutdown : QueryLogEntry → Bool
is_shutdown e = e.shutdown

abbrev pub entry_refs : List QueryLogEntry → List StringRef
entry_refs out = map (λ e. e.query.data_ref) out

abbrev refs : List QueryLogData → List StringRef
refs qs = map (λ q. q.data_ref) qs

get_thread_id_lem :
    (e : QueryLogEntry) (q : QueryLogData)
    → IsCached e.query
    → e.query.data_ref ≡ q.data_ref
    → get_thread_id e ≡ id_of q
unfolding get_thread_id
get_thread_id_lem e q c r = (parse_thread_id_lem e.query c).0 ∙ rw r

get_thread_ids :
    (out : List QueryLogEntry) (qs : List QueryLogData)
    → All (λ e. IsCached e.query) out
    → entry_refs out ≡ refs qs
    → map get_thread_id out ≡ ids qs
get_thread_ids [] [] c r = refl
get_thread_ids [] (q ∷ qs) c r = cc
get_thread_ids (e ∷ out) [] c r = cc
get_thread_ids (e ∷ out) (q ∷ qs) c r =
    ap₂ ◌∷◌ (get_thread_id_lem e q c.0 (ground arith)) (get_thread_ids out qs c.1 (ground arith))

-- Exactly the last entry of each connection shuts it down.
pub shutdowns-MarksLast :
    (out : List QueryLogEntry) (qs : List QueryLogData)
    → All (λ e. IsCached e.query) out
    → entry_refs out ≡ refs qs
    → shutdowns out ≡ last_of_conn qs
    → MarksLast get_thread_id is_shutdown out
shutdowns-MarksLast [] qs c r s = tt
shutdowns-MarksLast (e ∷ out) [] c r s = cc
shutdowns-MarksLast (e ∷ out) (q ∷ qs) c r s =
    let tail : entry_refs out ≡ refs qs = ground arith in
    let first : e.shutdown ≡ not (contains (ids qs) (id_of q)) = ground arith in
    (
      first ∙ rw (get_thread_ids out qs c.1 tail, get_thread_id_lem e q c.0 (ground arith)) refl,
      shutdowns-MarksLast out qs c.1 tail (ground arith),
    )

-- The entries of a connection.
pub of_conn-entry_refs :
    (id : ℕ) (out : List QueryLogEntry) (qs : List QueryLogData)
    → All (λ e. IsCached e.query) out
    → entry_refs out ≡ refs qs
    → entry_refs (of_conn get_thread_id id out)
      ≡ refs (select (λ q. thread_id_in (text_of q) == id) qs)
of_conn-entry_refs id [] [] c r = refl
of_conn-entry_refs id [] (q ∷ qs) c r = cc
of_conn-entry_refs id (e ∷ out) [] c r = cc
of_conn-entry_refs id (e ∷ out) (q ∷ qs) c r =
    let same : e.query.data_ref ≡ q.data_ref = ground arith in
    let its = get_thread_id_lem e q c.0 same in
    let tail = of_conn-entry_refs id out qs c.1 (ground arith) in
    elim (Bool-cases (id_of q == id)) [
      | inl own ↦ rw (its, own) (ap₂ ◌∷◌ same tail)
      | inr other ↦ rw (its, other) tail
    ]
