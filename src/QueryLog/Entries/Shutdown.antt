-- ===== src/QueryLog/Entries/Shutdown.antt =====
-- Which entry shuts its connection down.
use query_playback.Prelude.{
  contains, ℕ, zero, suc, some, length, ◌<◌, ◌≡◌, ◌≢◌, refl, ◌+◌, ap, ap₂, ◌∙◌, Bool, false, not,
  List, [], ◌∷◌, map, All, if◌then◌else◌, arith,
}
use query_playback.QueryLog.Readline.{StringRef}
use query_playback.QueryLog.Data.{QueryLogData, text_of, thread_id_in, parse_thread_id}
use query_playback.QueryLog.Data.Fields.{IsCached, parse_thread_id_lem}
use query_playback.QueryLog.Entries.{
  QueryLogEntry, Marked, mark_one, mark, set_shutdown_on_last_query_of_conn, pop_all,
}

abbrev pub id_of : QueryLogData → ℕ
id_of q = thread_id_in (text_of q)

-- The thread ids of the entries.
abbrev pub ids : List QueryLogData → List ℕ
ids qs = map id_of qs

-- The texts stand at different places.
abbrev pub HasDistinctAddresses : List QueryLogData → Type 0
HasDistinctAddresses [] = Unit
HasDistinctAddresses (q ∷ qs) =
    All (λ x. x.data_ref.at ≢ q.data_ref.at) qs × HasDistinctAddresses qs

-- For each entry whether it is the last one of its connection.
abbrev pub last_of_conn : List QueryLogData → List Bool
last_of_conn [] = []
last_of_conn (q ∷ qs) = not (contains (ids qs) (id_of q)) ∷ last_of_conn qs

abbrev pub shutdowns : List QueryLogEntry → List Bool
shutdowns [] = []
shutdowns (e ∷ es) = e.shutdown ∷ shutdowns es

abbrev pub handed_out : List QueryLogData → List ℕ → List QueryLogEntry
handed_out [] last = []
handed_out (q ∷ qs) last =
    record { query = q; shutdown = contains last q.data_ref.at } ∷ handed_out qs last

abbrev refs : List QueryLogData → List StringRef
refs qs = map (λ q. q.data_ref) qs

pub pop_all-handed_out :
    (fuel : ℕ) (qs : List QueryLogData) (last : List ℕ)
    → length qs < fuel
    → pop_all fuel (record { entries = qs; last_query_of_conn = last }) ≡ some (handed_out qs last)
unfolding pop_all
pop_all-handed_out zero qs last h = elim h [ ]
pop_all-handed_out (suc fuel) [] last h = refl
pop_all-handed_out (suc fuel) (q ∷ qs) last h = rw (pop_all-handed_out fuel qs last (omega arith))

-- One round of the loop of `setShutdownOnLastQueryOfConn`.
mark_one_lem :
    (q : QueryLogData) (m : Marked)
    → IsCached q
    → ((a : QueryLogData) × (mark_one q m).passed ≡ a ∷ m.passed
        × a.data_ref ≡ q.data_ref
        × IsCached a)
      × ((mark_one q m).thread_ids
          ≡ (if contains m.thread_ids (id_of q) then m.thread_ids else id_of q ∷ m.thread_ids))
      × ((mark_one q m).last
          ≡ (if contains m.thread_ids (id_of q) then m.last else q.data_ref.at ∷ m.last))
mark_one_lem q m c =
    let (same, _, cached, ref, _) = parse_thread_id_lem q c in
    (((parse_thread_id q).1, ground arith, ref, cached), ground arith, ground arith)

mark-thread_ids :
    (qs : List QueryLogData) (id : ℕ)
    → All IsCached qs
    → contains (mark qs []).thread_ids id ≡ contains (ids qs) id
unfolding mark
mark-thread_ids [] id c = refl
mark-thread_ids (q ∷ qs) id c = ground (
  arith,
  (mark_one_lem q (mark qs []) c.0).1,
  mark-thread_ids qs id c.1,
  mark-thread_ids qs (id_of q) c.1,
)

mark-refs : (qs : List QueryLogData) → All IsCached qs → refs (mark qs []).passed ≡ refs qs
unfolding mark
mark-refs [] c = refl
mark-refs (q ∷ qs) c =
    let (a, e, r, _) = (mark_one_lem q (mark qs []) c.0).0 in rw (e, r, mark-refs qs c.1)

-- Only addresses of entries that were passed are kept.
mark-last_other :
    (qs : List QueryLogData) (at : ℕ)
    → All IsCached qs
    → All (λ x. x.data_ref.at ≢ at) qs
    → contains (mark qs []).last at ≡ false
unfolding mark
mark-last_other [] at c h = refl
mark-last_other (q ∷ qs) at c h =
    ground (arith, (mark_one_lem q (mark qs []) c.0).2, mark-last_other qs at c.1 h.1, h.0)

mark-last_first :
    (q : QueryLogData) (qs : List QueryLogData)
    → All IsCached (q ∷ qs)
    → All (λ x. x.data_ref.at ≢ q.data_ref.at) qs
    → contains (mark (q ∷ qs) []).last q.data_ref.at ≡ not (contains (ids qs) (id_of q))
unfolding mark
mark-last_first q qs c h = ground (
  arith,
  (mark_one_lem q (mark qs []) c.0).2,
  mark-thread_ids qs (id_of q) c.1,
  mark-last_other qs q.data_ref.at c.1 h,
)

abbrev flags : List StringRef → List ℕ → List Bool
flags [] last = []
flags (r ∷ rs) last = contains last r.at ∷ flags rs last

shutdowns-handed_out :
    (qs : List QueryLogData) (last : List ℕ) → shutdowns (handed_out qs last) ≡ flags (refs qs) last
shutdowns-handed_out [] last = refl
shutdowns-handed_out (q ∷ qs) last = rw (shutdowns-handed_out qs last)

handed_out-refs :
    (qs : List QueryLogData) (last : List ℕ)
    → map (λ e. e.query.data_ref) (handed_out qs last) ≡ refs qs
handed_out-refs [] last = refl
handed_out-refs (q ∷ qs) last = rw (handed_out-refs qs last)

-- An address that is no member's does not matter.
flags-mark_one :
    (q : QueryLogData) (m : Marked) (xs : List QueryLogData)
    → IsCached q
    → All (λ x. x.data_ref.at ≢ q.data_ref.at) xs
    → flags (refs xs) (mark_one q m).last ≡ flags (refs xs) m.last
flags-mark_one q m [] c h = refl
flags-mark_one q m (x ∷ xs) c h =
    ground (arith, (mark_one_lem q m c).2, flags-mark_one q m xs c h.1, h.0)

flags-mark :
    (qs : List QueryLogData)
    → All IsCached qs
    → HasDistinctAddresses qs
    → flags (refs qs) (mark qs []).last ≡ last_of_conn qs
flags-mark [] c d = refl
flags-mark (q ∷ qs) c d =
    let tail : flags (refs qs) (mark (q ∷ qs) []).last ≡ flags (refs qs) (mark qs []).last =
      unfold mark in flags-mark_one q (mark qs []) qs c.0 d.0 in
    ap₂ ◌∷◌ (mark-last_first q qs c d.0) (tail ∙ flags-mark qs c.1 d.1)

length-refs : (qs rs : List QueryLogData) → refs qs ≡ refs rs → length qs ≡ length rs
length-refs [] [] e = refl
length-refs [] (r ∷ rs) e = cc
length-refs (q ∷ qs) [] e = cc
length-refs (q ∷ qs) (r ∷ rs) e = ap suc (length-refs qs rs (ground arith))

mark-IsCached : (qs : List QueryLogData) → All IsCached qs → All IsCached (mark qs []).passed
unfolding mark
mark-IsCached [] c = tt
mark-IsCached (q ∷ qs) c =
    let (a, e, _, ca) = (mark_one_lem q (mark qs []) c.0).0 in rw e (ca, mark-IsCached qs c.1)

handed_out-IsCached :
    (qs : List QueryLogData) (last : List ℕ)
    → All IsCached qs
    → All (λ e. IsCached e.query) (handed_out qs last)
handed_out-IsCached [] last c = tt
handed_out-IsCached (q ∷ qs) last c = (c.0, handed_out-IsCached qs last c.1)

-- For entries with no thread id cached but that of their text, and with texts at different
-- addresses: after `setShutdownOnLastQueryOfConn` the entries are handed out in their order, every
-- one of them, and an entry shuts its connection down exactly if no later entry has the same
-- thread id; and no thread id is cached but that of the text.
pub pop_all-last_of_conn :
    (qs : List QueryLogData)
    → All IsCached qs
    → HasDistinctAddresses qs
    → (out : List QueryLogEntry) × (pop_all
          (length qs + 1)
          (set_shutdown_on_last_query_of_conn (record { entries = qs; last_query_of_conn = [] }))
        ≡ some out)
      × (map (λ e. e.query.data_ref) out ≡ map (λ q. q.data_ref) qs)
      × (shutdowns out ≡ last_of_conn qs)
      × All (λ e. IsCached e.query) out
unfolding set_shutdown_on_last_query_of_conn
pop_all-last_of_conn qs c d =
    let m = mark qs [] in
    let same = length-refs m.passed qs (mark-refs qs c) in
    (
      handed_out m.passed m.last,
      pop_all-handed_out (length qs + 1) m.passed m.last (omega arith),
      handed_out-refs m.passed m.last ∙ mark-refs qs c,
      shutdowns-handed_out m.passed m.last
          ∙ ap (λ (rs : List StringRef). flags rs m.last) (mark-refs qs c)
          ∙ flags-mark qs c d,
      handed_out-IsCached m.passed m.last (mark-IsCached qs c),
    )
