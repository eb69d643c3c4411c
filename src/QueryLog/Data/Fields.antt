-- ===== src/QueryLog/Data/Fields.antt =====
-- The fields that are read from the text of an entry.
use query_playback.Prelude.{
  ℕ, ◌<◌, ◌≡◌, ◌↔◌, ap, true, false, ◌∷◌, ◌++◌, Option, some, All, length, arith,
  drop-length_append, ◌⊎◌, ◌∙◌, lt→ltb, append_assoc, length-append,
}
use query_playback.Text.{Bytes, codes, find}
use query_playback.Text.Find.{found_at-find_iff}
use query_playback.Text.Number.{
  strtoull, digit_text, value, starts_with_digit, ullong_mod, strtoull-digit_text,
}
use query_playback.QueryLog.Data.{
  QueryLogData, text_of, number_after, id_of_text, thread_id_in, parse_thread_id, is_quit,
}

-- The cache holds nothing or the id that stands in the text.
abbrev pub IsCached : QueryLogData → Type 0
IsCached q = (q.thread_id ≡ 0) ⊎ (q.thread_id ≡ thread_id_in (text_of q))

-- For a query with no thread id cached but that of its text: the cache never changes an answer.
-- Asked once or twice, `parseThreadId` gives the id in the text, and changes nothing but the
-- cache, which still holds nothing or that id.
pub parse_thread_id_lem :
    (q : QueryLogData)
    → IsCached q
    → ((parse_thread_id q).0 ≡ thread_id_in (text_of q))
      × ((parse_thread_id (parse_thread_id q).1).0 ≡ thread_id_in (text_of q))
      × IsCached (parse_thread_id q).1
      × ((parse_thread_id q).1.data_ref ≡ q.data_ref)
      × ((parse_thread_id q).1.start_time ≡ q.start_time)
unfolding parse_thread_id
parse_thread_id_lem q h = ground arith

-- `is_quit` says exactly whether the quit command stands in the entry at the start of a line that is
-- not the first.
pub is_quit_iff :
    (q : QueryLogData)
    → (is_quit q ≡ true) ↔ (
        (before : Bytes) × (after : Bytes) × (text_of q
          ≡ before ++ (codes "\n# administrator command: Quit;" ++ after)))
unfolding is_quit
is_quit_iff q =
    found_at-find_iff (text_of q) (codes "\n# administrator command: Quit;") (ground arith)

number_after-append :
    (label before rest : Bytes)
    → number_after label (before ++ (label ++ rest)) (some (length before)) ≡ some (strtoull rest)
number_after-append label before rest =
    rw (← length-append before label, ← append_assoc before label rest)
      (rw (drop-length_append (before ++ label) rest))

-- A thread id is read back: from an entry whose first `Thread_id: ` stands before decimal digits,
-- with no further digit behind them, the thread id is the number that they stand for, if that is
-- below 2^64.
pub thread_id_in-digit_text :
    (before after : Bytes) (d : ℕ) (ds : Bytes)
    → find (before ++ (codes "Thread_id: " ++ (digit_text (d ∷ ds) ++ after))) (codes "Thread_id: ")
      ≡ some (length before)
    → All (λ x. x < 10) (d ∷ ds)
    → starts_with_digit after ≡ false
    → value 0 (d ∷ ds) < ullong_mod
    → thread_id_in (before ++ (codes "Thread_id: " ++ (digit_text (d ∷ ds) ++ after)))
      ≡ value 0 (d ∷ ds)
unfolding thread_id_in
thread_id_in-digit_text before after d ds found digits stop fits =
    let label = codes "Thread_id: " in
    let s = before ++ (label ++ (digit_text (d ∷ ds) ++ after)) in
    ap (λ (o : Option ℕ). id_of_text s (number_after label s o)) found
    ∙ ap (id_of_text s) (number_after-append label before (digit_text (d ∷ ds) ++ after))
    ∙ strtoull-digit_text d ds after digits stop
    ∙ rw (lt→ltb _ _ fits)
