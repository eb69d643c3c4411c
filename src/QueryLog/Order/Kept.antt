-- ===== src/QueryLog/Order/Kept.antt =====
-- What the ordering keeps of the entries: that their caches are right and their addresses differ.
use query_playback.Prelude.{ℕ, ◌≢◌, sym, Bool, not, ◌||◌, List, [], ◌∷◌, All, Bool-cases, inl, inr}
use query_playback.QueryLog.Data.{QueryLogData, starts_before}
use query_playback.QueryLog.Data.Fields.{IsCached}
use query_playback.QueryLog.Entries.Shutdown.{HasDistinctAddresses}
use query_playback.QueryLog.Order.{TimeMap, no_times, adjust, insert, stable_sort, put_in_order}
use query_playback.QueryLog.Order.Connection.{
  All-insert, All-stable_sort, next_of, adjust-cons, head_of_keeps,
}

insert-HasDistinctAddresses :
    (q : QueryLogData) (xs : List QueryLogData)
    → HasDistinctAddresses (q ∷ xs)
    → HasDistinctAddresses (insert q xs)
insert-HasDistinctAddresses q [] h = h
insert-HasDistinctAddresses q (x ∷ xs) h = elim (Bool-cases (starts_before x q)) [
  | inl e ↦ rw e (
    All-insert (λ y. y.data_ref.at ≢ x.data_ref.at) q xs (λ s. h.0.0 (sym s)) h.1.0,
    insert-HasDistinctAddresses q xs (h.0.1, h.1.1),
  )
  | inr e ↦ rw e h
]

stable_sort-HasDistinctAddresses :
    (qs : List QueryLogData) → HasDistinctAddresses qs → HasDistinctAddresses (stable_sort qs)
stable_sort-HasDistinctAddresses [] h = h
stable_sort-HasDistinctAddresses (q ∷ qs) h = insert-HasDistinctAddresses q (stable_sort qs) (
  All-stable_sort (λ x. x.data_ref.at ≢ q.data_ref.at) qs h.0,
  stable_sort-HasDistinctAddresses qs h.1,
)

adjust-IsCached :
    (last : TimeMap) (qs : List QueryLogData) → All IsCached qs → All IsCached (adjust last qs)
adjust-IsCached last [] c = unfold adjust in tt
adjust-IsCached last (q ∷ qs) c =
    rw (adjust-cons last q qs)
      ((head_of_keeps last q c.0).1, adjust-IsCached (next_of last q) qs c.1)

adjust-other_address :
    (at : ℕ) (last : TimeMap) (qs : List QueryLogData)
    → All IsCached qs
    → All (λ x. x.data_ref.at ≢ at) qs
    → All (λ x. x.data_ref.at ≢ at) (adjust last qs)
adjust-other_address at last [] c h = unfold adjust in tt
adjust-other_address at last (q ∷ qs) c h =
    rw (adjust-cons last q qs)
      (rw ((head_of_keeps last q c.0).0) h.0, adjust-other_address at (next_of last q) qs c.1 h.1)

adjust-HasDistinctAddresses :
    (last : TimeMap) (qs : List QueryLogData)
    → All IsCached qs
    → HasDistinctAddresses qs
    → HasDistinctAddresses (adjust last qs)
adjust-HasDistinctAddresses last [] c h = unfold adjust in tt
adjust-HasDistinctAddresses last (q ∷ qs) c h = rw (adjust-cons last q qs) (
  rw ((head_of_keeps last q c.0).0)
      (adjust-other_address q.data_ref.at (next_of last q) qs c.1 h.0),
  adjust-HasDistinctAddresses (next_of last q) qs c.1 h.1,
)

pub put_in_order-IsCached :
    (disable_sorting accurate_mode : Bool) (qs : List QueryLogData)
    → All IsCached qs
    → All IsCached (put_in_order disable_sorting accurate_mode qs)
unfolding put_in_order
put_in_order-IsCached disable accurate qs c = elim (Bool-cases (not disable || accurate)) [
  | inl e ↦ rw e (All-stable_sort IsCached (adjust no_times qs) (adjust-IsCached no_times qs c))
  | inr e ↦ rw e c
]

pub put_in_order-HasDistinctAddresses :
    (disable_sorting accurate_mode : Bool) (qs : List QueryLogData)
    → All IsCached qs
    → HasDistinctAddresses qs
    → HasDistinctAddresses (put_in_order disable_sorting accurate_mode qs)
unfolding put_in_order
put_in_order-HasDistinctAddresses disable accurate qs c h =
    elim (Bool-cases (not disable || accurate)) [
      | inl e ↦ rw e (
          stable_sort-HasDistinctAddresses (adjust no_times qs)
            (adjust-HasDistinctAddresses no_times qs c h))
      | inr e ↦ rw e h
    ]
