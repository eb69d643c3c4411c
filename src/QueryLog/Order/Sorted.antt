-- ===== src/QueryLog/Order/Sorted.antt =====
-- The entries are played back by their start times, and none is lost or made up.
use mathlib.Core.List.{Perm}
use mathlib.Core.List.Perm
use query_playback.Prelude.{
  ◌≡◌, Bool, true, false, not, ◌||◌, List, [], ◌∷◌, map, inl, inr, All, Bool-cases, arith, subst,
}
use query_playback.Prelude.Int.{ltb_ℤ→le, ltb_ℤ-false→le, ltb_ℤ_of_le}
use query_playback.QueryLog.Readline.{StringRef}
use query_playback.QueryLog.Data.{QueryLogData, starts_before}
use query_playback.QueryLog.Data.Fields.{IsCached}
use query_playback.QueryLog.Order.{no_times, adjust, insert, stable_sort, put_in_order}
use query_playback.QueryLog.Order.Connection.{data_ref_of, All-insert, adjust-data_ref}

-- No entry stands behind one that starts later.
abbrev pub IsSorted : List QueryLogData → Type 0
IsSorted [] = Unit
IsSorted (q ∷ qs) = All (λ x. starts_before x q ≡ false) qs × IsSorted qs

not_sooner_trans :
    (a b c : QueryLogData)
    → starts_before b a ≡ false
    → starts_before c b ≡ false
    → starts_before c a ≡ false
not_sooner_trans a b c h k = ltb_ℤ_of_le c.start_time a.start_time (
    omega (
      arith,
      ltb_ℤ-false→le b.start_time a.start_time h,
      ltb_ℤ-false→le c.start_time b.start_time k,
    ))

not_sooner_of_sooner : (a b : QueryLogData) → starts_before a b ≡ true → starts_before b a ≡ false
not_sooner_of_sooner a b h =
    ltb_ℤ_of_le b.start_time a.start_time (ltb_ℤ→le a.start_time b.start_time h)

All-later :
    (a b : QueryLogData) (xs : List QueryLogData)
    → starts_before b a ≡ false
    → All (λ x. starts_before x b ≡ false) xs
    → All (λ x. starts_before x a ≡ false) xs
All-later a b [] h k = tt
All-later a b (x ∷ xs) h k = (not_sooner_trans a b x h k.0, All-later a b xs h k.1)

insert-IsSorted : (q : QueryLogData) (xs : List QueryLogData) → IsSorted xs → IsSorted (insert q xs)
insert-IsSorted q [] h = (tt, tt)
insert-IsSorted q (x ∷ xs) h = elim (Bool-cases (starts_before x q)) [
  | inl e ↦ rw e (
    All-insert (λ y. starts_before y x ≡ false) q xs (not_sooner_of_sooner x q e) h.0,
    insert-IsSorted q xs h.1,
  )
  | inr e ↦ rw e ((e, All-later q x xs e h.0), h)
]

stable_sort-IsSorted : (xs : List QueryLogData) → IsSorted (stable_sort xs)
stable_sort-IsSorted [] = tt
stable_sort-IsSorted (x ∷ xs) = insert-IsSorted x (stable_sort xs) (stable_sort-IsSorted xs)

insert-perm : (q : QueryLogData) (xs : List QueryLogData) → Perm (insert q xs) (q ∷ xs)
insert-perm q [] = Perm.refl _
insert-perm q (x ∷ xs) = elim (Bool-cases (starts_before x q)) [
  | inl e ↦ rw e (Perm.trans (Perm.cons x (insert-perm q xs)) (Perm.swap q x xs))
  | inr e ↦ rw e (Perm.refl _)
]

stable_sort-perm : (xs : List QueryLogData) → Perm (stable_sort xs) xs
stable_sort-perm [] = Perm.refl _
stable_sort-perm (x ∷ xs) =
    Perm.trans (insert-perm x (stable_sort xs)) (Perm.cons x (stable_sort-perm xs))

-- For entries with no thread id cached but that of their text, and unless sorting is switched off
-- and accurate mode is off too: `put_in_order` gives entries sorted by their start times, and
-- these are the entries given, each as often as there.
pub put_in_order-IsSorted :
    (disable_sorting accurate_mode : Bool) (qs : List QueryLogData)
    → (not disable_sorting || accurate_mode) ≡ true
    → All IsCached qs
    → IsSorted (put_in_order disable_sorting accurate_mode qs)
      × Perm (map data_ref_of (put_in_order disable_sorting accurate_mode qs)) (map data_ref_of qs)
unfolding put_in_order
put_in_order-IsSorted disable_sorting accurate_mode qs e c = rw e (
  stable_sort-IsSorted (adjust no_times qs),
  subst (λ (rs : List StringRef). Perm (map data_ref_of (stable_sort (adjust no_times qs))) rs)
      (adjust-data_ref no_times qs c)
      (Perm.map data_ref_of (stable_sort-perm (adjust no_times qs))),
)
