-- ===== src/QueryLog/Order/Connection.antt =====
-- Sorting never changes the order of the queries of one connection.
use query_playback.Prelude.{
  ℕ, ◌≡◌, refl, ◌≢◌, ap, ◌∙◌, sym, Bool, true, false, not, ◌||◌, List, [], ◌∷◌, map, inl, inr,
  select, All, ◌==◌, if◌then◌else◌, Bool-cases, arith, subst,
}
use query_playback.Prelude.Int.{ℤ, ltb_ℤ, ◌≤ℤ◌, ltb_ℤ_of_le}
use query_playback.QueryLog.Readline.{StringRef}
use query_playback.QueryLog.Data.{
  QueryLogData, text_of, thread_id_in, parse_thread_id, starts_before,
}
use query_playback.QueryLog.Data.Fields.{IsCached}
use query_playback.QueryLog.Order.{
  TimeMap, no_times, set_time, adjust, insert, stable_sort, put_in_order,
}

-- The queries of connection `id`.
abbrev pub of_conn : ℕ → QueryLogData → Bool
of_conn id q = thread_id_in (text_of q) == id

abbrev pub data_ref_of : QueryLogData → StringRef
data_ref_of q = q.data_ref

true-ne-false : true ≢ false
true-ne-false e = cc

module _ {ℓ} (P : QueryLogData → Type ℓ) where
  pub All-insert :
      (q : QueryLogData) (xs : List QueryLogData) → P q → All P xs → All P (insert q xs)
  All-insert q [] h k = (h, k)
  All-insert q (x ∷ xs) h k = elim (Bool-cases (starts_before x q)) [
    | inl e ↦ rw e (k.0, All-insert q xs h k.1)
    | inr e ↦ rw e (h, k)
  ]

  pub All-stable_sort : (xs : List QueryLogData) → All P xs → All P (stable_sort xs)
  All-stable_sort [] h = h
  All-stable_sort (x ∷ xs) h = All-insert x (stable_sort xs) h.0 (All-stable_sort xs h.1)

module _ (p : QueryLogData → Bool) where
  -- No later entry that passes `p` starts before `q`.
  abbrev NoneSooner : QueryLogData → List QueryLogData → Type 0
  NoneSooner q = All (λ x. p x ≡ true → starts_before x q ≡ false)

  -- The entries that pass `p` are in the order of their start times.
  abbrev Rises : List QueryLogData → Type 0
  Rises [] = Unit
  Rises (q ∷ qs) = (p q ≡ true → NoneSooner q qs) × Rises qs

  select-insert_other :
      (q : QueryLogData) (xs : List QueryLogData)
      → p q ≡ false
      → select p (insert q xs) ≡ select p xs
  select-insert_other q [] e = rw e
  select-insert_other q (x ∷ xs) e = elim (Bool-cases (starts_before x q)) [
    | inl b ↦ rw b (ground (arith, select-insert_other q xs e))
    | inr b ↦ rw (b, e)
  ]

  select-insert :
      (q : QueryLogData) (xs : List QueryLogData)
      → p q ≡ true
      → NoneSooner q xs
      → select p (insert q xs) ≡ q ∷ select p xs
  select-insert q [] e h = rw e
  select-insert q (x ∷ xs) e h = elim (Bool-cases (starts_before x q)) [
    | inl b ↦ elim (Bool-cases (p x)) [
      | inl px ↦ absurd (true-ne-false (sym b ∙ h.0 px))
      | inr px ↦ rw (b, px) (select-insert q xs e h.1)
    ]
    | inr b ↦ rw (b, e)
  ]

  select-stable_sort : (xs : List QueryLogData) → Rises xs → select p (stable_sort xs) ≡ select p xs
  select-stable_sort [] h = refl
  select-stable_sort (x ∷ xs) h = elim (Bool-cases (p x)) [
    | inl e ↦ rw e (
        select-insert x (stable_sort xs) e (All-stable_sort _ xs (h.0 e))
        ∙ ap (◌∷◌ x) (select-stable_sort xs h.1))
    | inr e ↦ rw e (select-insert_other x (stable_sort xs) e ∙ select-stable_sort xs h.1)
  ]

-- The entry as `adjust` leaves it, and the map after it.
abbrev pub head_of : TimeMap → QueryLogData → QueryLogData
head_of last q =
    let (id, q') = parse_thread_id q in
    if ltb_ℤ q'.start_time (last id) then record q' { start_time = last id } else q'

abbrev pub next_of : TimeMap → QueryLogData → TimeMap
next_of last q =
    let (id, q') = parse_thread_id q in
    if ltb_ℤ q'.start_time (last id) then last else set_time last id q'.start_time

pub adjust-cons :
    (last : TimeMap) (q : QueryLogData) (qs : List QueryLogData)
    → adjust last (q ∷ qs) ≡ head_of last q ∷ adjust (next_of last q) qs
unfolding adjust
adjust-cons last q qs = refl

pub head_of_keeps :
    (last : TimeMap) (q : QueryLogData)
    → IsCached q
    → ((head_of last q).data_ref ≡ q.data_ref) × IsCached (head_of last q)
unfolding parse_thread_id
head_of_keeps last q c = ground arith

next_of_self :
    (last : TimeMap) (q : QueryLogData)
    → IsCached q
    → next_of last q (thread_id_in (text_of q)) ≡ (head_of last q).start_time
unfolding parse_thread_id
next_of_self last q c = ground arith

next_of-le : (last : TimeMap) (q : QueryLogData) (j : ℕ) → IsCached q → last j ≤ℤ next_of last q j
unfolding parse_thread_id
next_of-le last q j c = ground arith

-- The entries themselves stay, in the order of the log.
pub adjust-data_ref :
    (last : TimeMap) (qs : List QueryLogData)
    → All IsCached qs
    → map data_ref_of (adjust last qs) ≡ map data_ref_of qs
adjust-data_ref last [] c = unfold adjust in refl
adjust-data_ref last (q ∷ qs) c =
    rw
      (adjust-cons last q qs, (head_of_keeps last q c.0).0, adjust-data_ref (next_of last q) qs c.1)

module _ (id : ℕ) where
  abbrev NotBefore : ℤ → List QueryLogData → Type 0
  NotBefore t = All (λ x. of_conn id x ≡ true → t ≤ℤ x.start_time)

  NotBefore-trans : (s t : ℤ) (qs : List QueryLogData) → s ≤ℤ t → NotBefore t qs → NotBefore s qs
  NotBefore-trans s t [] h k = tt
  NotBefore-trans s t (q ∷ qs) h k =
      ((λ c. let later = k.0 c in omega arith), NotBefore-trans s t qs h k.1)

  NotBefore-NoneSooner :
      (q : QueryLogData) (qs : List QueryLogData)
      → NotBefore q.start_time qs
      → NoneSooner (of_conn id) q qs
  NotBefore-NoneSooner q [] h = tt
  NotBefore-NoneSooner q (x ∷ qs) h =
      ((λ c. ltb_ℤ_of_le x.start_time q.start_time (h.0 c)), NotBefore-NoneSooner q qs h.1)

  of_conn→eq : (q : QueryLogData) → of_conn id q ≡ true → thread_id_in (text_of q) ≡ id
  of_conn→eq q h = ground arith

  head_of-Rises :
      (last : TimeMap) (q : QueryLogData) (qs : List QueryLogData)
      → IsCached q
      → NotBefore (next_of last q id) qs
      → of_conn id (head_of last q) ≡ true
      → (NoneSooner (of_conn id) (head_of last q) qs) × (last id ≤ℤ (head_of last q).start_time)
  head_of-Rises last q qs c h m =
      let same = (head_of_keeps last q c).0 in
      let its : thread_id_in (text_of q) ≡ id =
        ap (λ (r : StringRef). thread_id_in r.text) (sym same) ∙ of_conn→eq (head_of last q) m in
      let now : next_of last q id ≡ (head_of last q).start_time =
        ap (next_of last q) (sym its) ∙ next_of_self last q c in
      (
        NotBefore-NoneSooner (head_of last q) qs (subst (λ (t : ℤ). NotBefore t qs) now h),
        subst (λ (t : ℤ). last id ≤ℤ t) now (next_of-le last q id c),
      )

  adjust-Rises :
      (last : TimeMap) (qs : List QueryLogData)
      → All IsCached qs
      → Rises (of_conn id) (adjust last qs) × NotBefore (last id) (adjust last qs)
  adjust-Rises last [] c = unfold adjust in (tt, tt)
  adjust-Rises last (q ∷ qs) c =
      let (rises, later) = adjust-Rises (next_of last q) qs c.1 in
      let first = head_of-Rises last q (adjust (next_of last q) qs) c.0 later in
      rw (adjust-cons last q qs) (
        ((λ m. (first m).0), rises),
        (
          (λ m. (first m).1),
          NotBefore-trans (last id) (next_of last q id) _ (next_of-le last q id c.0) later,
        ),
      )

  abbrev ref_of_conn : StringRef → Bool
  ref_of_conn r = thread_id_in r.text == id

  select-data_ref :
      (qs : List QueryLogData)
      → map data_ref_of (select (of_conn id) qs) ≡ select ref_of_conn (map data_ref_of qs)
  select-data_ref [] = refl
  select-data_ref (q ∷ qs) = ground (arith, select-data_ref qs)

  -- For entries with no thread id cached but that of their text: whatever the options,
  -- `put_in_order` keeps the entries of one connection in the order of the log, and loses and
  -- repeats none of them.
  pub put_in_order-of_conn :
      (disable_sorting accurate_mode : Bool) (qs : List QueryLogData)
      → All IsCached qs
      → map data_ref_of (select (of_conn id) (put_in_order disable_sorting accurate_mode qs))
        ≡ map data_ref_of (select (of_conn id) qs)
  unfolding put_in_order
  put_in_order-of_conn disable_sorting accurate_mode qs c =
      elim (Bool-cases (not disable_sorting || accurate_mode)) [
        | inl e ↦
            rw
              (
                e,
                select-stable_sort (of_conn id) (adjust no_times qs) (adjust-Rises no_times qs c).0,
              )
              (select-data_ref (adjust no_times qs)
                ∙ ap (select ref_of_conn) (adjust-data_ref no_times qs c)
                ∙ sym (select-data_ref qs))
        | inr e ↦ rw e
      ]
