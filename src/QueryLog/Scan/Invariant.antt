-- ===== src/QueryLog/Scan/Invariant.antt =====
-- What holds of the entries while a log is read.
use query_playback.Prelude.{
  ℕ, ◌+◌, ◌≤◌, ◌<◌, ◌≡◌, ◌≢◌, refl, Bool, ◌&&◌, List, [], ◌∷◌, ◌++◌, some, inl, inr, length,
  length-append, All, All-append, Bool-cases, arith, ◌==◌,
}
use query_playback.Text.{Bytes, codes, starts_with, newline}
use query_playback.QueryLog.Readline.{StringRef}
use query_playback.QueryLog.Readline.Lines.{lines, add_byte}
use query_playback.QueryLog.Data.{Libc, QueryLogData, query_log_data}
use query_playback.QueryLog.Data.Fields.{IsCached}
use query_playback.QueryLog.Scan.{Scan, see_time, add_query, slice, scan_log, start_scan}
use query_playback.QueryLog.Scan.Walk.{scan_log-walk}
use query_playback.QueryLog.Scan.Steps.{
  Open, outside, inside, ends_entry, close, open_outside, open_after, scan_outside, scan_after,
  walk, is_time, starts_entry,
}
use query_playback.QueryLog.Entries.Shutdown.{HasDistinctAddresses}

-- The addresses of the texts rise strictly, from `lo` on.
abbrev pub Ascends : ℕ → List QueryLogData → Type 0
Ascends lo [] = Unit
Ascends lo (q ∷ qs) = (lo ≤ q.data_ref.at) × Ascends (q.data_ref.at + 1) qs

abbrev start_of : ℕ → Open → ℕ
start_of at outside = at
start_of at (inside a n len) = a

abbrev Below : ℕ → List QueryLogData → Type 0
Below bound = All (λ q. q.data_ref.at < bound)

abbrev Begun : ℕ → Open → Type 0
Begun at outside = Unit
Begun at (inside a n len) = a < at

record Inv (lo at : ℕ) (o : Open) (st : Scan) : Type 0 where
  from_lo : lo ≤ start_of at o
  begun : Begun at o
  counted : st.num_queries ≡ length st.entries
  among : st.num_queries ≤ st.num_entries
  cached : All IsCached st.entries
  ascends : Ascends lo st.entries
  below : Below (start_of at o) st.entries

Below-mono : (a b : ℕ) (qs : List QueryLogData) → a ≤ b → Below a qs → Below b qs
Below-mono a b [] h k = tt
Below-mono a b (q ∷ qs) h k = (omega arith, Below-mono a b qs h k.1)

Ascends-concat :
    (lo : ℕ) (qs : List QueryLogData) (x : QueryLogData)
    → lo ≤ x.data_ref.at
    → Ascends lo qs
    → Below x.data_ref.at qs
    → Ascends lo (qs ++ x ∷ [])
Ascends-concat lo [] x h a b = (h, tt)
Ascends-concat lo (q ∷ qs) x h a b =
    (a.0, Ascends-concat (q.data_ref.at + 1) qs x (omega arith) a.1 b.1)

-- The end of an entry, in a place behind its start.
add_query-Inv :
    (libc : Libc) (log : StringRef) (lo at a n len : ℕ) (st : Scan)
    → Inv lo at (inside a n len) st
    → Inv lo at outside (add_query libc n (slice log a len) st)
unfolding add_query query_log_data
add_query-Inv libc log lo at a n len st v =
    let h : a < at = v.begun in
    elim (Bool-cases (n == 0)) [
      | inl e ↦ rw e (record {
        from_lo = omega arith;
        begun = tt;
        counted = v.counted;
        among = omega arith;
        cached = v.cached;
        ascends = v.ascends;
        below = Below-mono a at st.entries (omega arith) v.below;
      })
      | inr e ↦ rw e (record {
        from_lo = omega arith;
        begun = tt;
        counted = omega (
          arith,
          length-append st.entries
              (query_log_data libc (slice log a len) st.current_timestamp ∷ []),
        );
        among = omega arith;
        cached = All-append IsCached st.entries _ v.cached (inl refl, tt);
        ascends = Ascends-concat lo st.entries _ v.from_lo v.ascends v.below;
        below =
            All-append _ st.entries _ (Below-mono a at st.entries (omega arith) v.below)
              (omega arith, tt);
      })
    ]

module _ (libc : Libc) (log : StringRef) (lo : ℕ) where
  close-Inv :
      (at : ℕ) (o : Open) (st : Scan) → Inv lo at o st → Inv lo at outside (close libc log o st)
  close-Inv at outside st v = v
  close-Inv at (inside a n len) st v = add_query-Inv libc log lo at a n len st v

  see_time-Inv :
      (at : ℕ) (o : Open) (l : Bytes) (st : Scan)
      → Inv lo at o st
      → Inv lo at o (see_time libc l st)
  unfolding see_time
  see_time-Inv at o l st v = record {
    from_lo = v.from_lo;
    begun = v.begun;
    counted = v.counted;
    among = v.among;
    cached = v.cached;
    ascends = v.ascends;
    below = v.below;
  }

  scan_outside-Inv :
      (at : ℕ) (l : Bytes) (st : Scan)
      → Inv lo at outside st
      → Inv lo at outside (scan_outside libc log l st)
  scan_outside-Inv at l st v = elim (Bool-cases (starts_with l (codes "#") && is_time l)) [
    | inl e ↦ rw e (see_time-Inv at outside l st v)
    | inr e ↦ rw e v
  ]

  open_outside-Inv :
      (at : ℕ) (l : Bytes) (st : Scan)
      → 0 < length l
      → Inv lo at outside st
      → Inv lo (at + length l) (open_outside libc log at l) st
  open_outside-Inv at l st h v = elim (Bool-cases (starts_entry l)) [
    | inl e ↦ rw e (record {
      from_lo = v.from_lo;
      begun = omega arith;
      counted = v.counted;
      among = v.among;
      cached = v.cached;
      ascends = v.ascends;
      below = v.below;
    })
    | inr e ↦ rw e (record {
      from_lo = omega (arith, v.from_lo);
      begun = tt;
      counted = v.counted;
      among = v.among;
      cached = v.cached;
      ascends = v.ascends;
      below = Below-mono at (at + length l) st.entries (omega arith) v.below;
    })
  ]

  step-Inv :
      (at : ℕ) (o : Open) (l : Bytes) (st : Scan)
      → 0 < length l
      → Inv lo at o st
      → Inv lo (at + length l) (open_after libc log at l o) (scan_after libc log l o st)
  step-Inv at outside l st h v = open_outside-Inv at l _ h (scan_outside-Inv at l st v)
  step-Inv at (inside a n len) l st h v = elim (Bool-cases (ends_entry l)) [
    | inl e ↦
        rw e
          (open_outside-Inv at l _ h (scan_outside-Inv at l _ (close-Inv at (inside a n len) st v)))
    | inr e ↦ rw e (record {
      from_lo = v.from_lo;
      begun = omega (arith, v.begun);
      counted = v.counted;
      among = v.among;
      cached = v.cached;
      ascends = v.ascends;
      below = v.below;
    })
  ]

  walk-Inv :
      (at : ℕ) (o : Open) (st : Scan) (ls : List Bytes)
      → All (λ l. 0 < length l) ls
      → Inv lo at o st
      → (end : ℕ) × Inv lo end outside (walk libc log at o st ls)
  walk-Inv at o st [] h v = (at, close-Inv at o st v)
  walk-Inv at o st (l ∷ ls) h v = walk-Inv (at + length l) _ _ ls h.1 (step-Inv at o l st h.0 v)

lines-pos : (s : Bytes) → All (λ l. 0 < length l) (lines s)
lines-pos [] = tt
lines-pos (c ∷ s) = elim (Bool-cases (c == newline)) [
  | inl e ↦ rw e (omega arith, lines-pos s)
  | inr e ↦ rw e (add_byte-pos (lines s) (lines-pos s))
]
  where
    add_byte-pos :
        (ls : List Bytes) → All (λ l. 0 < length l) ls → All (λ l. 0 < length l) (add_byte c ls)
    add_byte-pos [] h = (omega arith, tt)
    add_byte-pos (l ∷ ls) h = (omega arith, h.1)

pub Ascends-HasDistinctAddresses :
    (lo : ℕ) (qs : List QueryLogData) → Ascends lo qs → HasDistinctAddresses qs
Ascends-HasDistinctAddresses lo [] h = tt
Ascends-HasDistinctAddresses lo (q ∷ qs) h = (
  above q.data_ref.at (q.data_ref.at + 1) qs (omega arith) h.1,
  Ascends-HasDistinctAddresses (q.data_ref.at + 1) qs h.1,
)
  where
    above :
        (at from : ℕ) (xs : List QueryLogData)
        → at < from
        → Ascends from xs
        → All (λ x. x.data_ref.at ≢ at) xs
    above at from [] h k = tt
    above at from (x ∷ xs) h k = (omega arith, above at (x.data_ref.at + 1) xs (omega arith) k.1)

-- What is known of the entries after the reading loop.
pub record IsScanned (log : StringRef) (st : Scan) : Type 0 where
  pub counted : st.num_queries ≡ length st.entries
  pub among : st.num_queries ≤ st.num_entries
  pub cached : All IsCached st.entries
  pub ascends : Ascends log.at st.entries

-- The reading loop ends for every log; it counts each query that it adds, at most one for an entry;
-- a thread id is cached only where it is that of the text; and the addresses of the texts rise strictly, from
-- that of the log on.
pub scan_log-IsScanned :
    (libc : Libc) (accurate_mode : Bool) (log : StringRef)
    → (st : Scan) × (scan_log libc accurate_mode log ≡ some st) × IsScanned log st
scan_log-IsScanned libc accurate_mode log =
    let start : Inv log.at log.at outside (start_scan accurate_mode) = record {
      from_lo = omega arith;
      begun = tt;
      counted = refl;
      among = omega arith;
      cached = tt;
      ascends = tt;
      below = tt;
    } in
    let (end, v) =
      walk-Inv libc log log.at log.at outside (start_scan accurate_mode) (lines log.text)
        (lines-pos log.text) start in
    (
      walk libc log log.at outside (start_scan accurate_mode) (lines log.text),
      scan_log-walk libc log accurate_mode,
      record { counted = v.counted; among = v.among; cached = v.cached; ascends = v.ascends },
    )
