-- ===== src/QueryLog/Scan/Walk.antt =====
-- The reading loop of `getEntries` makes the walk over the lines of the log.
use query_playback.Prelude.{
  ℕ, zero, suc, ◌+◌, ◌<◌, ◌≡◌, ◌≢◌, refl, ap, sym, ◌∙◌, Bool, true, false, List, [], ◌∷◌, Option,
  some, ◌⊎◌, inl, inr, length, Bool-cases, arith,
}
use query_playback.Text.{Bytes, codes, starts_with, is_empty}
use query_playback.Text.Find.{is_empty-ne_nil, length-pos}
use query_playback.QueryLog.Readline.{StringRef, empty_ref, readline}
use query_playback.QueryLog.Readline.Lines.{lines, remaining, readline_cases}
use query_playback.QueryLog.Data.{Libc}
use query_playback.QueryLog.Scan.{
  Scan, see_time, count_sql, read_entry, scan_from, scan_log, start_scan, take_line, scan_line,
  skip_line, after_entry, Round,
}
use query_playback.QueryLog.Scan.Steps.{outside, inside, is_time, walk, ahead, EndsAt}
use query_playback.QueryLog.Scan.Entry.{
  ReadsLine-length, ReadsLine-pos, length-remaining-le, EntryRead, read_entry-EntryRead,
}

-- The three tests decide nothing.
skip_line_lem : (line : Bytes) (next_round : Option Scan) → skip_line line next_round ≡ next_round
skip_line_lem line next_round = ground arith

scan_from-suc :
    (libc : Libc) (log : StringRef) (fuel : ℕ) (p : Option ℕ) (next : StringRef) (st : Scan)
    → scan_from (suc fuel) libc log p next st
      ≡ scan_line libc log
          (scan_from fuel libc log)
          (take_line log p next).0
          (take_line log p next).1
          st
unfolding scan_from
scan_from-suc libc log fuel p next st = refl

is_empty-true : (s : Bytes) → is_empty s ≡ true → s ≡ []
is_empty-true [] h = refl
is_empty-true (c ∷ s) h = cc

module _ (libc : Libc) (log : StringRef) where
  walk-skipped :
      (at : ℕ) (st : Scan) (l : Bytes) (ls : List Bytes)
      → starts_with l (codes "#") ≡ false
      → walk libc log at outside st (l ∷ ls) ≡ walk libc log (at + length l) outside st ls
  walk-skipped at st l ls e = rw e

  walk-timed :
      (at : ℕ) (st : Scan) (l : Bytes) (ls : List Bytes)
      → starts_with l (codes "#") ≡ true
      → is_time l ≡ true
      → walk libc log at outside st (l ∷ ls)
        ≡ walk libc log (at + length l) outside (see_time libc l st) ls
  walk-timed at st l ls e f = rw (e, f)

  walk_begins :
      (at : ℕ) (st : Scan) (l : Bytes) (ls : List Bytes)
      → starts_with l (codes "#") ≡ true
      → is_time l ≡ false
      → walk libc log at outside st (l ∷ ls)
        ≡ walk libc log (at + length l) (inside at (count_sql l 0) (0 + length l)) st ls
  walk_begins at st l ls e f = let same : 0 + length l ≡ length l = omega arith in rw (e, f, same)

  -- The rounds that are left make the walk over the lines that are left.
  abbrev Walks : ℕ → Round → Type 0
  Walks fuel again =
      (p : Option ℕ) (next : StringRef) (st : Scan) (at : ℕ)
      → length next.text + length (remaining log p) < fuel
      → at + length next.text + length (remaining log p) ≡ log.at + length log.text
      → (next.text ≡ []) ⊎ (next.at ≡ at)
      → again p next st ≡ some (walk libc log at outside st (ahead libc log next p))

  entry-walk :
      (fuel : ℕ) (again : Round) (line : StringRef) (p : Option ℕ) (st : Scan)
      → Walks fuel again
      → length (remaining log p) < fuel
      → (r : EntryRead libc log (length log.text + 1) p line 0 0 (line.at + length line.text))
      → after_entry libc log again line st (read_entry (length log.text + 1) log p line 0 0)
        ≡ some (
            walk libc log
              (line.at + length line.text)
              (inside line.at (count_sql line.text 0) (0 + length line.text))
              st
              (lines (remaining log p)))
  entry-walk fuel again line p st ok h r =
      rw (r.runs, r.agrees line.at st)
        (elim r.ends_at [
          | inl (empty, done) ↦
              ok r.lines_read.pos_after r.lines_read.next_line _ (log.at + length log.text)
                (rw (empty, done) (omega arith)) (rw (empty, done) (omega arith)) (inl empty)
              ∙ rw (empty, done)
          | inr ends ↦
              ok r.lines_read.pos_after r.lines_read.next_line _ r.lines_read.next_line.at
                (omega (arith, r.shrinks)) ends (inr refl)
        ])

  scan_line-walk :
      (fuel : ℕ) (again : Round) (line : StringRef) (p : Option ℕ) (st : Scan)
      → Walks fuel again
      → length (remaining log p) < fuel
      → line.text ≢ []
      → EndsAt libc log line p
      → scan_line libc log again line p st
        ≡ some (walk libc log line.at outside st (line.text ∷ lines (remaining log p)))
  scan_line-walk fuel again line p st ok h ne e =
      rw (is_empty-ne_nil line.text ne) (elim (Bool-cases (starts_with line.text (codes "#"))) [
        | inl meta ↦ elim (Bool-cases (is_time line.text)) [
          | inl timed ↦
              rw (meta, timed)
                (ok p empty_ref (see_time libc line.text st) (line.at + length line.text)
                    (omega arith) (omega arith) (inl refl)
                  ∙ ap some
                      (sym (walk-timed line.at st line.text (lines (remaining log p)) meta timed)))
          | inr entry ↦
              rw (meta, entry)
                (entry-walk fuel again line p st ok h (
                    read_entry-EntryRead libc log (length log.text + 1) p line 0 0
                      (line.at + length line.text) (omega (arith, length-remaining-le log p)) e)
                  ∙ ap some
                      (sym (walk_begins line.at st line.text (lines (remaining log p)) meta entry)))
        ]
        | inr other ↦ rw other (
            skip_line_lem line.text (again p empty_ref st)
            ∙ ok p empty_ref st (line.at + length line.text) (omega arith) (omega arith) (inl refl)
            ∙ ap some (sym (walk-skipped line.at st line.text (lines (remaining log p)) other)))
      ])

  -- One round of the outer loop that reads a new line, and one that has read ahead.
  round_reads :
      (fuel : ℕ) (again : Round) (p : Option ℕ) (st : Scan) (at : ℕ)
      → Walks fuel again
      → length (remaining log p) < suc fuel
      → at + length (remaining log p) ≡ log.at + length log.text
      → scan_line libc log again (readline log p).0 (readline log p).1 st
        ≡ some (walk libc log at outside st (lines (remaining log p)))
  round_reads fuel again p st at ok h e = elim (readline_cases log p) [
    | inl (done, empty, _) ↦ rw (done, empty)
    | inr read ↦
        let sizes = ReadsLine-length log p (readline log p).0 (readline log p).1 read in
        let some_byte = ReadsLine-pos log p (readline log p).0 (readline log p).1 read in
        let here : at ≡ (readline log p).0.at = omega (arith, read.at_is) in
        rw (read.splits, here)
          (scan_line-walk fuel again (readline log p).0 (readline log p).1 st ok (omega arith)
            read.ne_nil (omega arith))
  ]

  round_ahead :
      (fuel : ℕ) (again : Round) (p : Option ℕ) (next : StringRef) (st : Scan) (at : ℕ)
      → Walks fuel again
      → is_empty next.text ≡ false
      → length next.text + length (remaining log p) < suc fuel
      → at + length next.text + length (remaining log p) ≡ log.at + length log.text
      → (next.text ≡ []) ⊎ (next.at ≡ at)
      → scan_line libc log again next p st
        ≡ some (walk libc log at outside st (next.text ∷ lines (remaining log p)))
  round_ahead fuel again p next st at ok b h e (inl w) = absurd (ground arith)
  round_ahead fuel again p next st at ok b h e (inr w) =
      let ne : next.text ≢ [] = λ x. ground arith in
      let some_byte = length-pos next.text ne in
      rw (← w) (scan_line-walk fuel again next p st ok (omega arith) ne (omega arith))

  round_either :
      (fuel : ℕ) (again : Round) (p : Option ℕ) (next : StringRef) (st : Scan) (at : ℕ)
      → Walks fuel again
      → length next.text + length (remaining log p) < suc fuel
      → at + length next.text + length (remaining log p) ≡ log.at + length log.text
      → (next.text ≡ []) ⊎ (next.at ≡ at)
      → scan_line libc log again (take_line log p next).0 (take_line log p next).1 st
        ≡ some (walk libc log at outside st (ahead libc log next p))
  round_either fuel again p next st at ok h e w = elim (Bool-cases (is_empty next.text)) [
    | inl b ↦
        let none_ahead : next.text ≡ [] = is_empty-true next.text b in
        let size : length next.text ≡ 0 = ap length none_ahead in
        rw b (round_reads fuel again p st at ok (omega arith) (omega arith))
    | inr b ↦ rw b (round_ahead fuel again p next st at ok b h e w)
  ]

  scan_from-Walks : (fuel : ℕ) → Walks fuel (scan_from fuel libc log)
  scan_from-Walks zero p next st at h e w = elim h [ ]
  scan_from-Walks (suc fuel) p next st at h e w =
      scan_from-suc libc log fuel p next st
      ∙ round_either fuel (scan_from fuel libc log) p next st at (scan_from-Walks fuel) h e w

  -- For every log the reading ends, and leaves what a walk over its lines leaves that takes them
  -- one by one, with the entry that is open: a line that starts an entry opens one, every other
  -- line of it adds to it, and a time line, the start of the next entry or the end of the log
  -- closes it.
  pub scan_log-walk :
      (accurate_mode : Bool)
      → scan_log libc accurate_mode log
        ≡ some (walk libc log log.at outside (start_scan accurate_mode) (lines log.text))
  unfolding scan_log
  scan_log-walk accurate_mode =
      scan_from-Walks (length log.text + 1) (some 0) empty_ref (start_scan accurate_mode) log.at
        (omega arith) (omega arith) (inl refl)
