-- ===== src/QueryLog/Scan/Entry.antt =====
-- The inner loop of `getEntries`, which reads the lines of an entry, in terms of the walk.
use query_playback.Prelude.{
  length-drop, ℕ, zero, suc, ◌+◌, ◌≤◌, ◌<◌, ◌≡◌, ◌≢◌, refl, ap, sym, ◌∙◌, true, false, List, [],
  ◌∷◌, Option, none, some, ◌⊎◌, inl, inr, length, length-append, Bool-cases, arith,
}
use query_playback.Text.{Bytes}
use query_playback.Text.Find.{is_empty-ne_nil, length-pos}
use query_playback.QueryLog.Readline.{StringRef, readline}
use query_playback.QueryLog.Readline.Lines.{lines, remaining, ReadsLine, readline_cases}
use query_playback.QueryLog.Data.{Libc}
use query_playback.QueryLog.Scan.{Scan, count_sql, goes_on, EntryLines, read_entry}
use query_playback.QueryLog.Scan.Steps.{outside, inside, ends_entry, close, walk, ahead, EndsAt}

abbrev entry_at : StringRef → Option ℕ → StringRef → ℕ → ℕ → EntryLines
entry_at log p line n len = record {
  num_sql_lines = count_sql line.text n;
  query_data_len = len + length line.text;
  next_line = (readline log p).0;
  pos_after = (readline log p).1;
}

read_entry-stop :
    (log : StringRef) (fuel : ℕ) (p : Option ℕ) (line : StringRef) (n len : ℕ)
    → goes_on (readline log p).0.text ≡ false
    → read_entry (suc fuel) log p line n len ≡ some (entry_at log p line n len)
unfolding read_entry
read_entry-stop log fuel p line n len e = rw e

read_entry-goes_on :
    (log : StringRef) (fuel : ℕ) (p : Option ℕ) (line : StringRef) (n len : ℕ)
    → goes_on (readline log p).0.text ≡ true
    → read_entry (suc fuel) log p line n len
      ≡ read_entry fuel log
          (readline log p).1
          (readline log p).0
          (count_sql line.text n)
          (len + length line.text)
unfolding read_entry
read_entry-goes_on log fuel p line n len e = rw e

pub ReadsLine-length :
    (d : StringRef) (p : Option ℕ) (line : StringRef) (p' : Option ℕ)
    → ReadsLine d p line p'
    → length line.text + length (remaining d p') ≡ length (remaining d p)
ReadsLine-length d p line p' r = sym (length-append line.text (remaining d p')) ∙ ap length r.joins

pub ReadsLine-pos :
    (d : StringRef) (p : Option ℕ) (line : StringRef) (p' : Option ℕ)
    → ReadsLine d p line p'
    → 0 < length line.text
ReadsLine-pos d p line p' r = length-pos line.text r.ne_nil

goes_on-false : (l : Bytes) → l ≢ [] → goes_on l ≡ false → ends_entry l ≡ true
goes_on-false [] h e = absurd (h refl)
goes_on-false (c ∷ l) h e = ground arith

pub length-remaining-le : (d : StringRef) (p : Option ℕ) → length (remaining d p) ≤ length d.text
length-remaining-le d none = omega arith
length-remaining-le d (some p) = omega (arith, length-drop p d.text)

goes_on-true : (l : Bytes) → goes_on l ≡ true → ends_entry l ≡ false
goes_on-true l e = ground arith

module _ (libc : Libc) (log : StringRef) where
  -- The inner loop, from a line that belongs to the entry, in terms of the walk.
  pub record EntryRead (fuel : ℕ) (p : Option ℕ) (line : StringRef) (n len at : ℕ) : Type 0 where
    pub lines_read : EntryLines
    pub runs : read_entry fuel log p line n len ≡ some lines_read
    pub agrees :
        (a : ℕ) (st : Scan)
        → walk libc log at
            (inside a (count_sql line.text n) (len + length line.text))
            st
            (lines (remaining log p))
          ≡ walk libc log lines_read.next_line.at outside
              (close libc log (inside a lines_read.num_sql_lines lines_read.query_data_len) st)
              (ahead libc log lines_read.next_line lines_read.pos_after)
    pub shrinks :
        length lines_read.next_line.text + length (remaining log lines_read.pos_after)
        ≤ length (remaining log p)
    pub ends_at :
        ((lines_read.next_line.text ≡ []) × (remaining log lines_read.pos_after ≡ []))
        ⊎ EndsAt libc log lines_read.next_line lines_read.pos_after

  walk-goes_on :
      (at a n len : ℕ) (st : Scan) (l : Bytes) (ls : List Bytes)
      → ends_entry l ≡ false
      → walk libc log at (inside a n len) st (l ∷ ls)
        ≡ walk libc log (at + length l) (inside a (count_sql l n) (len + length l)) st ls
  walk-goes_on at a n len st l ls e = rw e

  -- A line that ends the entry is read again outside.
  walk-ends :
      (at at' a n len : ℕ) (st : Scan) (l : Bytes) (ls : List Bytes)
      → ends_entry l ≡ true
      → at ≡ at'
      → walk libc log at (inside a n len) st (l ∷ ls)
        ≡ walk libc log at' outside (close libc log (inside a n len) st) (l ∷ ls)
  walk-ends at at' a n len st l ls e f = rw (f, e)

  pub read_entry-EntryRead :
      (fuel : ℕ) (p : Option ℕ) (line : StringRef) (n len at : ℕ)
      → length (remaining log p) < fuel
      → at + length (remaining log p) ≡ log.at + length log.text
      → EntryRead fuel p line n len at
  read_entry-EntryRead zero p line n len at h e = elim h [ ]
  read_entry-EntryRead (suc fuel) p line n len at h e = elim (readline_cases log p) [
    | inl (done, empty, done') ↦ record {
      lines_read = entry_at log p line n len;
      runs = read_entry-stop log fuel p line n len (rw empty);
      agrees = λ a st. rw (done, empty, done');
      shrinks = rw (done, empty, done') (omega arith);
      ends_at = inl (empty, done');
    }
    | inr read ↦
        let sizes = ReadsLine-length log p (readline log p).0 (readline log p).1 read in
        let some_byte = ReadsLine-pos log p (readline log p).0 (readline log p).1 read in
        elim (Bool-cases (goes_on (readline log p).0.text)) [
          | inl more ↦
              let ih =
                read_entry-EntryRead fuel (readline log p).1 (readline log p).0
                  (count_sql line.text n) (len + length line.text)
                  (at + length (readline log p).0.text) (omega arith) (omega arith) in
              record {
                lines_read = ih.lines_read;
                runs = read_entry-goes_on log fuel p line n len more ∙ ih.runs;
                agrees = λ a st. rw read.splits (
                    walk-goes_on at a (count_sql line.text n) (len + length line.text) st
                      (readline log p).0.text (lines (remaining log (readline log p).1))
                      (goes_on-true (readline log p).0.text more)
                    ∙ ih.agrees a st);
                shrinks = omega (arith, ih.shrinks);
                ends_at = ih.ends_at;
              }
          | inr stop ↦ record {
            lines_read = entry_at log p line n len;
            runs = read_entry-stop log fuel p line n len stop;
            agrees = λ a st.
                rw (read.splits, is_empty-ne_nil (readline log p).0.text read.ne_nil)
                  (walk-ends at (readline log p).0.at a (count_sql line.text n)
                    (len + length line.text) st (readline log p).0.text
                    (lines (remaining log (readline log p).1))
                    (goes_on-false (readline log p).0.text read.ne_nil stop)
                    (omega (arith, read.at_is)));
            shrinks = omega arith;
            ends_at = inr (omega (arith, read.at_is));
          }
        ]
  ]
