-- ===== src/QueryLog/Scan/Steps.antt =====
-- A walk over the lines of the log, with no position and no look-ahead, that the reading loop of
-- `getEntries` in percona_playback/query_log/query_log.cc is compared with.
use query_playback.Prelude.{
  ℕ, ◌+◌, ◌≡◌, Bool, not, ◌&&◌, ◌||◌, List, [], ◌∷◌, Option, length, if◌then◌else◌,
}
use query_playback.Text.{Bytes, codes, starts_with, is_empty}
use query_playback.QueryLog.Readline.{StringRef}
use query_playback.QueryLog.Readline.Lines.{lines, remaining}
use query_playback.QueryLog.Data.{Libc}
use query_playback.QueryLog.Scan.{Scan, see_time, add_query, slice, count_sql}

-- Outside every entry, or inside the entry that began at `at`, with its SQL lines and its length.
pub data Open : Type 0 where
  outside : Open
  inside : ℕ → ℕ → ℕ → Open

abbrev pub is_time : Bytes → Bool
is_time l = starts_with l (codes "# Time")

abbrev pub starts_entry : Bytes → Bool
starts_entry l = starts_with l (codes "#") && not (is_time l)

abbrev pub ends_entry : Bytes → Bool
ends_entry l = starts_with l (codes "# User@Host") || is_time l

module _ (libc : Libc) (log : StringRef) where
  -- The end of an entry.
  abbrev pub close : Open → Scan → Scan
  close outside st = st
  close (inside at n len) st = add_query libc n (slice log at len) st

  abbrev pub open_outside : ℕ → Bytes → Open
  open_outside at l = if starts_entry l then inside at 0 (length l) else outside

  abbrev pub open_after : ℕ → Bytes → Open → Open
  open_after at l outside = open_outside at l
  open_after at l (inside a n len) =
      if ends_entry l then open_outside at l else inside a (count_sql l n) (len + length l)

  abbrev pub scan_outside : Bytes → Scan → Scan
  scan_outside l st = if starts_with l (codes "#") && is_time l then see_time libc l st else st

  abbrev pub scan_after : Bytes → Open → Scan → Scan
  scan_after l outside st = scan_outside l st
  scan_after l (inside a n len) st =
      if ends_entry l then scan_outside l (close (inside a n len) st) else st

  -- The lines from address `at` on.
  abbrev pub walk : ℕ → Open → Scan → List Bytes → Scan
  walk at o st [] = close o st
  walk at o st (l ∷ ls) = walk (at + length l) (open_after at l o) (scan_after l o st) ls

  -- The lines that are still to come, with the one read ahead.
  abbrev pub ahead : StringRef → Option ℕ → List Bytes
  ahead next p =
      if is_empty next.text then lines (remaining log p) else next.text ∷ lines (remaining log p)

  abbrev pub EndsAt : StringRef → Option ℕ → Type 0
  EndsAt next p = next.at + length next.text + length (remaining log p) ≡ log.at + length log.text
