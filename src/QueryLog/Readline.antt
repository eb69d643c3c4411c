-- ===== src/QueryLog/Readline.antt =====
-- `readline` of percona_playback/query_log/query_log.cc, over a boost::string_ref. A position is
-- `none` where the code has npos. A string_ref is the address where it stands and its bytes.
pub mod Lines
use mathlib.Core.Option
use query_playback.Prelude.{
  ℕ, suc, ◌+◌, Bool, List, [], Option, none, some, length, take, drop, leb, if◌then◌else◌,
}
use query_playback.Text.{Bytes, newline, find_byte}

pub record StringRef : Type 0 where
  pub at : ℕ
  pub text : Bytes

-- `boost::string_ref()`
abbrev pub empty_ref : StringRef
empty_ref = record { at = 0; text = [] }

-- `string_ref::substr(pos, n)` for a `pos` inside the string.
abbrev pub substr : StringRef → ℕ → Option ℕ → StringRef
substr s p none = record { at = s.at + p; text = drop p s.text }
substr s p (some n) = record { at = s.at + p; text = take n (drop p s.text) }

abbrev pub advance : ℕ → Option ℕ → Option ℕ
advance p none = none
advance p (some n) = some (p + n)

abbrev pub read_up_to : StringRef → ℕ → Option ℕ → StringRef × Option ℕ
read_up_to s p new_pos = (substr s p new_pos, advance p new_pos)

-- The next line, with its newline, and the position behind it; an empty line at the end.
unfoldable pub readline : StringRef → Option ℕ → StringRef × Option ℕ
unfolding find_byte
readline s none = (empty_ref, none)
readline s (some p) =
    if leb (length s.text) p
    then (empty_ref, some p)
    else read_up_to s p (Option.map suc (find_byte (drop p s.text) newline))
