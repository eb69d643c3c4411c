-- ===== src/GeneralLog/LineEntries.antt =====
-- The entries that a general log gives.
use query_playback.Prelude.{
  ◌≡◌, refl, ap, ℕ, suc, ◌-◌, length, leb, drop, true, arith, ◌∙◌, sym, false, List, [], ◌∷◌, ◌++◌,
  ◌==◌, append_assoc, append-nil, Option, none, some, if◌then◌else◌, Bool-cases, Option-cases, inl,
  inr, take, Bool, ◌&&◌, ◌||◌,
}
use query_playback.Text.{Bytes, codes, is_empty, starts_with, same_bytes}
use query_playback.Text.Number.{strtoull}
use query_playback.GeneralLog.{
  GeneralLogEntry, general_log_entry, without_end, Matcher, add_query_line, ignores, read_lines,
  get_entries,
}

-- A text without its last byte, and without a carriage return that then ends it.
abbrev pub cut_end : Bytes → Bytes
cut_end [] = []
cut_end (c ∷ []) = []
cut_end (c ∷ d ∷ []) = if c == 13 then [] else c ∷ []
cut_end (c ∷ d ∷ e ∷ s) = c ∷ cut_end (d ∷ e ∷ s)

without_end-step :
    (c d e : ℕ) (s : Bytes) → without_end (c ∷ d ∷ e ∷ s) ≡ c ∷ without_end (d ∷ e ∷ s)
without_end-step c d e s =
    let n = length s in
    let longer_two : suc (suc (suc n)) - 2 ≡ suc n = omega arith in
    let longer_one : suc (suc (suc n)) - 1 ≡ suc (suc n) = omega arith in
    let two : suc (suc n) - 2 ≡ n = omega arith in
    let one : suc (suc n) - 1 ≡ suc n = omega arith in
    let longer : leb 2 (suc (suc (suc n))) ≡ true = ground arith in
    let long : leb 2 (suc (suc n)) ≡ true = ground arith in
    elim (Bool-cases (starts_with (drop n (d ∷ e ∷ s)) (codes "\r"))) [
      | inl h ↦ rw (longer_two, longer_one, two, one, longer, long, h) refl
      | inr h ↦ rw (longer_two, longer_one, two, one, longer, long, h) refl
    ]

without_end-cut_end : (s : Bytes) → without_end s ≡ cut_end s
unfolding starts_with
without_end-cut_end [] = refl
without_end-cut_end (c ∷ []) = refl
without_end-cut_end (c ∷ d ∷ []) = elim (Bool-cases (c == 13)) [
  | inl h ↦ rw h refl
  | inr h ↦ rw h refl
]
without_end-cut_end (c ∷ d ∷ e ∷ s) =
    without_end-step c d e s ∙ ap (λ (r : Bytes). c ∷ r) (without_end-cut_end (d ∷ e ∷ s))

-- The entry of a line that matches: the thread id in it, and its text, cut, with a space behind it.
abbrev pub entry_of : Bytes × Bytes → GeneralLogEntry
entry_of (id, ns) = record general_log_entry {
  thread_id = strtoull id;
  query = cut_end ns ++ codes " ";
}

abbrev pub entry_if : Option (Bytes × Bytes) → List GeneralLogEntry → List GeneralLogEntry
entry_if none es = es
entry_if (some fields) es = entry_of fields ∷ es

-- The word stands in the text behind its first `k` bytes.
abbrev pub stands_behind : ℕ → Bytes → Bytes → Bool
stands_behind k word line = same_bytes (take (length word) (drop k line)) word

-- A comment, a line that ends in `started with:` and one byte more, or one of the two other lines at
-- the head of a log.
abbrev pub is_skipped : Bytes → Bool
is_skipped line =
    stands_behind 0 (codes "#") line
    || (leb 14 (length line) && stands_behind (length line - 14) (codes "started with:") line)
    || stands_behind 0 (codes "Tcp port: ") line
    || stands_behind 0 (codes "Time Id Command Argument") line

starts_with-same_bytes :
    (s word : Bytes) → starts_with s word ≡ same_bytes (take (length word) s) word
unfolding starts_with
starts_with-same_bytes [] [] = refl
starts_with-same_bytes (c ∷ s) [] = refl
starts_with-same_bytes [] (w ∷ ws) = refl
starts_with-same_bytes (c ∷ s) (w ∷ ws) =
    ap (λ (b : Bool). c == w && b) (starts_with-same_bytes s ws)

ignores-is_skipped : (line : Bytes) → ignores line ≡ is_skipped line
unfolding ignores
ignores-is_skipped line =
    rw
      (
        starts_with-same_bytes line (codes "#"),
        starts_with-same_bytes (drop (length line - 14) line) (codes "started with:"),
        starts_with-same_bytes line (codes "Tcp port: "),
        starts_with-same_bytes line (codes "Time Id Command Argument"),
      )
      refl

abbrev pub line_entries : Matcher → List Bytes → List GeneralLogEntry
line_entries match [] = []
line_entries match (line ∷ lines) =
    if is_skipped line
    then line_entries match lines
    else entry_if (match line) (line_entries match lines)

has_query : (s : Bytes) → is_empty (s ++ codes " ") ≡ false
has_query [] = refl
has_query (c ∷ s) = refl

read_lines_lem :
    (match : Matcher) (lines : List Bytes) (es : List GeneralLogEntry)
    → read_lines match lines general_log_entry es ≡ es ++ line_entries match lines
unfolding read_lines add_query_line
read_lines_lem match [] es = sym (append-nil es)
read_lines_lem match (line ∷ lines) es = elim (Bool-cases (is_skipped line)) [
  | inl g ↦ rw (ignores-is_skipped line, g) (read_lines_lem match lines es)
  | inr g ↦ elim (Option-cases (match line)) [
    | inl n ↦ rw (ignores-is_skipped line, g, n) (read_lines_lem match lines es)
    | inr (fields, f) ↦
        rw
          (
            ignores-is_skipped line,
            g,
            f,
            without_end-cut_end fields.1,
            has_query (cut_end fields.1),
          )
          (read_lines_lem match lines (es ++ entry_of fields ∷ [])
            ∙ append_assoc es (entry_of fields ∷ []) (line_entries match lines))
  ]
]

-- A general log gives one entry for each line that is not ignored and matches the regular expression,
-- in the order of the lines, and nothing for any other line.
pub get_entries-line_entries :
    (match : Matcher) (lines : List Bytes) → get_entries match lines ≡ line_entries match lines
unfolding get_entries
get_entries-line_entries match lines = read_lines_lem match lines []
