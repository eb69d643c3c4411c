-- ===== src/QueryLog/Data/OneLine.antt =====
-- A statement goes to the database as one line.
use query_playback.Prelude.{
  ℕ, ◌≡◌, ◌≢◌, Bool, false, List, [], ◌∷◌, some, map, select, All, All-append, if◌then◌else◌,
  Bool-cases, inl, inr, arith, ◌==◌,
}
use query_playback.Text.{Bytes, codes, starts_with, trim, blanks, is_empty, newline, is_one_of}
use query_playback.Text.Trim.{skip, chop, trim_lem}
use query_playback.QueryLog.Readline.Lines.{lines, add_byte}
use query_playback.QueryLog.Data.{QueryLogData, text_of, get_query}
use query_playback.QueryLog.Data.Query.{
  after_metadata, is_kept, statement_lines, spaced, joined, get_query_lem,
}

-- A newline stands at the end only.
abbrev IsLine : Bytes → Type 0
IsLine [] = Unit
IsLine (c ∷ []) = Unit
IsLine (c ∷ d ∷ s) = (c ≢ newline) × IsLine (d ∷ s)

abbrev pub HasNoNewline : Bytes → Type 0
HasNoNewline = All (λ c. c ≢ newline)

add_byte-IsLine :
    (c : ℕ) (ls : List Bytes) → (c == newline) ≡ false → All IsLine ls → All IsLine (add_byte c ls)
add_byte-IsLine c [] h a = (tt, tt)
add_byte-IsLine c ([] ∷ ls) h a = (tt, a.1)
add_byte-IsLine c ((d ∷ l) ∷ ls) h a = ((ground arith, a.0), a.1)

lines-IsLine : (s : Bytes) → All IsLine (lines s)
lines-IsLine [] = tt
lines-IsLine (c ∷ s) = elim (Bool-cases (c == newline)) [
  | inl e ↦ rw e (tt, lines-IsLine s)
  | inr e ↦ rw e (add_byte-IsLine c (lines s) e (lines-IsLine s))
]

tail-IsLine : (c : ℕ) (s : Bytes) → IsLine (c ∷ s) → IsLine s
tail-IsLine c [] h = tt
tail-IsLine c (d ∷ s) h = h.1

skip-IsLine : (chars s : Bytes) → IsLine s → IsLine (skip chars s)
skip-IsLine chars [] h = tt
skip-IsLine chars (c ∷ s) h = elim (Bool-cases (is_one_of chars c)) [
  | inl e ↦ rw e (skip-IsLine chars s (tail-IsLine c s h))
  | inr e ↦ rw e h
]

keep_byte-HasNoNewline :
    (c : ℕ) (rest : Bytes)
    → c ≢ newline
    → HasNoNewline rest
    → HasNoNewline (if is_empty rest then (if is_one_of blanks c then [] else c ∷ []) else c ∷ rest)
keep_byte-HasNoNewline c (d ∷ rest) h k = (h, k)
keep_byte-HasNoNewline c [] h k = elim (Bool-cases (is_one_of blanks c)) [
  | inl e ↦ rw e tt
  | inr e ↦ rw e (h, tt)
]

chop-HasNoNewline : (s : Bytes) → IsLine s → HasNoNewline (chop blanks s)
chop-HasNoNewline [] h = tt
chop-HasNoNewline (c ∷ []) h = elim (Bool-cases (is_one_of blanks c)) [
  | inl e ↦ rw e tt
  | inr e ↦ rw e (unfold is_one_of in ground arith, tt)
]
chop-HasNoNewline (c ∷ d ∷ s) h =
    keep_byte-HasNoNewline c (chop blanks (d ∷ s)) h.0 (chop-HasNoNewline (d ∷ s) h.1)

trim-HasNoNewline : (s : Bytes) → IsLine s → HasNoNewline (trim blanks s)
trim-HasNoNewline s h =
    rw (trim_lem blanks s) (chop-HasNoNewline (skip blanks s) (skip-IsLine blanks s h))

module _ {ℓ} (P : Bytes → Type ℓ) where
  All-select : (p : Bytes → Bool) (ls : List Bytes) → All P ls → All P (select p ls)
  All-select p [] h = h
  All-select p (l ∷ ls) h = elim (Bool-cases (p l)) [
    | inl e ↦ rw e (h.0, All-select p ls h.1)
    | inr e ↦ rw e (All-select p ls h.1)
  ]

  All-after_metadata : (ls : List Bytes) → All P ls → All P (after_metadata ls)
  All-after_metadata [] h = h
  All-after_metadata (l ∷ ls) h = elim (Bool-cases (starts_with l (codes "#"))) [
    | inl e ↦ rw e (All-after_metadata ls h.1)
    | inr e ↦ rw e h
  ]

map-trim-HasNoNewline : (ls : List Bytes) → All IsLine ls → All HasNoNewline (map (trim blanks) ls)
map-trim-HasNoNewline [] h = tt
map-trim-HasNoNewline (l ∷ ls) h = (trim-HasNoNewline l h.0, map-trim-HasNoNewline ls h.1)

spaced-HasNoNewline : (ls : List Bytes) → All HasNoNewline ls → HasNoNewline (spaced ls)
spaced-HasNoNewline [] h = tt
spaced-HasNoNewline (l ∷ ls) h =
    (omega arith, All-append _ l (spaced ls) h.0 (spaced-HasNoNewline ls h.1))

joined-HasNoNewline : (ls : List Bytes) → All HasNoNewline ls → HasNoNewline (joined ls)
joined-HasNoNewline [] h = tt
joined-HasNoNewline (l ∷ ls) h = All-append _ l (spaced ls) h.0 (spaced-HasNoNewline ls h.1)

-- Whatever the entry holds, `getQuery` ends, and the statement it gives holds no newline.
pub get_query-HasNoNewline :
    (remove_timestamp : Bool) (q : QueryLogData)
    → (query : Bytes) × (get_query remove_timestamp q ≡ some query) × HasNoNewline query
get_query-HasNoNewline r q = (
  joined (statement_lines r (text_of q)),
  get_query_lem r q,
  joined-HasNoNewline _ (
      map-trim-HasNoNewline _
        (All-select IsLine (is_kept r) _ (All-after_metadata IsLine _ (lines-IsLine (text_of q))))),
)
