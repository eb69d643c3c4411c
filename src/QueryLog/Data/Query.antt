-- ===== src/QueryLog/Data/Query.antt =====
-- `getQuery`: the statement that is sent to the database.
use query_playback.Prelude.{
  ℕ, zero, suc, ◌+◌, ◌<◌, ◌≡◌, refl, ap, sym, ◌∙◌, Bool, true, false, not, ◌&&◌, List, [], ◌∷◌,
  ◌++◌, Option, some, map, length, length-append, select, if◌then◌else◌, Bool-cases, inl, inr,
  arith, append_assoc, append-nil,
}
use query_playback.Text.{Bytes, codes, starts_with, trim, blanks, is_empty}
use query_playback.Text.Find.{is_empty-ne_nil, length-pos}
use query_playback.QueryLog.Readline.{StringRef, readline}
use query_playback.QueryLog.Readline.Lines.{lines, remaining, readline_cases}
use query_playback.QueryLog.Data.{QueryLogData, text_of, add_line, get_query_from, get_query}

-- The lines of a statement stand behind the metadata, which is the `#` lines at the front.
abbrev pub after_metadata : List Bytes → List Bytes
after_metadata [] = []
after_metadata (l ∷ ls) = if starts_with l (codes "#") then after_metadata ls else l ∷ ls

abbrev pub is_kept : Bool → Bytes → Bool
is_kept remove_timestamp l =
    not (remove_timestamp && starts_with l (codes "SET timestamp="))
    && not (is_empty (trim blanks l))

abbrev pub statement_lines : Bool → Bytes → List Bytes
statement_lines remove_timestamp s =
    map (trim blanks) (select (is_kept remove_timestamp) (after_metadata (lines s)))

abbrev pub spaced : List Bytes → Bytes
spaced [] = []
spaced (l ∷ ls) = b' ' ∷ (l ++ spaced ls)

-- The lines in order, with one space between two of them.
abbrev pub joined : List Bytes → Bytes
joined [] = []
joined (l ∷ ls) = l ++ spaced ls

abbrev add_lines : Bool → Bool × Bytes → List Bytes → Bool × Bytes
add_lines remove_timestamp st [] = st
add_lines remove_timestamp st (l ∷ ls) =
    add_lines remove_timestamp (add_line remove_timestamp st l) ls

get_query_from-add_lines :
    (fuel : ℕ) (r : Bool) (d : StringRef) (p : Option ℕ) (found : Bool) (ret : Bytes)
    → length (remaining d p) < fuel
    → get_query_from fuel r d p (found, ret)
      ≡ some (add_lines r (found, ret) (lines (remaining d p))).1
unfolding get_query_from
get_query_from-add_lines zero r d p found ret h = elim h [ ]
get_query_from-add_lines (suc fuel) r d p found ret h = elim (readline_cases d p) [
  | inl (done, e, _) ↦ rw (e, done) refl
  | inr read ↦
      let (found', ret') = add_line r (found, ret) (readline d p).0.text in
      rw (read.splits, is_empty-ne_nil (readline d p).0.text read.ne_nil)
        (get_query_from-add_lines fuel r d (readline d p).1 found' ret' (
          omega (
            arith,
            ap length read.joins,
            length-append (readline d p).0.text (remaining d (readline d p).1),
            length-pos (readline d p).0.text read.ne_nil,
          )))
]

add_line-kept :
    (r : Bool) (ret l : Bytes)
    → is_kept r l ≡ true
    → add_line r (true, ret) l
      ≡ (true, (if is_empty ret then ret else ret ++ codes " ") ++ trim blanks l)
unfolding add_line
add_line-kept r ret l h = ground arith

add_line-dropped :
    (r : Bool) (ret l : Bytes) → is_kept r l ≡ false → add_line r (true, ret) l ≡ (true, ret)
unfolding add_line
add_line-dropped r ret l h = ground arith

-- A line behind the metadata is not taken for metadata.
add_line-first :
    (r : Bool) (l : Bytes)
    → starts_with l (codes "#") ≡ false
    → add_line r (false, []) l ≡ add_line r (true, []) l
unfolding add_line
add_line-first r l h = ground arith

add_line-metadata :
    (r : Bool) (l : Bytes)
    → starts_with l (codes "#") ≡ true
    → add_line r (false, []) l ≡ (false, [])
unfolding add_line
add_line-metadata r l h = ground arith

kept-ne-nil : (r : Bool) (l : Bytes) → is_kept r l ≡ true → is_empty (trim blanks l) ≡ false
kept-ne-nil r l h = ground arith

after :
    (r : Bool) (ls : List Bytes) {st st' : Bool × Bytes}
    → st ≡ st'
    → (add_lines r st ls).1 ≡ (add_lines r st' ls).1
after r ls e = ap (λ (st : Bool × Bytes). (add_lines r st ls).1) e

add_lines-true :
    (r : Bool) (c : ℕ) (ret : Bytes) (ls : List Bytes)
    → (add_lines r (true, c ∷ ret) ls).1
      ≡ (c ∷ ret) ++ spaced (map (trim blanks) (select (is_kept r) ls))
add_lines-true r c ret [] = sym (append-nil (c ∷ ret))
add_lines-true r c ret (l ∷ ls) = elim (Bool-cases (is_kept r l)) [
  | inl k ↦ rw k (
      after r ls (add_line-kept r (c ∷ ret) l k)
      ∙ add_lines-true r c ((ret ++ b' ' ∷ []) ++ trim blanks l) ls
      ∙ simp append_assoc)
  | inr k ↦ rw k (after r ls (add_line-dropped r (c ∷ ret) l k) ∙ add_lines-true r c ret ls)
]

add_lines-spaced :
    (r : Bool) (ret : Bytes) (ls : List Bytes)
    → is_empty ret ≡ false
    → (add_lines r (true, ret) ls).1 ≡ ret ++ spaced (map (trim blanks) (select (is_kept r) ls))
add_lines-spaced r [] ls h = cc
add_lines-spaced r (c ∷ ret) ls h = add_lines-true r c ret ls

add_lines-joined :
    (r : Bool) (ls : List Bytes)
    → (add_lines r (true, []) ls).1 ≡ joined (map (trim blanks) (select (is_kept r) ls))
add_lines-joined r [] = refl
add_lines-joined r (l ∷ ls) = elim (Bool-cases (is_kept r l)) [
  | inl k ↦ rw k (
      after r ls (add_line-kept r [] l k)
      ∙ add_lines-spaced r (trim blanks l) ls (kept-ne-nil r l k))
  | inr k ↦ rw k (after r ls (add_line-dropped r [] l k) ∙ add_lines-joined r ls)
]

add_lines-metadata :
    (r : Bool) (ls : List Bytes)
    → (add_lines r (false, []) ls).1
      ≡ joined (map (trim blanks) (select (is_kept r) (after_metadata ls)))
add_lines-metadata r [] = refl
add_lines-metadata r (l ∷ ls) = elim (Bool-cases (starts_with l (codes "#"))) [
  | inl m ↦ rw m (after r ls (add_line-metadata r l m) ∙ add_lines-metadata r ls)
  | inr m ↦ rw m (after r ls (add_line-first r l m) ∙ add_lines-joined r (l ∷ ls))
]

-- `getQuery` ends, and gives the lines of the statement trimmed and joined by spaces: the lines
-- behind the metadata at the start, without those that are blank and, where asked, without those
-- that set the timestamp.
pub get_query_lem :
    (r : Bool) (q : QueryLogData) → get_query r q ≡ some (joined (statement_lines r (text_of q)))
unfolding get_query
get_query_lem r q =
    get_query_from-add_lines (length (text_of q) + 1) r q.data_ref (some 0) false [] (omega arith)
    ∙ ap some (add_lines-metadata r (lines (text_of q)))
