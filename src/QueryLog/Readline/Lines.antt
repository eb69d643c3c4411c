-- ===== src/QueryLog/Readline/Lines.antt =====
-- What `readline` reads: the lines of the string, one after another.
use mathlib.Core.Option
use query_playback.Prelude.{
  length-drop, ℕ, zero, suc, ◌+◌, ◌≤◌, ◌<◌, ◌≡◌, refl, ◌≢◌, List, [], ◌∷◌, ◌++◌, Option, none, some,
  ◌⊎◌, inl, inr, length, take, drop, leb, ◌==◌, if◌then◌else◌, Bool-cases, Option-cases, arith,
  append-nil, take-append-drop,
}
use query_playback.Text.{Bytes, newline, find_byte}
use query_playback.QueryLog.Readline.{StringRef, read_up_to, readline}

abbrev pub add_byte : ℕ → List Bytes → List Bytes
add_byte c [] = (c ∷ []) ∷ []
add_byte c (l ∷ ls) = (c ∷ l) ∷ ls

-- The lines of a string, each with the newline that ends it.
abbrev pub lines : Bytes → List Bytes
lines [] = []
lines (c ∷ s) = if c == newline then (c ∷ []) ∷ lines s else add_byte c (lines s)

-- What is still to read at a position.
abbrev pub remaining : StringRef → Option ℕ → Bytes
remaining d none = []
remaining d (some p) = drop p d.text

drop-nil : (n : ℕ) → drop {A = ℕ} n [] ≡ []
drop-nil zero = refl
drop-nil (suc n) = refl

drop-add : (p n : ℕ) (s : Bytes) → drop (p + n) s ≡ drop n (drop p s)
drop-add zero n s = let e : zero + n ≡ n = omega arith in rw e
drop-add (suc p) n [] = let e : suc p + n ≡ suc (p + n) = omega arith in rw (e, drop-nil n)
drop-add (suc p) n (c ∷ s) = let e : suc p + n ≡ suc (p + n) = omega arith in rw e (drop-add p n s)

lines-none : (c : ℕ) (s : Bytes) → find_byte (c ∷ s) newline ≡ none → lines (c ∷ s) ≡ (c ∷ s) ∷ []
unfolding find_byte
lines-none c [] h = ground arith
lines-none c (d ∷ s) h = ground (arith, lines-none d s)

lines-some :
    (s : Bytes) (i : ℕ)
    → find_byte s newline ≡ some i
    → lines s ≡ take (suc i) s ∷ lines (drop (suc i) s)
unfolding find_byte
lines-some [] i h = cc
lines-some (c ∷ s) i h = elim (Bool-cases (c == newline)) [
  | inl e ↦ ground arith
  | inr e ↦ elim (Option-cases (find_byte s newline)) [
    | inl f ↦ absurd (ground arith)
    | inr (j, f) ↦ ground (arith, lines-some s j f)
  ]
]

-- A nonempty rest: `readline` takes its first line off.
pub record ReadsLine (d : StringRef) (p : Option ℕ) (line : StringRef) (p' : Option ℕ)
    : Type 0 where
  pub splits : lines (remaining d p) ≡ line.text ∷ lines (remaining d p')
  pub joins : line.text ++ remaining d p' ≡ remaining d p
  pub ne_nil : line.text ≢ []
  pub at_is : line.at + length (remaining d p) ≡ d.at + length d.text

take-suc-ne-nil : (s : Bytes) (i : ℕ) → 0 < length s → take (suc i) s ≢ []
take-suc-ne-nil [] i h = elim h [ ]
take-suc-ne-nil (c ∷ s) i h = ground arith

ne-nil_of_pos : (s : Bytes) → 0 < length s → s ≢ []
ne-nil_of_pos [] h = elim h [ ]
ne-nil_of_pos (c ∷ s) h = ground arith

lines-none_pos : (s : Bytes) → 0 < length s → find_byte s newline ≡ none → lines s ≡ s ∷ []
lines-none_pos [] h e = elim h [ ]
lines-none_pos (c ∷ s) h e = lines-none c s e

drop-nil_of_le : (n : ℕ) (s : Bytes) → length s ≤ n → drop n s ≡ []
drop-nil_of_le zero [] h = refl
drop-nil_of_le zero (c ∷ s) h = elim h [ ]
drop-nil_of_le (suc n) [] h = refl
drop-nil_of_le (suc n) (c ∷ s) h = drop-nil_of_le n s (omega arith)

read_up_to-ReadsLine :
    (d : StringRef) (p : ℕ)
    → p < length d.text
    → ReadsLine d
        (some p)
        (read_up_to d p (Option.map suc (find_byte (drop p d.text) newline))).0
        (read_up_to d p (Option.map suc (find_byte (drop p d.text) newline))).1
read_up_to-ReadsLine d p h = elim (Option-cases (find_byte (drop p d.text) newline)) [
  | inl e ↦ rw e (record {
    splits = lines-none_pos (drop p d.text) (omega (arith, length-drop p d.text)) e;
    joins = append-nil (drop p d.text);
    ne_nil = ne-nil_of_pos (drop p d.text) (omega (arith, length-drop p d.text));
    at_is = omega (arith, length-drop p d.text);
  })
  | inr (i, e) ↦ rw e (record {
    splits = rw (drop-add p (suc i) d.text) (lines-some (drop p d.text) i e);
    joins = rw (drop-add p (suc i) d.text) (take-append-drop (suc i) (drop p d.text));
    ne_nil = take-suc-ne-nil (drop p d.text) i (omega (arith, length-drop p d.text));
    at_is = omega (arith, length-drop p d.text);
  })
]

-- At the end of the string `readline` gives an empty line, and otherwise the next line.
pub readline_cases :
    (d : StringRef) (p : Option ℕ)
    → ((remaining d p ≡ []) × ((readline d p).0.text ≡ []) × (remaining d (readline d p).1 ≡ []))
      ⊎ ReadsLine d p (readline d p).0 (readline d p).1
unfolding readline
readline_cases d none = inl (refl, refl, refl)
readline_cases d (some p) = elim (Bool-cases (leb (length d.text) p)) [
  | inl e ↦ inl (
    drop-nil_of_le p d.text (ground arith),
    ground arith,
    rw e (drop-nil_of_le p d.text (ground arith)),
  )
  | inr e ↦ inr (rw e (read_up_to-ReadsLine d p (ground arith)))
]
