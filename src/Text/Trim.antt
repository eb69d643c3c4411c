-- ===== src/Text/Trim.antt =====
-- What `trim` keeps of a string.
use query_playback.Prelude.{
  ℕ, ◌+◌, ◌-◌, ◌≡◌, refl, [], ◌∷◌, none, some, inl, inr, Bool-cases, arith, take, drop,
  Option-cases, if◌then◌else◌, suc,
}
use query_playback.Text.{Bytes, is_one_of, find_first_not_of, find_last_not_of, trim, is_empty}

-- The bytes of `chars` at the front of a string are dropped.
abbrev pub skip : Bytes → Bytes → Bytes
skip chars [] = []
skip chars (c ∷ s) = if is_one_of chars c then skip chars s else c ∷ s

-- The bytes of `chars` at the end of a string are dropped.
abbrev pub chop : Bytes → Bytes → Bytes
chop chars [] = []
chop chars (c ∷ s) =
    let rest = chop chars s in
    if is_empty rest then (if is_one_of chars c then [] else c ∷ []) else c ∷ rest

chop-none : (chars s : Bytes) → find_last_not_of chars s ≡ none → chop chars s ≡ []
unfolding find_last_not_of
chop-none chars [] h = refl
chop-none chars (c ∷ s) h = elim (Option-cases (find_last_not_of chars s)) [
  | inl e ↦ ground (arith, chop-none chars s e)
  | inr (j, e) ↦ ground arith
]

chop-some :
    (chars s : Bytes) (i : ℕ) → find_last_not_of chars s ≡ some i → chop chars s ≡ take (suc i) s
unfolding find_last_not_of
chop-some chars [] i h = cc
chop-some chars (c ∷ []) i h = ground arith
chop-some chars (c ∷ d ∷ s) i h = elim (Option-cases (find_last_not_of chars (d ∷ s))) [
  | inl e ↦ ground (arith, chop-none chars (d ∷ s) e)
  | inr (j, e) ↦ ground (arith, chop-some chars (d ∷ s) j e)
]

skip-none : (chars s : Bytes) → find_first_not_of chars s ≡ none → skip chars s ≡ []
unfolding find_first_not_of
skip-none chars [] h = refl
skip-none chars (c ∷ s) h = ground (arith, skip-none chars s)

-- Where the first byte to keep stands, the last one counted from there.
skip-some :
    (chars s : Bytes) (k : ℕ)
    → find_first_not_of chars s ≡ some k
    → (j : ℕ) × (find_last_not_of chars s ≡ some (k + j))
      × (find_last_not_of chars (skip chars s) ≡ some j)
      × (drop k s ≡ skip chars s)
unfolding find_first_not_of find_last_not_of
skip-some chars [] k h = cc
skip-some chars (c ∷ s) k h = elim (Bool-cases (is_one_of chars c)) [
  | inl blank ↦ elim (Option-cases (find_first_not_of chars s)) [
    | inl e ↦ absurd (ground arith)
    | inr (k', e) ↦
        let (j, last, kept, rest) = skip-some chars s k' e in
        (j, ground arith, ground arith, ground arith)
  ]
  | inr other ↦ elim (Option-cases (find_last_not_of chars s)) [
    | inl e ↦ (0, ground arith, ground arith, ground arith)
    | inr (i, e) ↦ (suc i, ground arith, ground arith, ground arith)
  ]
]

-- `trim` drops the bytes of `chars` at both ends, and no others.
pub trim_lem : (chars s : Bytes) → trim chars s ≡ chop chars (skip chars s)
unfolding trim
trim_lem chars s = elim (Option-cases (find_first_not_of chars s)) [
  | inl e ↦ rw (e, skip-none chars s e)
  | inr (k, e) ↦
      let (j, last, kept, rest) = skip-some chars s k e in
      rw (chop-some chars (skip chars s) j kept, e, last, rest)
        (let d : suc (k + j) - k ≡ suc j = omega arith in rw d)
]
