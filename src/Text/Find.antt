-- ===== src/Text/Find.antt =====
-- `starts_with` and `find` as statements about the bytes.
use query_playback.Prelude.{
  ℕ, suc, ◌<◌, ◌≡◌, ◌≢◌, ◌↔◌, refl, true, false, [], ◌∷◌, ◌++◌, none, some, arith, length, drop,
  Bool-cases, Option-cases, inl, inr, take, take-append-drop, subst,
}
use query_playback.Text.{Bytes, starts_with, find, found_at, is_empty}

pub is_empty-ne_nil : (s : Bytes) → s ≢ [] → is_empty s ≡ false
is_empty-ne_nil [] h = absurd (h refl)
is_empty-ne_nil (c ∷ s) h = refl

pub length-pos : (s : Bytes) → s ≢ [] → 0 < length s
length-pos [] h = absurd (h refl)
length-pos (c ∷ s) h = omega arith

-- `s` goes on with `p`.
abbrev pub Begins : Bytes → Bytes → Type 0
Begins s p = (rest : Bytes) × (s ≡ p ++ rest)

pub starts_with-append : (p rest : Bytes) → starts_with (p ++ rest) p ≡ true
unfolding starts_with
starts_with-append [] rest = refl
starts_with-append (c ∷ p) rest = ground (arith, starts_with-append p rest)

pub starts_with-Begins : (s p : Bytes) → starts_with s p ≡ true → Begins s p
unfolding starts_with
starts_with-Begins s [] h = (s, refl)
starts_with-Begins [] (c ∷ p) h = ground arith
starts_with-Begins (d ∷ s) (c ∷ p) h =
    let (rest, e) = starts_with-Begins s p (ground arith) in (rest, ground arith)

-- `find` gives a place where the substring stands.
pub find-Begins : (s p : Bytes) (k : ℕ) → find s p ≡ some k → Begins (drop k s) p
unfolding find
find-Begins [] p k h = absurd (cc)
find-Begins (c ∷ s) p k h = elim (Bool-cases (starts_with (c ∷ s) p)) [
  | inl e ↦
      let here : 0 ≡ k = ground arith in
      subst (λ (j : ℕ). Begins (drop j (c ∷ s)) p) here (starts_with-Begins (c ∷ s) p e)
  | inr e ↦ elim (Option-cases (find s p)) [
    | inl f ↦ absurd (ground arith)
    | inr (j, f) ↦
        let there : suc j ≡ k = ground arith in
        subst (λ (i : ℕ). Begins (drop i (c ∷ s)) p) there (find-Begins s p j f)
  ]
]

-- It finds the substring wherever it stands.
pub find-ne-none : (pre p post : Bytes) → p ≢ [] → find (pre ++ (p ++ post)) p ≢ none
unfolding find
find-ne-none [] [] post h = absurd (h refl)
find-ne-none [] (c ∷ p) post h = ground (arith, starts_with-append (c ∷ p) post)
find-ne-none (d ∷ pre) p post h = ground (arith, find-ne-none pre p post h)

-- So `find` tells whether the substring stands anywhere.
pub found_at-find_iff :
    (s p : Bytes)
    → p ≢ []
    → (found_at (find s p) ≡ true)
      ↔ ((before : Bytes) × (after : Bytes) × (s ≡ before ++ (p ++ after)))
found_at-find_iff s p h = (
  λ f. elim (Option-cases (find s p)) [
    | inl e ↦ absurd (ground arith)
    | inr (k, e) ↦
        let (after, split) = find-Begins s p k e in
        (take k s, after, ground (arith, take-append-drop k s))
  ],
  λ f. elim (Option-cases (find s p)) [
    | inl e ↦ absurd (find-ne-none f.0 p f.1 h (ground arith))
    | inr (k, e) ↦ ground arith
  ],
)
