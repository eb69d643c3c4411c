-- ===== src/Prelude/Occurrences.antt =====
-- Lists of numbers in which every number stands equally often are of the same length.
use Prim.Native.Nat.{ℕ, suc, ◌+◌, ◌≤◌}
use mathlib.Core.Path.{◌≡◌, refl, sym, ap, ◌∙◌}
use mathlib.Core.Logic.{inl, inr}
use mathlib.Core.Bool.{false, Bool, true}
use mathlib.Core.List.{List, [], ◌∷◌, map}
use native.Mathlib.Omega.{arith}
use query_playback.Prelude.Tests.{◌==◌, if◌then◌else◌, Bool-cases}
use query_playback.Prelude.Lists.{length, select}

abbrev pub count {ℓ} : {A : Type ℓ} → (A → Bool) → List A → ℕ
count p xs = length (select p xs)

pub count-le {ℓ} : {A : Type ℓ} (p : A → Bool) (xs : List A) → count p xs ≤ length xs
count-le p [] = omega arith
count-le p (x ∷ xs) = ground (arith, count-le p xs)

-- What a test adds to a count.
abbrev pub bit : Bool → ℕ
bit b = if b then 1 else 0

pub count-cons {ℓ} :
    {A : Type ℓ} (p : A → Bool) (x : A) (xs : List A) → count p (x ∷ xs) ≡ bit (p x) + count p xs
count-cons p x xs = ground arith

pub count-all {ℓ} : {A : Type ℓ} (xs : List A) → count (λ x. true) xs ≡ length xs
count-all [] = refl
count-all (x ∷ xs) = ap suc (count-all xs)

pub select_comm {ℓ} :
    {A : Type ℓ} (p q : A → Bool) (xs : List A) → select p (select q xs) ≡ select q (select p xs)
select_comm p q [] = refl
select_comm p q (x ∷ xs) = elim (Bool-cases (p x)) [
  | inl a ↦ elim (Bool-cases (q x)) [
    | inl b ↦ rw (a, b, a) (ap (λ ys. x ∷ ys) (select_comm p q xs))
    | inr b ↦ rw (a, b) (select_comm p q xs)
  ]
  | inr a ↦ elim (Bool-cases (q x)) [
    | inl b ↦ rw (a, b, a) (select_comm p q xs)
    | inr b ↦ rw (a, b) (select_comm p q xs)
  ]
]

-- A test that lets all through that another one does, or nothing of it.
pub select_narrower {ℓ} :
    {A : Type ℓ} (p q : A → Bool) (xs : List A)
    → ((x : A) → p x ≡ true → q x ≡ true)
    → select p (select q xs) ≡ select p xs
select_narrower p q [] h = refl
select_narrower p q (x ∷ xs) h = elim (Bool-cases (p x)) [
  | inl a ↦ rw (h x a, a) (ap (◌∷◌ x) (select_narrower p q xs h))
  | inr a ↦ elim (Bool-cases (q x)) [
    | inl b ↦ rw (b, a) (select_narrower p q xs h)
    | inr b ↦ rw (b, a) (select_narrower p q xs h)
  ]
]

pub select_apart {ℓ} :
    {A : Type ℓ} (p q : A → Bool) (xs : List A)
    → ((x : A) → p x ≡ true → q x ≡ false)
    → select p (select q xs) ≡ []
select_apart p q [] h = refl
select_apart p q (x ∷ xs) h = elim (Bool-cases (p x)) [
  | inl a ↦ rw (h x a) (select_apart p q xs h)
  | inr a ↦ elim (Bool-cases (q x)) [
    | inl b ↦ rw (b, a) (select_apart p q xs h)
    | inr b ↦ rw b (select_apart p q xs h)
  ]
]

pub length-map {ℓ κ} :
    {A : Type ℓ} {B : Type κ} (f : A → B) (xs : List A) → length (map f xs) ≡ length xs
length-map f [] = refl
length-map f (x ∷ xs) = ap suc (length-map f xs)

pub count-map {ℓ κ} :
    {A : Type ℓ} {B : Type κ} (f : A → B) (p : B → Bool) (xs : List A)
    → count p (map f xs) ≡ count (λ x. p (f x)) xs
count-map f p [] = refl
count-map f p (x ∷ xs) = ground (arith, count-map f p xs)

-- The list without the first place of a number.
abbrev pub remove : ℕ → List ℕ → List ℕ
remove k [] = []
remove k (l ∷ ls) = let rest = remove k ls in if l == k then ls else l ∷ rest

pub length-remove :
    (k : ℕ) (ls : List ℕ) → 1 ≤ count (λ l. l == k) ls → length ls ≡ suc (length (remove k ls))
length-remove k [] h = absurd (omega (arith, h))
length-remove k (l ∷ ls) h = elim (Bool-cases (l == k)) [
  | inl e ↦ rw e refl
  | inr e ↦ rw e (ap suc (length-remove k ls (ground (arith, h))))
]

pub count-remove :
    (k id : ℕ) (ls : List ℕ)
    → 1 ≤ count (λ l. l == k) ls
    → count (λ l. l == id) ls ≡ (if k == id then 1 else 0) + count (λ l. l == id) (remove k ls)
count-remove k id [] h = absurd (omega (arith, h))
count-remove k id (l ∷ ls) h = elim (Bool-cases (l == k)) [
  | inl e ↦ ground arith
  | inr e ↦ let rest = count-remove k id ls (ground (arith, h)) in ground (arith, rest)
]

pub same_counts-length :
    (ks ls : List ℕ)
    → ((id : ℕ) → count (λ k. k == id) ks ≡ count (λ l. l == id) ls)
    → length ks ≡ length ls
same_counts-length [] [] h = refl
same_counts-length [] (l ∷ ls) h = absurd (ground (arith, h l))
same_counts-length (k ∷ ks) ls h =
    let some_k : 1 ≤ count (λ l. l == k) ls = ground (arith, h k) in
    ap suc (
      same_counts-length ks (remove k ls) (λ id. ground (arith, h id, count-remove k id ls some_k)))
    ∙ sym (length-remove k ls some_k)
