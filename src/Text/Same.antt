-- ===== src/Text/Same.antt =====
-- `same_bytes` decides the equality of byte strings.
use query_playback.Prelude.{ℕ, ◌≡◌, refl, ap₂, true, [], ◌∷◌, arith}
use query_playback.Text.{Bytes, same_bytes}

pub eq_of_same_bytes : (a b : Bytes) → same_bytes a b ≡ true → a ≡ b
eq_of_same_bytes [] [] h = refl
eq_of_same_bytes [] (y ∷ ys) h = absurd (ground arith)
eq_of_same_bytes (x ∷ xs) [] h = absurd (ground arith)
eq_of_same_bytes (x ∷ xs) (y ∷ ys) h =
    ap₂ (λ (c : ℕ) (cs : Bytes). c ∷ cs) (ground arith) (eq_of_same_bytes xs ys (ground arith))

pub same_bytes_refl : (a : Bytes) → same_bytes a a ≡ true
same_bytes_refl [] = refl
same_bytes_refl (x ∷ xs) = ground (arith, same_bytes_refl xs)
