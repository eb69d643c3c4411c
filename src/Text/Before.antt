-- ===== src/Text/Before.antt =====
-- `is_before` is a strict total order.
use query_playback.Prelude.{ℕ, ◌≡◌, refl, ap₂, true, false, [], ◌∷◌, arith}
use query_playback.Text.{Bytes, is_before}

pub is_before_irrefl : (a : Bytes) → is_before a a ≡ false
unfolding is_before
is_before_irrefl [] = refl
is_before_irrefl (x ∷ xs) = ground (arith, is_before_irrefl xs)

pub is_before_trans :
    (a b c : Bytes) → is_before a b ≡ true → is_before b c ≡ true → is_before a c ≡ true
unfolding is_before
is_before_trans [] [] c h k = absurd (ground (arith, h))
is_before_trans [] (y ∷ ys) [] h k = absurd (ground (arith, k))
is_before_trans [] (y ∷ ys) (z ∷ zs) h k = refl
is_before_trans (x ∷ xs) [] c h k = absurd (ground arith)
is_before_trans (x ∷ xs) (y ∷ ys) [] h k = absurd (ground arith)
is_before_trans (x ∷ xs) (y ∷ ys) (z ∷ zs) h k = ground (arith, is_before_trans xs ys zs)

pub is_before_total : (a b : Bytes) → is_before a b ≡ false → is_before b a ≡ false → a ≡ b
unfolding is_before
is_before_total [] [] h k = refl
is_before_total [] (y ∷ ys) h k = absurd (ground arith)
is_before_total (x ∷ xs) [] h k = absurd (ground arith)
is_before_total (x ∷ xs) (y ∷ ys) h k =
    ap₂ (λ (c : ℕ) (cs : Bytes). c ∷ cs) (ground arith)
      (is_before_total xs ys (ground arith) (ground arith))
