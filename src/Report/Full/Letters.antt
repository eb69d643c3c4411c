-- ===== src/Report/Full/Letters.antt =====
-- A word in a text in any case of the letters, which the full report looks for in the text in upper
-- case.
use query_playback.Prelude.{
  ℕ, ◌+◌, ◌≡◌, refl, ap₂, ◌∙◌, Bool, true, false, not, ◌&&◌, ◌||◌, [], ◌∷◌, ◌==◌, Option, none,
  some, leb, suc, if◌then◌else◌, arith,
}
use mathlib.Core.Option
use query_playback.Text.{Bytes, find, found_at, starts_with}
use query_playback.Report.Full.{to_upper_byte, to_upper, contains}

-- The byte is this one, or the small letter of this capital.
abbrev pub same_letter : ℕ → ℕ → Bool
same_letter c w = c == w || (leb 65 w && leb w 90 && c == w + 32)

unfoldable pub starts_with_word : Bytes → Bytes → Bool
starts_with_word s [] = true
starts_with_word [] (w ∷ ws) = false
starts_with_word (c ∷ s) (w ∷ ws) = same_letter c w && starts_with_word s ws

-- The word stands in the text, with capitals or small letters.
unfoldable pub holds_word : Bytes → Bytes → Bool
unfolding starts_with_word
holds_word [] word = false
holds_word (c ∷ s) word = if starts_with_word (c ∷ s) word then true else holds_word s word

abbrev pub has_no_small : Bytes → Bool
has_no_small [] = true
has_no_small (w ∷ ws) = not (leb 97 w && leb w 122) && has_no_small ws

to_upper_byte-same_letter :
    (c w : ℕ) → not (leb 97 w && leb w 122) ≡ true → (to_upper_byte c == w) ≡ same_letter c w
to_upper_byte-same_letter c w h = ground arith

both-true : (a b : Bool) → a && b ≡ true → (a ≡ true) × (b ≡ true)
both-true true true h = (refl, refl)
both-true true false h = absurd cc
both-true false b h = absurd cc

starts_with-to_upper :
    (s word : Bytes)
    → has_no_small word ≡ true
    → starts_with (to_upper s) word ≡ starts_with_word s word
unfolding starts_with starts_with_word
starts_with-to_upper [] [] h = refl
starts_with-to_upper (c ∷ s) [] h = refl
starts_with-to_upper [] (w ∷ ws) h = refl
starts_with-to_upper (c ∷ s) (w ∷ ws) h =
    let (capital, rest) = both-true (not (leb 97 w && leb w 122)) (has_no_small ws) h in
    ap₂ (λ (x y : Bool). x && y) (to_upper_byte-same_letter c w capital)
      (starts_with-to_upper s ws rest)

found_at-map : (r : Option ℕ) → found_at (Option.map suc r) ≡ found_at r
found_at-map none = refl
found_at-map (some k) = refl

found_at-if :
    (b : Bool) (r : Option ℕ)
    → found_at (if b then some 0 else Option.map suc r) ≡ (if b then true else found_at r)
found_at-if true r = refl
found_at-if false r = found_at-map r

pub contains-to_upper :
    (s word : Bytes) → has_no_small word ≡ true → contains word (to_upper s) ≡ holds_word s word
unfolding contains find holds_word
contains-to_upper [] word h = refl
contains-to_upper (c ∷ s) word h =
    let rest : found_at (find (to_upper s) word) ≡ holds_word s word = contains-to_upper s word h in
    found_at-if (starts_with (to_upper (c ∷ s)) word) (find (to_upper s) word)
    ∙ rw (starts_with-to_upper (c ∷ s) word h, rest) refl
