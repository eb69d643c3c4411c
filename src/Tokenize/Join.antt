-- ===== src/Tokenize/Join.antt =====
-- A list of tokens that is joined with a delimiter is the list that `tokenize` gives back.
use query_playback.Prelude.{
  ℕ, ◌≡◌, refl, ap, ◌∙◌, Bool, true, false, List, [], ◌∷◌, ◌++◌, some, All,
}
use query_playback.Text.{Bytes, is_one_of}
use query_playback.Tokenize.{tokenize}
use query_playback.Tokenize.Pieces.{pieces, kept, tokenize_lem}

-- The tokens with the byte `b` between each two of them.
unfoldable pub join : ℕ → List Bytes → Bytes
join b [] = []
join b (t ∷ []) = t
join b (t ∷ u ∷ ts) = t ++ b ∷ join b (u ∷ ts)

abbrev pub HasNone : Bytes → Bytes → Type 0
HasNone delimiters t = All (λ c. is_one_of delimiters c ≡ false) t

module _ (delimiters : Bytes) where
  pieces-last : (t : Bytes) → HasNone delimiters t → pieces delimiters t ≡ t ∷ []
  unfolding pieces
  pieces-last [] all = refl
  pieces-last (c ∷ t) (first, rest) = let more = pieces-last t rest in rw (first, more)

  pieces-append :
      (t : Bytes) (b : ℕ) (s : Bytes)
      → HasNone delimiters t
      → is_one_of delimiters b ≡ true
      → pieces delimiters (t ++ b ∷ s) ≡ t ∷ pieces delimiters s
  unfolding pieces
  pieces-append [] b s all h = rw h
  pieces-append (c ∷ t) b s (first, rest) h =
      let more = pieces-append t b s rest h in rw (first, more)

  pieces-join :
      (b : ℕ) (t : Bytes) (ts : List Bytes)
      → is_one_of delimiters b ≡ true
      → All (HasNone delimiters) (t ∷ ts)
      → pieces delimiters (join b (t ∷ ts)) ≡ t ∷ ts
  unfolding join
  pieces-join b t [] h (first, rest) = pieces-last t first
  pieces-join b t (u ∷ ts) h (first, rest) =
      let more = pieces-join b u ts h rest in
      pieces-append t b (join b (u ∷ ts)) first h ∙ ap (◌∷◌ t) more

-- A nonempty list of tokens with no delimiter in them, joined with one of the delimiters, is given
-- back by `tokenize`: all of it, or all but the empty tokens where those are to be left out.
pub tokenize-join :
    (delimiters : Bytes) (b : ℕ) (t : Bytes) (ts : List Bytes) (trim_empty : Bool)
    → is_one_of delimiters b ≡ true
    → All (HasNone delimiters) (t ∷ ts)
    → tokenize (join b (t ∷ ts)) [] delimiters trim_empty ≡ some (kept trim_empty (t ∷ ts))
tokenize-join delimiters b t ts trim_empty h all =
    tokenize_lem (join b (t ∷ ts)) [] delimiters trim_empty
    ∙ ap (λ (ps : List Bytes). some (kept trim_empty ps)) (pieces-join delimiters b t ts h all)
