-- ===== src/Tokenize/Pieces.antt =====
-- What `tokenize` makes of a string.
use mathlib.Core.Option
use query_playback.Prelude.{
  ℕ, zero, suc, ◌+◌, ◌<◌, ◌≡◌, refl, ap, sym, ◌∙◌, Bool, true, false, not, List, [], ◌∷◌, ◌++◌,
  append-nil, append_assoc, Option, none, some, length, length-drop, take, drop, select,
  if◌then◌else◌, arith, Bool-cases, inl, inr,
}
use query_playback.Text.{Bytes, is_empty, is_one_of}
use query_playback.Tokenize.{find_first_of, push_token, tokenize_at, tokenize_from, tokenize}

abbrev pub prepend : ℕ → List Bytes → List Bytes
prepend c [] = (c ∷ []) ∷ []
prepend c (piece ∷ pieces) = (c ∷ piece) ∷ pieces

-- The string cut at each of the delimiters.
unfoldable pub pieces : Bytes → Bytes → List Bytes
unfolding is_one_of
pieces delimiters [] = [] ∷ []
pieces delimiters (c ∷ s) =
    if is_one_of delimiters c then [] ∷ pieces delimiters s else prepend c (pieces delimiters s)

abbrev pub kept : Bool → List Bytes → List Bytes
kept trim_empty ts = if trim_empty then select (λ t. not (is_empty t)) ts else ts

module _ (delimiters : Bytes) where
  abbrev pieces_at : Option ℕ → Bytes → List Bytes
  pieces_at none s = s ∷ []
  pieces_at (some pos) s = take pos s ∷ pieces delimiters (drop (suc pos) s)

  prepend-pieces_at :
      (c : ℕ) (s : Bytes) (pos : Option ℕ)
      → prepend c (pieces_at pos s) ≡ pieces_at (Option.map suc pos) (c ∷ s)
  prepend-pieces_at c s none = refl
  prepend-pieces_at c s (some pos) = refl

  pieces_lem : (s : Bytes) → pieces delimiters s ≡ pieces_at (find_first_of delimiters s) s
  unfolding pieces find_first_of
  pieces_lem [] = refl
  pieces_lem (c ∷ s) =
      let rest = pieces_lem s in
      elim (Bool-cases (is_one_of delimiters c)) [
        | inl e ↦ rw e
        | inr e ↦ rw (e, rest) (prepend-pieces_at c s (find_first_of delimiters s))
      ]

  kept-push_token :
      (trim_empty : Bool) (t : Bytes) (ts tokens : List Bytes)
      → push_token trim_empty t tokens ++ kept trim_empty ts ≡ tokens ++ kept trim_empty (t ∷ ts)
  kept-push_token false [] ts tokens = append_assoc tokens ([] ∷ []) ts
  kept-push_token false (c ∷ t) ts tokens = append_assoc tokens ((c ∷ t) ∷ []) _
  kept-push_token true [] ts tokens = refl
  kept-push_token true (c ∷ t) ts tokens = append_assoc tokens ((c ∷ t) ∷ []) _

  push_token_lem :
      (trim_empty : Bool) (t : Bytes) (tokens : List Bytes)
      → push_token trim_empty t tokens ≡ tokens ++ kept trim_empty (t ∷ [])
  push_token_lem false [] tokens = refl
  push_token_lem false (c ∷ t) tokens = refl
  push_token_lem true [] tokens = sym (append-nil tokens)
  push_token_lem true (c ∷ t) tokens = refl

  tokenize_at_lem :
      (trim_empty : Bool) (fuel : ℕ) (pos : Option ℕ) (c : ℕ) (s : Bytes) (tokens : List Bytes)
      → ((t : Bytes) (ts : List Bytes)
          → length t < fuel
          → tokenize_from delimiters trim_empty fuel t ts
            ≡ some (ts ++ kept trim_empty (pieces delimiters t)))
      → length s < fuel
      → tokenize_at
          (λ t ts. tokenize_from delimiters trim_empty fuel t ts)
          trim_empty
          pos
          (c ∷ s)
          tokens
        ≡ some (tokens ++ kept trim_empty (pieces_at pos (c ∷ s)))
  tokenize_at_lem trim_empty fuel none c s tokens works h =
      ap some (push_token_lem trim_empty (c ∷ s) tokens)
  tokenize_at_lem trim_empty fuel (some pos) c s tokens works h =
      works (drop pos s) _ (omega (arith, length-drop pos s))
      ∙ ap some
          (kept-push_token trim_empty (take pos (c ∷ s)) (pieces delimiters (drop pos s)) tokens)

  tokenize_from_lem :
      (trim_empty : Bool) (fuel : ℕ) (s : Bytes) (tokens : List Bytes)
      → length s < fuel
      → tokenize_from delimiters trim_empty fuel s tokens
        ≡ some (tokens ++ kept trim_empty (pieces delimiters s))
  unfolding tokenize_from find_first_of pieces
  tokenize_from_lem trim_empty zero s tokens h = absurd (omega arith)
  tokenize_from_lem trim_empty (suc fuel) [] tokens h =
      ap some (push_token_lem trim_empty [] tokens)
  tokenize_from_lem trim_empty (suc fuel) (c ∷ s) tokens h =
      tokenize_at_lem trim_empty fuel (find_first_of delimiters (c ∷ s)) c s tokens
        (tokenize_from_lem trim_empty fuel) (omega arith)
      ∙ ap (λ (ps : List Bytes). some (tokens ++ kept trim_empty ps)) (sym (pieces_lem (c ∷ s)))

-- The loop ends, with the pieces of the string between the delimiters behind the tokens so far, in
-- their order; the empty ones are left out exactly where that is asked for.
pub tokenize_lem :
    (str : Bytes) (tokens : List Bytes) (delimiters : Bytes) (trim_empty : Bool)
    → tokenize str tokens delimiters trim_empty
      ≡ some (tokens ++ kept trim_empty (pieces delimiters str))
unfolding tokenize
tokenize_lem str tokens delimiters trim_empty =
    tokenize_from_lem delimiters trim_empty (length str + 1) str tokens (omega arith)
