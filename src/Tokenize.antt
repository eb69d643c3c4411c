-- ===== src/Tokenize.antt =====
-- `tokenize` of percona_playback/tokenize.h. `none` is where the loop runs out of fuel.
pub mod Pieces
pub mod Join
use mathlib.Core.Option
use query_playback.Prelude.{
  ℕ, zero, suc, ◌+◌, Bool, true, false, ◌&&◌, List, [], ◌∷◌, ◌++◌, Option, none, some, length, take,
  drop, if◌then◌else◌,
}
use query_playback.Text.{Bytes, is_empty, is_one_of}

-- `string::find_first_of`, with npos as `none`.
unfoldable pub find_first_of : Bytes → Bytes → Option ℕ
unfolding is_one_of
find_first_of delimiters [] = none
find_first_of delimiters (c ∷ s) =
    if is_one_of delimiters c then some 0 else Option.map suc (find_first_of delimiters s)

abbrev pub push_token : Bool → Bytes → List Bytes → List Bytes
push_token trim_empty token tokens =
    if is_empty token && trim_empty then tokens else tokens ++ token ∷ []

-- A round of the loop, where `s` is the string from `lastPos` on.
abbrev pub tokenize_at :
    (Bytes → List Bytes → Option (List Bytes))
    → Bool
    → Option ℕ
    → Bytes
    → List Bytes
    → Option (List Bytes)
tokenize_at next trim_empty none s tokens = some (push_token trim_empty s tokens)
tokenize_at next trim_empty (some pos) s tokens =
    next (drop (suc pos) s) (push_token trim_empty (take pos s) tokens)

unfoldable pub tokenize_from : Bytes → Bool → ℕ → Bytes → List Bytes → Option (List Bytes)
unfolding find_first_of
tokenize_from delimiters trim_empty zero s tokens = none
tokenize_from delimiters trim_empty (suc fuel) s tokens =
    tokenize_at (λ t ts. tokenize_from delimiters trim_empty fuel t ts) trim_empty
      (find_first_of delimiters s) s tokens

unfoldable pub tokenize : Bytes → List Bytes → Bytes → Bool → Option (List Bytes)
unfolding tokenize_from
tokenize str tokens delimiters trim_empty =
    tokenize_from delimiters trim_empty (length str + 1) str tokens
