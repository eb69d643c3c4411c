-- ===== src/Text.antt =====
-- Byte strings as the program reads them: the boost::string_ref members that
-- percona_playback/query_log/query_log.cc calls, its own `find` and `trim`, and `codes`, which
-- writes a literal as bytes.
pub mod Trim
pub mod Number
pub mod Find
pub mod Before
pub mod Same
use Prim.Native.Char.{code}
use Prim.Native.String.{String}
use mathlib.Core.Option
use query_playback.Prelude.{
  ℕ, zero, suc, ◌+◌, ◌-◌, Bool, true, false, ◌&&◌, ◌||◌, List, [], ◌∷◌, Option, none, some, length,
  take, drop, ◌==◌, leb, ltb, ◌||◌, if◌then◌else◌,
}

abbrev pub Bytes : Type 0
Bytes = List ℕ

-- The bytes of an ASCII literal.
abbrev pub codes : String → Bytes
codes String.[] = []
codes (String.◌∷◌ c s) = code c ∷ codes s

abbrev pub is_empty : Bytes → Bool
is_empty [] = true
is_empty (c ∷ s) = false

-- `==` of std::string
abbrev pub same_bytes : Bytes → Bytes → Bool
same_bytes [] [] = true
same_bytes [] (b ∷ bs) = false
same_bytes (a ∷ more) [] = false
same_bytes (a ∷ more) (b ∷ bs) = a == b && same_bytes more bs

-- `<` of std::string
unfoldable pub is_before : Bytes → Bytes → Bool
is_before [] [] = false
is_before [] (b ∷ bs) = true
is_before (a ∷ more) [] = false
is_before (a ∷ more) (b ∷ bs) = ltb a b || (a == b && is_before more bs)

abbrev pub newline : ℕ
newline = b'\n'

-- `string_ref::starts_with`
unfoldable pub starts_with : Bytes → Bytes → Bool
starts_with s [] = true
starts_with [] (p ∷ ps) = false
starts_with (c ∷ s) (p ∷ ps) = c == p && starts_with s ps

-- `string_ref::ends_with`
unfoldable pub ends_with : Bytes → Bytes → Bool
unfolding starts_with
ends_with s p = leb (length p) (length s) && starts_with (drop (length s - length p) s) p

-- The file's own `find`: the first place where `substr` stands, and npos (here `none`) where
-- `std::search` gives the end.
unfoldable pub find : Bytes → Bytes → Option ℕ
unfolding starts_with
find [] substr = none
find (c ∷ s) substr = if starts_with (c ∷ s) substr then some 0 else Option.map suc (find s substr)

-- `!= npos`
abbrev pub found_at : Option ℕ → Bool
found_at none = false
found_at (some k) = true

-- `string_ref::find(char)`
unfoldable pub find_byte : Bytes → ℕ → Option ℕ
find_byte [] b = none
find_byte (c ∷ s) b = if c == b then some 0 else Option.map suc (find_byte s b)

unfoldable pub is_one_of : Bytes → ℕ → Bool
is_one_of [] c = false
is_one_of (b ∷ bs) c = c == b || is_one_of bs c

unfoldable pub find_first_not_of : Bytes → Bytes → Option ℕ
unfolding is_one_of
find_first_not_of chars [] = none
find_first_not_of chars (c ∷ s) =
    if is_one_of chars c then Option.map suc (find_first_not_of chars s) else some 0

abbrev pub last_or_here : Option ℕ → Bool → Option ℕ
last_or_here (some i) skipped = some (suc i)
last_or_here none skipped = if skipped then none else some 0

unfoldable pub find_last_not_of : Bytes → Bytes → Option ℕ
unfolding is_one_of
find_last_not_of chars [] = none
find_last_not_of chars (c ∷ s) = last_or_here (find_last_not_of chars s) (is_one_of chars c)

-- The default argument of `trim`.
abbrev pub blanks : Bytes
blanks = b' ' ∷ b'\n' ∷ b'\r' ∷ b'\t' ∷ []

-- `find_last_not_of(chars) + 1`, where npos + 1 wraps to 0.
abbrev pub end_of : Option ℕ → ℕ
end_of none = 0
end_of (some i) = suc i

abbrev pub trim_from : Option ℕ → Option ℕ → Bytes → Bytes
trim_from none last s = []
trim_from (some start) last s = take (end_of last - start) (drop start s)

-- Removes `chars` from the left and the right side.
unfoldable pub trim : Bytes → Bytes → Bytes
unfolding find_first_not_of find_last_not_of
trim chars s = trim_from (find_first_not_of chars s) (find_last_not_of chars s) s
