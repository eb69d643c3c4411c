-- ===== src/Text/Number.antt =====
-- The C library's strtoull in base 10, as percona_playback/query_log/query_log.cc and
-- percona_playback/general_log/general_log_entry.cc call it.
use query_playback.Prelude.{
  ℕ, ◌+◌, ◌-◌, ◌*◌, ◌%◌, ◌^◌, ◌<◌, ◌≡◌, refl, Bool, true, false, ◌&&◌, ◌||◌, [], ◌∷◌, ◌++◌, ◌==◌,
  leb, ltb, if◌then◌else◌, arith, All,
}
use query_playback.Text.{Bytes}

abbrev is_space : ℕ → Bool
is_space c = c == 32 || leb 9 c && leb c 13

abbrev is_digit : ℕ → Bool
is_digit c = leb b'0' c && leb c b'9'

skip_space : Bytes → Bytes
skip_space [] = []
skip_space (c ∷ s) = if is_space c then skip_space s else c ∷ s

-- The number that the digits at the front stand for, after `acc`.
read_digits : ℕ → Bytes → ℕ
read_digits acc [] = acc
read_digits acc (c ∷ s) =
    let rest = read_digits (acc * 10 + (c - b'0')) s in if is_digit c then rest else acc

abbrev pub ullong_mod : ℕ
ullong_mod = 2 ^ 64

-- ULLONG_MAX on overflow; a minus sign negates in the unsigned type.
to_ullong : Bool → ℕ → ℕ
to_ullong minus v =
    if leb ullong_mod v then ullong_mod - 1 else if minus then (ullong_mod - v) % ullong_mod else v

signed_digits : Bytes → ℕ
unfolding read_digits to_ullong
signed_digits [] = 0
signed_digits (c ∷ s) =
    if c == b'-'
    then to_ullong true (read_digits 0 s)
    else if c == b'+'
    then to_ullong false (read_digits 0 s)
    else to_ullong false (read_digits 0 (c ∷ s))

unfoldable pub strtoull : Bytes → ℕ
unfolding skip_space signed_digits
strtoull s = signed_digits (skip_space s)

-- The value of a sequence of decimal digits, most significant first.
abbrev pub value : ℕ → Bytes → ℕ
value acc [] = acc
value acc (d ∷ ds) = value (acc * 10 + d) ds

-- The digits as text.
abbrev pub digit_text : Bytes → Bytes
digit_text [] = []
digit_text (d ∷ ds) = (b'0' + d) ∷ digit_text ds

abbrev pub starts_with_digit : Bytes → Bool
starts_with_digit [] = false
starts_with_digit (c ∷ s) = is_digit c

read_digits-stop :
    (acc : ℕ) (rest : Bytes) → starts_with_digit rest ≡ false → read_digits acc rest ≡ acc
unfolding read_digits
read_digits-stop acc [] h = refl
read_digits-stop acc (c ∷ s) h = ground arith

read_digits-value :
    (acc : ℕ) (ds rest : Bytes)
    → All (λ d. d < 10) ds
    → starts_with_digit rest ≡ false
    → read_digits acc (digit_text ds ++ rest) ≡ value acc ds
unfolding read_digits
read_digits-value acc [] rest h e = read_digits-stop acc rest e
read_digits-value acc (d ∷ ds) rest h e =
    let same : b'0' + d - b'0' ≡ d = omega arith in
    ground (arith, read_digits-value (acc * 10 + d) ds rest h.1 e)

-- `strtoull` reads the digits up to the first other byte, and gives the greatest value of the type
-- where they stand for more.
pub strtoull-digit_text :
    (d : ℕ) (ds rest : Bytes)
    → All (λ x. x < 10) (d ∷ ds)
    → starts_with_digit rest ≡ false
    → strtoull (digit_text (d ∷ ds) ++ rest)
      ≡ (if ltb (value 0 (d ∷ ds)) ullong_mod then value 0 (d ∷ ds) else ullong_mod - 1)
unfolding strtoull
strtoull-digit_text d ds rest h e = ground (arith, read_digits-value 0 (d ∷ ds) rest h e)
