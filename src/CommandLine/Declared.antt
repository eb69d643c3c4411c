-- ===== src/CommandLine/Declared.antt =====
-- The options of several descriptions together.
use query_playback.Prelude.{◌≡◌, refl, true, ◌||◌, List, [], ◌∷◌, ◌++◌, arith}
use query_playback.Text.{Bytes}
use query_playback.CommandLine.{OptionDescription, is_declared, is_defaulted}

pub is_declared-append :
    (xs ys : List OptionDescription) (name : Bytes)
    → is_declared (xs ++ ys) name ≡ (is_declared xs name || is_declared ys name)
is_declared-append [] ys name = refl
is_declared-append (x ∷ xs) ys name = ground (arith, is_declared-append xs ys name)

pub is_defaulted-append :
    (xs ys : List OptionDescription) (name : Bytes)
    → is_defaulted (xs ++ ys) name ≡ (is_defaulted xs name || is_defaulted ys name)
is_defaulted-append [] ys name = refl
is_defaulted-append (x ∷ xs) ys name = ground (arith, is_defaulted-append xs ys name)

pub is_declared_of_is_defaulted :
    (xs : List OptionDescription) (name : Bytes)
    → is_defaulted xs name ≡ true
    → is_declared xs name ≡ true
is_declared_of_is_defaulted [] name h = h
is_declared_of_is_defaulted (x ∷ xs) name h = ground (arith, is_declared_of_is_defaulted xs name)
