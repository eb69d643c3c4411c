-- ===== src/CommandLine.antt =====
-- What the code asks of a parsed command line (boost::program_options::variables_map), by the names
-- of the options. An option that is declared with a default value is stored whether it is given or
-- not, and then `defaulted` says which.
pub mod Declared
use query_playback.Prelude.{ℕ, ◌≡◌, Bool, true, false, not, ◌&&◌, ◌||◌, List, [], ◌∷◌, ◌==◌}
use query_playback.Text.{Bytes, same_bytes}

-- The types of values that the options are declared with; `switch` is an option without a value.
pub data OptionType : Type 0 where
  switch : OptionType
  text : OptionType
  texts : OptionType
  flag : OptionType
  number : OptionType

-- An entry of a boost::program_options::options_description.
pub record OptionDescription : Type 0 where
  pub name : Bytes
  pub type : OptionType
  pub has_default : Bool

pub record VariablesMap : Type 0 where
  pub count : Bytes → ℕ
  pub defaulted : Bytes → Bool
  pub text : Bytes → Bytes
  pub texts : Bytes → List Bytes
  pub flag : Bytes → Bool
  pub number : Bytes → ℕ

-- `vm.count(name)` as a condition.
abbrev pub is_given : VariablesMap → Bytes → Bool
is_given vm name = not (vm.count name == 0)

abbrev pub is_declared : List OptionDescription → Bytes → Bool
is_declared [] name = false
is_declared (o ∷ os) name = same_bytes o.name name || is_declared os name

abbrev pub is_defaulted : List OptionDescription → Bytes → Bool
is_defaulted [] name = false
is_defaulted (o ∷ os) name = (same_bytes o.name name && o.has_default) || is_defaulted os name

-- What `store` and `notify` leave where they succeed: an option that is not declared makes the
-- parser throw, and one with a default value is always stored.
pub record IsStored (options : List OptionDescription) (vm : VariablesMap) : Type 0 where
  pub only_declared : (name : Bytes) → is_given vm name ≡ true → is_declared options name ≡ true
  pub defaults : (name : Bytes) → is_defaulted options name ≡ true → is_given vm name ≡ true
