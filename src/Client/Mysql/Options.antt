-- ===== src/Client/Mysql/Options.antt =====
-- MySQLDBClientPlugin of percona_playback/mysql_client/mysql_client.cc: its options
-- and `processOptions`. A regular expression is its text, where the constructor of boost::regex takes
-- it; where not, the constructor throws.
use query_playback.Prelude.{
  List, [], ◌∷◌, true, false, ℕ, Bool, true, not, ◌&&◌, ◌||◌, Option, none, some, if◌then◌else◌,
}
use query_playback.Prelude.Int.{is_zero, ℤ, pos, negsuc}
use query_playback.Text.{Bytes, codes, is_empty}
use query_playback.CommandLine.{VariablesMap, OptionType, OptionDescription, is_given}
use query_playback.Client.Mysql.Threads.{Library, test_connect}
use query_playback.Client.Mysql.{MysqlOptions}

abbrev pub get_program_options : List OptionDescription
get_program_options =
    record { name = codes "mysql-host"; type = OptionType.text; has_default = false }
    ∷ record { name = codes "mysql-username"; type = OptionType.text; has_default = false }
    ∷ record { name = codes "mysql-password"; type = OptionType.text; has_default = false }
    ∷ record { name = codes "mysql-schema"; type = OptionType.text; has_default = false }
    ∷ record { name = codes "mysql-socket"; type = OptionType.text; has_default = false }
    ∷ record { name = codes "mysql-port"; type = OptionType.number; has_default = false }
    ∷ record { name = codes "mysql-max-retries"; type = OptionType.number; has_default = false }
    ∷ record { name = codes "mysql-filter-error"; type = OptionType.text; has_default = false }
    ∷ record { name = codes "mysql-test-connect"; type = OptionType.flag; has_default = false }
    ∷ []

abbrev pub has_connection_option : VariablesMap → Bool
has_connection_option vm =
    is_given vm (codes "mysql-host")
    || is_given vm (codes "mysql-username")
    || is_given vm (codes "mysql-password")
    || is_given vm (codes "mysql-schema")
    || is_given vm (codes "mysql-socket")
    || is_given vm (codes "mysql-port")

abbrev pub text_or : VariablesMap → Bytes → Bytes → Bytes
text_or vm name old = if is_given vm name then vm.text name else old

abbrev pub number_or : VariablesMap → Bytes → ℕ → ℕ
number_or vm name old = if is_given vm name then vm.number name else old

abbrev pub has_filter : VariablesMap → Bool
has_filter vm =
    is_given vm (codes "mysql-filter-error")
    && not (is_empty (vm.text (codes "mysql-filter-error")))

-- The options that are set, one after another.
unfoldable pub set_options : VariablesMap → MysqlOptions → MysqlOptions
set_options vm o = record o {
  host = text_or vm (codes "mysql-host") o.host;
  user = text_or vm (codes "mysql-username") o.user;
  password = text_or vm (codes "mysql-password") o.password;
  schema = text_or vm (codes "mysql-schema") o.schema;
  socket = text_or vm (codes "mysql-socket") o.socket;
  port = number_or vm (codes "mysql-port") o.port;
  max_retries = number_or vm (codes "mysql-max-retries") o.max_retries;
  filter_error_regex =
      if has_filter vm then some (vm.text (codes "mysql-filter-error")) else o.filter_error_regex;
}

abbrev pub wants_test : VariablesMap → Bool
wants_test vm =
    if is_given vm (codes "mysql-test-connect") then vm.flag (codes "mysql-test-connect") else true

-- What a call does: it returns, it ends the program by `exit(EXIT_FAILURE)`, or an exception leaves
-- it.
pub data Ending : Type 0 where
  returns : ℤ → Ending
  exits : Ending
  throws : Ending

module _ {W : Type 0} (lib : Library W) (g_session_init_query : Bytes) (depth : ℕ) where
  abbrev pub exit_unless : MysqlOptions → Option (Bool × W) → Option (Ending × MysqlOptions × W)
  exit_unless o none = none
  exit_unless o (some (ok, w)) = some (if ok then returns (pos 0) else exits, o, w)

  -- The part for the active plugin, behind mysql_library_init.
  abbrev pub with_library : VariablesMap → MysqlOptions → ℤ × W → Option (Ending × MysqlOptions × W)
  with_library vm o (code, w) =
      let o' = set_options vm o in
      let tested = exit_unless o' (test_connect lib g_session_init_query o' depth w) in
      if not (is_zero code)
      then some (returns (negsuc 0), o, w)
      else if has_filter vm && not (lib.regex_is_valid (vm.text (codes "mysql-filter-error")))
      then some (throws, record o' { filter_error_regex = o.filter_error_regex }, w)
      else if wants_test vm
      then tested
      else some (returns (pos 0), o', w)

  -- `none` is where the test does not end.
  unfoldable pub process_options :
      Bool → VariablesMap → MysqlOptions → W → Option (Ending × MysqlOptions × W)
  process_options active vm o w =
      let rest = with_library vm o (lib.library_init w) in
      if not active && has_connection_option vm
      then some (returns (negsuc 0), o, w)
      else if not active
      then some (returns (pos 0), o, w)
      else if not lib.thread_safe
      then some (returns (negsuc 0), o, w)
      else rest
