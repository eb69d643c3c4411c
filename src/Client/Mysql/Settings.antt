-- ===== src/Client/Mysql/Settings.antt =====
-- What `processOptions` of the MySQL client does, and what its test connection shows.
use query_playback.Prelude.{
  ℕ, ◌≡◌, ap, ◌∙◌, refl, Bool, true, false, not, ◌&&◌, Option, some, if◌then◌else◌, Bool-cases, inl,
  inr, ◌||◌, subst, List, [], ◌∷◌, arith,
}
use query_playback.Prelude.Int.{is_zero, ℤ, pos, negsuc}
use query_playback.Text.{Bytes, codes, is_empty}
use query_playback.CommandLine.{VariablesMap, is_given}
use query_playback.Thread
use query_playback.Client.Mysql.{MysqlOptions, disconnect}
use query_playback.Client.Mysql.Threads.{Library, run, test_connect}
use query_playback.Client.Mysql.Options.{
  has_connection_option, set_options, wants_test, with_library, Ending, returns, throws,
  process_options,
}

abbrev pub any_given : VariablesMap → List Bytes → Bool
any_given vm [] = false
any_given vm (name ∷ names) = if is_given vm name then true else any_given vm names

abbrev pub connection_options : List Bytes
connection_options =
    codes "mysql-host"
    ∷ codes "mysql-username"
    ∷ codes "mysql-password"
    ∷ codes "mysql-schema"
    ∷ codes "mysql-socket"
    ∷ codes "mysql-port"
    ∷ []

any_of_six :
    (a b c d e f : Bool)
    → (a || b || c || d || e || f) ≡ (
        if a
        then true
        else if b
        then true
        else if c
        then true
        else if d
        then true
        else if e
        then true
        else if f
        then true
        else false)
any_of_six a b c d e f = ground arith

has_connection_option-any_given :
    (vm : VariablesMap) → has_connection_option vm ≡ any_given vm connection_options
has_connection_option-any_given vm =
    any_of_six (is_given vm (codes "mysql-host")) (is_given vm (codes "mysql-username"))
      (is_given vm (codes "mysql-password")) (is_given vm (codes "mysql-schema"))
      (is_given vm (codes "mysql-socket")) (is_given vm (codes "mysql-port"))

-- The text of an option where it is given and the options are read, and else the one before.
abbrev pub taken_text : Bool → VariablesMap → Bytes → Bytes → Bytes
taken_text reads vm name old = if reads && is_given vm name then vm.text name else old

abbrev pub taken_number : Bool → VariablesMap → Bytes → ℕ → ℕ
taken_number reads vm name old = if reads && is_given vm name then vm.number name else old

-- The options after a call, each against the option of the command line that sets it.
pub record TakesOptions (reads bad_filter : Bool) (vm : VariablesMap) (o o' : MysqlOptions)
    : Type 0 where
  pub host_is : o'.host ≡ taken_text reads vm (codes "mysql-host") o.host
  pub user_is : o'.user ≡ taken_text reads vm (codes "mysql-username") o.user
  pub password_is : o'.password ≡ taken_text reads vm (codes "mysql-password") o.password
  pub schema_is : o'.schema ≡ taken_text reads vm (codes "mysql-schema") o.schema
  pub socket_is : o'.socket ≡ taken_text reads vm (codes "mysql-socket") o.socket
  pub port_is : o'.port ≡ taken_number reads vm (codes "mysql-port") o.port
  pub max_retries_is :
      o'.max_retries ≡ taken_number reads vm (codes "mysql-max-retries") o.max_retries
  pub filter_is : o'.filter_error_regex ≡ (
      if reads
        && not bad_filter
        && is_given vm (codes "mysql-filter-error")
        && not (is_empty (vm.text (codes "mysql-filter-error")))
      then some (vm.text (codes "mysql-filter-error"))
      else o.filter_error_regex)

takes_none : (bad : Bool) (vm : VariablesMap) (o : MysqlOptions) → TakesOptions false bad vm o o
takes_none bad vm o = record {
  host_is = refl;
  user_is = refl;
  password_is = refl;
  schema_is = refl;
  socket_is = refl;
  port_is = refl;
  max_retries_is = refl;
  filter_is = refl;
}

takes_all : (vm : VariablesMap) (o : MysqlOptions) → TakesOptions true false vm o (set_options vm o)
unfolding set_options
takes_all vm o = record {
  host_is = refl;
  user_is = refl;
  password_is = refl;
  schema_is = refl;
  socket_is = refl;
  port_is = refl;
  max_retries_is = refl;
  filter_is = refl;
}

takes_all_but_filter :
    (vm : VariablesMap) (o : MysqlOptions)
    → TakesOptions true true vm o
        (record (set_options vm o) { filter_error_regex = o.filter_error_regex })
unfolding set_options
takes_all_but_filter vm o = record {
  host_is = refl;
  user_is = refl;
  password_is = refl;
  schema_is = refl;
  socket_is = refl;
  port_is = refl;
  max_retries_is = refl;
  filter_is = refl;
}

module _ {W : Type 0} (lib : Library W) (g_session_init_query : Bytes) (depth : ℕ) where
  -- The test connection reports success whatever the server does: its one entry does nothing, so the
  -- thread never connects.
  pub test_connect-true :
      (o : MysqlOptions) (w : W)
      → test_connect lib g_session_init_query o depth w
        ≡ some (true, lib.thread_end (lib.thread_init w))
  unfolding test_connect run Thread.run disconnect
  test_connect-true o w = refl

  -- The active plugin comes to its options.
  abbrev pub reads_options : Bool → W → Bool
  reads_options active w = active && lib.thread_safe && is_zero (lib.library_init w).0

  -- The option for the error filter is given, is not empty and is not a regular expression.
  abbrev pub has_bad_filter : VariablesMap → Bool
  has_bad_filter vm =
      is_given vm (codes "mysql-filter-error")
      && not (is_empty (vm.text (codes "mysql-filter-error")))
      && not (lib.regex_is_valid (vm.text (codes "mysql-filter-error")))

  abbrev pub ending_of : Bool → VariablesMap → W → Ending
  ending_of active vm w =
      if reads_options active w
      then if has_bad_filter vm then throws else returns (pos 0)
      else returns (if active || any_given vm connection_options then negsuc 0 else pos 0)

  abbrev pub Takes : Bool → VariablesMap → MysqlOptions → MysqlOptions → Type 0
  Takes reads vm o o' = TakesOptions reads (has_bad_filter vm) vm o o'

  with_library_lem :
      (vm : VariablesMap) (o : MysqlOptions) (code : ℤ) (w : W)
      → (o' : MysqlOptions) × (v : W) × (with_library lib g_session_init_query depth vm o (code, w)
          ≡ some (
            if is_zero code
                then if has_bad_filter vm then throws else returns (pos 0)
                else returns (negsuc 0),
            o',
            v,
          ))
        × Takes (is_zero code) vm o o'
  with_library_lem vm o code w = elim (Bool-cases (is_zero code)) [
    | inl e ↦ elim (Bool-cases (has_bad_filter vm)) [
      | inl bad ↦ (
        record (set_options vm o) { filter_error_regex = o.filter_error_regex },
        w,
        rw (e, bad) refl,
        rw (e, bad) (takes_all_but_filter vm o),
      )
      | inr good ↦ elim (Bool-cases (wants_test vm)) [
        | inl t ↦ (
          set_options vm o,
          lib.thread_end (lib.thread_init w),
          rw (e, good, t, test_connect-true (set_options vm o) w) refl,
          rw (e, good) (takes_all vm o),
        )
        | inr t ↦ (set_options vm o, w, rw (e, good, t) refl, rw (e, good) (takes_all vm o))
      ]
    ]
    | inr e ↦ (o, w, rw e refl, rw e (takes_none (has_bad_filter vm) vm o))
  ]

  also_true : (b c : Bool) → b ≡ true → c ≡ (b && c)
  also_true true c h = refl
  also_true false c h = absurd cc

  -- `processOptions` never exits, with the test connection and without it. The plugin that is not
  -- active returns 0 where no option for the connection is given, and -1 otherwise. The active one
  -- returns -1 where the library is not thread safe or cannot be initialised; behind that it throws
  -- where an error filter is given that is not empty and no regular expression, and returns 0
  -- otherwise. There each option is
  -- taken from the command line where it is given, but no error filter that is empty or at which it
  -- throws; everything else stays as it was.
  pub process_options-ends :
      (active : Bool) (vm : VariablesMap) (o : MysqlOptions) (w : W)
      → (o' : MysqlOptions) × (v : W) × (process_options lib g_session_init_query depth active vm o
            w
          ≡ some (ending_of active vm w, o', v))
        × Takes (reads_options active w) vm o o'
  unfolding process_options
  process_options-ends false vm o w = elim (Bool-cases (any_given vm connection_options)) [
    | inl e ↦
        (o, w, rw (has_connection_option-any_given vm, e) refl, takes_none (has_bad_filter vm) vm o)
    | inr e ↦
        (o, w, rw (has_connection_option-any_given vm, e) refl, takes_none (has_bad_filter vm) vm o)
  ]
  process_options-ends true vm o w =
      let (o', v, e, t) = with_library_lem vm o (lib.library_init w).0 (lib.library_init w).1 in
      elim (Bool-cases lib.thread_safe) [
        | inl safe ↦ (
          o',
          v,
          ap
                (λ (r : Option (Ending × MysqlOptions × W)).
                  if not lib.thread_safe then some (returns (negsuc 0), o, w) else r)
                e
              ∙ rw safe refl,
          subst (λ (b : Bool). Takes b vm o o')
              (also_true lib.thread_safe (is_zero (lib.library_init w).0) safe) t,
        )
        | inr safe ↦ (o, w, rw safe refl, rw safe (takes_none (has_bad_filter vm) vm o))
      ]
