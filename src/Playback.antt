-- ===== src/Playback.antt =====
-- The run of the program: percona_playback/percona_playback.cc (percona_playback_argv,
-- percona_playback_run, percona_playback_run_all) and bin/percona_playback.cc. The registry is
-- what load_plugins leaves; the parsed command line, the
-- processOptions of the plugins and what the plugins do in a run are parameters.
pub mod Stages
pub mod Selection
pub mod Active
pub mod Options
pub mod Program
pub mod Declared
pub mod Help
pub mod Once
pub mod Runs
use query_playback.Prelude.{
  ℕ, zero, suc, Bool, true, false, not, ◌&&◌, ◌||◌, List, [], ◌∷◌, Option, none, some, ◌==◌,
  if◌then◌else◌,
}
use query_playback.Prelude.Int.{is_zero, ℤ, pos, negsuc, ltb_ℤ}
use query_playback.OrderedMap.{bytes_order, lookup}
use query_playback.Registry.{PluginMap, PluginRegistry, keys}
use query_playback.CommandLine.{VariablesMap, is_given}
use query_playback.Text.{same_bytes, Bytes, codes}

-- The arguments of percona_playback_argv, parsed.
pub record Arguments : Type 0 where
  pub argc : ℕ
  pub vm : VariablesMap

abbrev pub named : VariablesMap → Bytes → Option Bytes
named vm name = if is_given vm name then some (vm.text name) else none

abbrev pub number_or : VariablesMap → Bytes → ℕ → ℕ
number_or vm name n = if is_given vm name then vm.number name else n

abbrev pub disabled_reports : VariablesMap → List Bytes
disabled_reports vm =
    if is_given vm (codes "disable-reporting-plugin")
    then vm.texts (codes "disable-reporting-plugin")
    else []

-- The globals, and the `active` flags of the plugin objects. The client, the input plugin and the
-- dispatcher are the objects that stand in their maps under these names.
pub record Setup : Type 0 where
  pub dbclient : Option Bytes
  pub input : Option Bytes
  pub dispatcher : Option Bytes
  pub active : ℕ → Bool
  pub loop : ℕ
  pub queue_depth : ℕ

unfoldable pub has_plugin : List Bytes → Bytes → Bool
has_plugin [] name = false
has_plugin (p ∷ ps) name = same_bytes p name || has_plugin ps name

-- A pointer to a plugin object, which may be null, against an object.
abbrev pub same_object : Option ℕ → ℕ → Bool
same_object none p = false
same_object (some q) p = q == p

-- `it->second->active= b`
abbrev pub set_active : Option ℕ → Bool → (ℕ → Bool) → ℕ → Bool
set_active o b active p = if same_object o p then b else active p

abbrev pub first_of : List Bytes → List Bytes → Option Bytes
first_of plugins [] = none
first_of plugins (name ∷ names) =
    if has_plugin plugins name then some name else first_of plugins names

-- The plugin that is named, or else the first default that is registered.
unfoldable pub choose : List Bytes → Option Bytes → List Bytes → Option Bytes
unfolding has_plugin
choose plugins (some name) defaults = first_of plugins (name ∷ [])
choose plugins none defaults = first_of plugins defaults

-- A part of percona_playback_argv: what it returns, where 0 goes on, and the setup after it.
abbrev pub Part : Type 0
Part = Setup → ℤ × Setup

unfoldable pub and_then : Part → Part → Part
and_then first second s =
    let (code, s') = first s in let rest = second s' in if is_zero code then rest else (code, s')

abbrev pub or_fail : Option Bytes → (Bytes → Setup) → Setup → ℤ × Setup
or_fail none f s = (negsuc 0, s)
or_fail (some name) f s = (pos 0, f name)

module _ (registry : PluginRegistry) (args : Arguments) where
  unfoldable pub select_dbclient : Part
  unfolding choose lookup
  select_dbclient s =
      or_fail
        (choose (keys registry.dbclient_plugins) (named args.vm (codes "db-plugin"))
          (codes "libmysqlclient" ∷ codes "null" ∷ []))
        (λ name. record s {
          dbclient = some name;
          active = set_active (lookup name registry.dbclient_plugins) true s.active;
        })
        s

  unfoldable pub select_input : Part
  unfolding choose lookup
  select_input s =
      or_fail
        (choose (keys registry.input_plugins) (named args.vm (codes "input-plugin"))
          (codes "query-log" ∷ []))
        (λ name. record s {
          input = some name;
          active = set_active (lookup name registry.input_plugins) true s.active;
        })
        s

  unfoldable pub select_dispatcher : Part
  unfolding choose lookup
  select_dispatcher s =
      or_fail
        (choose (keys registry.dispatcher_plugins) (named args.vm (codes "dispatcher-plugin"))
          (codes "thread-per-connection" ∷ []))
        (λ name. record s {
          dispatcher = some name;
          active = set_active (lookup name registry.dispatcher_plugins) true s.active;
        })
        s

  unfoldable pub disable_reports : List Bytes → Part
  unfolding has_plugin lookup
  disable_reports [] s = (pos 0, s)
  disable_reports (name ∷ names) s =
      let rest =
        disable_reports names
          (record s { active = set_active (lookup name registry.report_plugins) false s.active }) in
      if has_plugin (keys registry.report_plugins) name then rest else (negsuc 0, s)

  unfoldable pub show_help_or_version : Part
  show_help_or_version s =
      if (is_given args.vm (codes "help")) || (args.argc == 1)
      then (pos 1, s)
      else if (is_given args.vm (codes "version"))
      then (pos 2, s)
      else (pos 0, s)

  -- `processOptions` of every plugin, on its `active` flag: true where it gives something else than 0.
  unfoldable pub process_options : (Bytes → Bool → Bool) → PluginMap → Part
  process_options fails [] s = (pos 0, s)
  process_options fails ((name, p) ∷ ps) s =
      let rest = process_options fails ps s in
      if fails name (s.active p) then (negsuc 0, s) else rest

  unfoldable pub set_numbers : Part
  set_numbers s = (
    pos 0,
    record s {
      loop = number_or args.vm (codes "loop") 1;
      queue_depth = number_or args.vm (codes "queue-depth") 1;
    },
  )

  unfoldable pub percona_playback_argv : (Bytes → Bool → Bool) → Part
  unfolding and_then
  percona_playback_argv fails = and_then select_dbclient (
      and_then select_input (
        and_then select_dispatcher (
          and_then (disable_reports (disabled_reports args.vm)) (
            and_then show_help_or_version
              (and_then (process_options fails registry.all_plugins) set_numbers)))))

-- What the plugins do in a run, on a state `W`; the `err` of the result is what the input plugin leaves.
pub record Plugins (W : Type 0) : Type 0 where
  pub dispatcher_run : W → W
  pub input_run : W → ℤ × W
  pub print_report : Bytes → W → W

module _ {W : Type 0} (plugins : Plugins W) where
  unfoldable pub print_reports : (ℕ → Bool) → PluginMap → W → W
  print_reports active [] w = w
  print_reports active ((name, p) ∷ ps) w =
      print_reports active ps (if active p then plugins.print_report name w else w)

  unfoldable pub percona_playback_run : PluginRegistry → Setup → W → ℤ × W
  unfolding print_reports
  percona_playback_run registry s w =
      let (err, w') = plugins.input_run (plugins.dispatcher_run w) in
      (err, print_reports s.active registry.report_plugins w')

  -- The rest of the loop, with the runs left.
  unfoldable pub run_all_from : ℕ → PluginRegistry → Setup → W → ℤ × W
  unfolding percona_playback_run
  run_all_from zero registry s w = (pos 0, w)
  run_all_from (suc left) registry s w =
      let (err, w') = percona_playback_run registry s w in
      let rest = run_all_from left registry s w' in if is_zero err then rest else (negsuc 0, w')

  unfoldable pub percona_playback_run_all : PluginRegistry → Setup → W → ℤ × W
  unfolding run_all_from
  percona_playback_run_all registry s w = run_all_from s.loop registry s w

  -- The exit code.
  unfoldable pub main : PluginRegistry → Arguments → (Bytes → Bool → Bool) → Setup → W → ℤ × W
  unfolding percona_playback_argv percona_playback_run_all
  main registry args fails s w =
      let (r, s') = percona_playback_argv registry args fails s in
      let ran = percona_playback_run_all registry s' w in
      if ltb_ℤ (pos 0) r then (pos 0, w) else if ltb_ℤ r (pos 0) then (r, w) else ran
