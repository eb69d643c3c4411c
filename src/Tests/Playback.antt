-- ===== src/Tests/Playback.antt =====
-- A run with the null client.
use query_playback.Prelude.{
  not, ◌&&◌, ◌||◌, All, if◌then◌else◌, true, ℕ, ◌+◌, ◌≡◌, refl, Bool, false, [], ◌∷◌, none,
}
use query_playback.Prelude.Int.{is_zero, pos}
use query_playback.OrderedMap.{bytes_order, lookup}
use query_playback.Registry.{PluginRegistry, plugin_registry}
use query_playback.CommandLine.{is_given}
use query_playback.Text.{is_before, same_bytes, Bytes, codes, starts_with}
use query_playback.Playback.{
  Arguments, Setup, Plugins, disabled_reports, select_dbclient, select_input, select_dispatcher,
  disable_reports, show_help_or_version, process_options, set_numbers, percona_playback_argv,
}
use query_playback.Playback.Active.{
  is_among, is_chosen_here, IsRegisteredReport, percona_playback_argv-active,
}
use query_playback.QueryLog.Plugin.{query_log_plugin}
use query_playback.QueryLog.Plugin as QueryLogPlugin
use query_playback.Playback.Selection.{HasNames, names_of, percona_playback_argv-HasNames}

abbrev pub small_registry : PluginRegistry
small_registry = record plugin_registry {
  all_plugins =
      (codes "full_report", 4)
      ∷ (codes "null", 1)
      ∷ (codes "query-log", 2)
      ∷ (codes "thread-per-connection", 3)
      ∷ [];
  dbclient_plugins = (codes "null", 1) ∷ [];
  input_plugins = (codes "query-log", 2) ∷ [];
  dispatcher_plugins = (codes "thread-per-connection", 3) ∷ [];
  report_plugins = (codes "full_report", 4) ∷ [];
}

-- `db-plugin` is given, and the number of the options that are numbers is 4.
abbrev pub arguments : Arguments
arguments = record {
  argc = 3;
  vm = record {
    count = λ name. if starts_with name (codes "d") then 1 else 0;
    defaulted = λ name. true;
    text = λ name.
        if starts_with name (codes "db") then codes "null" else codes "thread-per-connection";
    texts = λ name. codes "full_report" ∷ [];
    flag = λ name. false;
    number = λ name. 4;
  };
}

abbrev pub no_failure : Bytes → Bool → Bool
no_failure name active = false

abbrev pub fresh : Setup
fresh = record {
  dbclient = none;
  input = none;
  dispatcher = none;
  active = λ name. false;
  loop = 0;
  queue_depth = 0;
}

-- A run counts itself.
abbrev pub counting : Plugins ℕ
counting = record {
  dispatcher_run = λ w. w;
  input_run = λ w. (pos 0, w + 1);
  print_report = λ name w. w;
}

arguments_zero : (percona_playback_argv small_registry arguments no_failure fresh).0 ≡ pos 0
unfolding lookup is_before starts_with percona_playback_argv select_dbclient select_input
    select_dispatcher disable_reports show_help_or_version process_options set_numbers
arguments_zero = refl

percona_playback_argv-HasNames_example :
    (is_given arguments.vm (codes "help") ≡ false)
    × (is_given arguments.vm (codes "version") ≡ false)
    × HasNames small_registry
        (names_of (percona_playback_argv small_registry arguments no_failure fresh).1)
percona_playback_argv-HasNames_example =
    percona_playback_argv-HasNames small_registry arguments no_failure fresh
      (rw arguments_zero refl)

percona_playback_argv-active_example :
    ((percona_playback_argv small_registry arguments no_failure fresh).1.active 4 ≡ (
      not (is_among small_registry.report_plugins (disabled_reports arguments.vm) 4)
      && (is_chosen_here small_registry arguments
            (percona_playback_argv small_registry arguments no_failure fresh).1
            4
          || false)))
    × All (IsRegisteredReport small_registry arguments) (disabled_reports arguments.vm)
percona_playback_argv-active_example =
    percona_playback_argv-active small_registry arguments no_failure fresh 4
      (rw arguments_zero refl)

-- `db-plugin` and `query-log-file` are given.
abbrev log_arguments : Arguments
log_arguments = record arguments {
  vm = record {
    count = λ name.
        if starts_with name (codes "db") || starts_with name (codes "query-log-file") then 1 else 0;
    defaulted = λ name. true;
    text = λ name. if starts_with name (codes "db") then codes "null" else codes "slow.log";
    texts = λ name. [];
    flag = λ name. false;
    number = λ name. 4;
  };
}

abbrev log_fails : Bytes → Bool → Bool
log_fails name active =
    if same_bytes name (codes "query-log")
    then not (is_zero (QueryLogPlugin.process_options active log_arguments.vm query_log_plugin).0)
    else false

abbrev pub simple_registry : PluginRegistry
simple_registry = record small_registry {
  all_plugins = (codes "simple_report", 6) ∷ small_registry.all_plugins;
  report_plugins = (codes "simple_report", 6) ∷ small_registry.report_plugins;
}
