-- ===== src/Playback/Help.antt =====
-- `help` and `version` of percona_playback/percona_playback.cc: what they print, in its order. The
-- texts that the build defines are a parameter, and so are the names in the plugin objects.
pub mod Stops
pub mod Shown
use query_playback.Prelude.{
  ℕ, ℕ, ◌≡◌, refl, ap, ◌∙◌, sym, subst, ◌⊎◌, inl, inr, Bool, true, false, not, ◌&&◌, ◌||◌, List, [],
  ◌∷◌, ◌++◌, Option, none, some, select, if◌then◌else◌, ◌==◌, Bool-cases, Option-cases, arith,
}
use query_playback.Prelude.Int.{is_zero, ℤ, pos, negsuc}
use query_playback.CommandLine.{is_given, OptionDescription}
use query_playback.OrderedMap.{bytes_order, lookup}
use query_playback.Registry.{PluginMap, PluginRegistry, keys}
use query_playback.Text.{Bytes, codes, is_empty}
use query_playback.Playback.{
  set_active, Arguments, disabled_reports, Setup, Part, has_plugin, choose, named, or_fail,
  and_then, select_dbclient, select_input, select_dispatcher, disable_reports, show_help_or_version,
  process_options, set_numbers, percona_playback_argv,
}
use query_playback.Playback.Stages.{has_dbclient, has_input, has_dispatcher, has_reports, Selects}
use query_playback.Playback.Active.{is_among, is_chosen, has_reports-active}
use query_playback.Playback.Selection.{HasNames, names_of, has_reports-HasNames}

-- PACKAGE, PACKAGE_VERSION, PERCONA_PLAYBACK_RELEASE_COMMENT and PACKAGE_BUGREPORT.
pub record Build : Type 0 where
  pub name : Bytes
  pub version : Bytes
  pub release_comment : Bytes
  pub bug_report : Bytes

-- The two lines of `version`, without the words "Version: ".
unfoldable pub version : Build → List Bytes
version build =
    build.name
    ∷ (if is_empty build.release_comment
        then build.version
        else build.version ++ codes "-" ++ build.release_comment)
    ∷ []

-- The names that `help` prints.
pub record HelpText : Type 0 where
  pub version_lines : List Bytes
  pub options : List OptionDescription
  pub bugs : Bytes
  pub loaded_plugins : List Bytes
  pub db_plugins : List Bytes
  pub db_plugin : Bytes
  pub input_plugins : List Bytes
  pub input_plugin : Bytes
  pub dispatcher_plugins : List Bytes
  pub dispatcher_plugin : Bytes
  pub report_plugins : List Bytes
  pub selected_reports : List Bytes

-- A global pointer: the object that stands in the map under the name chosen, or null.
abbrev pub pointer : PluginMap → Option Bytes → Option ℕ
pointer m none = none
pointer m (some name) = lookup name m

module _ (build : Build) (options_description : List OptionDescription) (registry : PluginRegistry)
    (name_of : ℕ → Bytes) where
  -- The three asserts: `none` where a pointer is null. What is printed of a selected plugin is the
  -- `name` in its object.
  abbrev pub help_with : (ℕ → Bool) → Option ℕ → Option ℕ → Option ℕ → Option HelpText
  help_with active none input dispatcher = none
  help_with active (some db) none dispatcher = none
  help_with active (some db) (some input) none = none
  help_with active (some db) (some input) (some dispatcher) = some (record {
    version_lines = version build;
    options = options_description;
    bugs = build.bug_report;
    loaded_plugins = registry.loaded_plugin_names;
    db_plugins = keys registry.dbclient_plugins;
    db_plugin = name_of db;
    input_plugins = keys registry.input_plugins;
    input_plugin = name_of input;
    dispatcher_plugins = keys registry.dispatcher_plugins;
    dispatcher_plugin = name_of dispatcher;
    report_plugins = keys registry.report_plugins;
    selected_reports = keys (select (λ pp. active pp.1) registry.report_plugins);
  })

  unfoldable pub help : Setup → Option HelpText
  unfolding lookup
  help s =
      help_with s.active (pointer registry.dbclient_plugins s.dbclient)
        (pointer registry.input_plugins s.input) (pointer registry.dispatcher_plugins s.dispatcher)
