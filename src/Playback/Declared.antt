-- ===== src/Playback/Declared.antt =====
-- The options that percona_playback_argv declares before it parses the command line: its own, and
-- those of every registered plugin. Which class a plugin object is of is a parameter.
use query_playback.Prelude.{
  some_eq, none-ne-some, or_true, ℕ, ◌≡◌, refl, ap, sym, ◌∙◌, true, false, List, [], ◌∷◌, ◌++◌,
  Option, none, some, inl, inr,
}
use query_playback.Text.{Bytes, codes}
use query_playback.CommandLine.{OptionType, OptionDescription, is_declared, is_defaulted}
use query_playback.CommandLine.Declared.{is_defaulted-append}
use query_playback.OrderedMap.{bytes_order, lookup}
use query_playback.OrderedMap.Laws.{lookup-nil, lookup-cons, lookup-here}
use query_playback.Registry.{PluginMap, PluginRegistry}
use query_playback.QueryLog.Plugin as QueryLogPlugin
use query_playback.GeneralLog.Plugin as GeneralLogPlugin
use query_playback.Dispatch.Pool.Options as ThreadPoolDispatcher
use query_playback.Report.Simple.Options as SimpleReportPlugin
use query_playback.Client.Mysql.Options as MysqlDbClientPlugin

abbrev pub general_options : List OptionDescription
general_options =
    record { name = codes "help"; type = OptionType.switch; has_default = false }
    ∷ record { name = codes "version"; type = OptionType.switch; has_default = false }
    ∷ []

abbrev pub db_options : List OptionDescription
db_options =
    record { name = codes "db-plugin"; type = OptionType.text; has_default = false }
    ∷ record { name = codes "input-plugin"; type = OptionType.text; has_default = false }
    ∷ record { name = codes "dispatcher-plugin"; type = OptionType.text; has_default = false }
    ∷ record {
      name = codes "disable-reporting-plugin";
      type = OptionType.texts;
      has_default = false;
    }
    ∷ record { name = codes "queue-depth"; type = OptionType.number; has_default = false }
    ∷ record { name = codes "session-init-query"; type = OptionType.text; has_default = true }
    ∷ []

-- The classes of plugins that override `getProgramOptions`, and all others.
pub data PluginClass : Type 0 where
  query_log : PluginClass
  general_log : PluginClass
  thread_pool : PluginClass
  simple_report : PluginClass
  libmysqlclient : PluginClass
  other : PluginClass

-- NULL for a plugin that does not override it.
abbrev pub get_program_options : PluginClass → Option (List OptionDescription)
get_program_options query_log = some QueryLogPlugin.get_program_options
get_program_options general_log = some GeneralLogPlugin.get_program_options
get_program_options thread_pool = some ThreadPoolDispatcher.get_program_options
get_program_options simple_report = some SimpleReportPlugin.get_program_options
get_program_options libmysqlclient = some MysqlDbClientPlugin.get_program_options
get_program_options other = none

abbrev pub add_options :
    Option (List OptionDescription) → List OptionDescription → List OptionDescription
add_options none os = os
add_options (some plugin_opts) os = plugin_opts ++ os

module _ (class_of : ℕ → PluginClass) where
  -- The loop over the plugins.
  abbrev pub plugin_options : PluginMap → List OptionDescription
  plugin_options [] = []
  plugin_options ((name, p) ∷ m) = add_options (get_program_options (class_of p)) (plugin_options m)

  abbrev pub options_description : PluginRegistry → List OptionDescription
  options_description r = general_options ++ (db_options ++ plugin_options r.all_plugins)

  -- No description of the program has an option `--loop`.
  no_loop_in :
      (c : PluginClass) (os : List OptionDescription)
      → is_declared os (codes "loop") ≡ false
      → is_declared (add_options (get_program_options c) os) (codes "loop") ≡ false
  no_loop_in query_log os h = h
  no_loop_in general_log os h = h
  no_loop_in thread_pool os h = h
  no_loop_in simple_report os h = h
  no_loop_in libmysqlclient os h = h
  no_loop_in other os h = h

  no_plugin_loop : (m : PluginMap) → is_declared (plugin_options m) (codes "loop") ≡ false
  no_plugin_loop [] = refl
  no_plugin_loop ((name, p) ∷ m) = no_loop_in (class_of p) (plugin_options m) (no_plugin_loop m)

  pub no_loop : (r : PluginRegistry) → is_declared (options_description r) (codes "loop") ≡ false
  no_loop r = no_plugin_loop r.all_plugins

  is_defaulted-add_options :
      (c : Option (List OptionDescription)) (os : List OptionDescription) (name : Bytes)
      → is_defaulted os name ≡ true
      → is_defaulted (add_options c os) name ≡ true
  is_defaulted-add_options none os name h = h
  is_defaulted-add_options (some plugin_opts) os name h =
      is_defaulted-append plugin_opts os name ∙ rw h (or_true (is_defaulted plugin_opts name))

  -- The default values of a registered plugin are among those that are stored.
  pub is_defaulted-plugin_options :
      (m : PluginMap) (key : Bytes) (p : ℕ) (os : List OptionDescription) (name : Bytes)
      → lookup key m ≡ some p
      → get_program_options (class_of p) ≡ some os
      → is_defaulted os name ≡ true
      → is_defaulted (plugin_options m) name ≡ true
  is_defaulted-plugin_options [] key p os name found its h =
      absurd (none-ne-some (sym (lookup-nil key) ∙ found))
  is_defaulted-plugin_options ((l, q) ∷ m) key p os name found its h = elim (lookup-cons key l) [
    | inl apart ↦
        is_defaulted-add_options (get_program_options (class_of q)) (plugin_options m) name
          (is_defaulted-plugin_options m key p os name (sym (apart q m) ∙ found) its h)
    | inr same ↦
        let p_is : q ≡ p = some_eq (
          sym (lookup-here l q m) ∙ ap (λ (k : Bytes). lookup k ((l, q) ∷ m)) (sym same) ∙ found) in
        rw (p_is, its) (is_defaulted-append os (plugin_options m) name ∙ rw h)
  ]
