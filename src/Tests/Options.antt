-- ===== src/Tests/Options.antt =====
-- Parsed command lines: the default values are stored, and one more option is given.
use query_playback.Prelude.{
  true, ℕ, ◌≡◌, refl, Bool, false, not, ◌&&◌, ◌||◌, List, [], ◌∷◌, some, ◌==◌, if◌then◌else◌,
  Bool-cases, inl, inr, arith,
}
use query_playback.Prelude.Int.{is_zero, pos, negsuc}
use query_playback.Text.{Bytes, codes, same_bytes, is_before}
use query_playback.CommandLine.{
  VariablesMap, is_given, OptionDescription, is_declared, is_defaulted, IsStored,
}
use query_playback.CommandLine.Declared.{is_declared_of_is_defaulted}
use query_playback.OrderedMap.{bytes_order, lookup}
use query_playback.Registry.{PluginRegistry}
use query_playback.Playback.{
  Arguments, select_dbclient, select_input, select_dispatcher, disable_reports,
  show_help_or_version, process_options, set_numbers, percona_playback_argv, percona_playback_run,
  main,
}
use query_playback.Playback.Declared.{
  PluginClass, query_log, simple_report, other, options_description,
}
use query_playback.Playback.Help.{Build, HelpText, help}
use query_playback.Playback.Help.Shown.{IsShown, active_of, percona_playback_argv-IsShown}
use query_playback.Playback.Selection.{names_of}
use query_playback.Playback.Once.{main-once, simple_report_stays}
use query_playback.Report.Simple.Options as SimpleReportPlugin
use query_playback.Tests.Playback.{small_registry, simple_registry, no_failure, fresh, counting}

abbrev is_stored : List OptionDescription → Bytes → Bytes → Bool
is_stored os extra name = is_declared os name && (is_defaulted os name || same_bytes name extra)

-- Every text is "null", and every list of texts names the simple report.
abbrev stored_vm : List OptionDescription → Bytes → VariablesMap
stored_vm os extra = record {
  count = λ name. if is_stored os extra name then 1 else 0;
  defaulted = λ name. is_defaulted os name;
  text = λ name. codes "null";
  texts = λ name. codes "simple_report" ∷ [];
  flag = λ name. false;
  number = λ name. 4;
}

given_of_is_stored :
    (os : List OptionDescription) (extra name : Bytes)
    → is_given (stored_vm os extra) name ≡ is_stored os extra name
given_of_is_stored os extra name = elim (Bool-cases (is_stored os extra name)) [
  | inl e ↦ rw e refl
  | inr e ↦ rw e refl
]

stored_vm-IsStored :
    (os : List OptionDescription) (extra : Bytes) → IsStored os (stored_vm os extra)
stored_vm-IsStored os extra = record {
  only_declared = λ name given. ground (arith, given_of_is_stored os extra name);
  defaults = λ name h.
      ground (arith, given_of_is_stored os extra name, is_declared_of_is_defaulted os name h);
}

abbrev class_of : ℕ → PluginClass
class_of p = if p == 2 then query_log else if p == 6 then simple_report else other

abbrev arguments_for : PluginRegistry → Bytes → Arguments
arguments_for r extra = record { argc = 2; vm = stored_vm (options_description class_of r) extra }

null_given-zero :
    (percona_playback_argv small_registry
      (arguments_for small_registry (codes "db-plugin"))
      no_failure
      fresh).0
    ≡ pos 0
unfolding lookup is_before percona_playback_argv select_dbclient select_input select_dispatcher
    disable_reports show_help_or_version process_options set_numbers
null_given-zero = refl

main-once_example :
    let args = arguments_for small_registry (codes "db-plugin") in
    let s' = (percona_playback_argv small_registry args no_failure fresh).1 in
    let ran = percona_playback_run counting small_registry s' 0 in
    main counting small_registry args no_failure fresh 0
    ≡ (if is_zero ran.0 then pos 0 else negsuc 0, ran.1)
main-once_example =
    main-once class_of small_registry (arguments_for small_registry (codes "db-plugin"))
      (stored_vm-IsStored (options_description class_of small_registry) (codes "db-plugin"))
      counting no_failure fresh 0 null_given-zero

abbrev simple_arguments : Arguments
simple_arguments = arguments_for simple_registry (codes "disable-reporting-plugin")

abbrev simple_fails : Bytes → Bool → Bool
simple_fails name active =
    not (is_zero (SimpleReportPlugin.process_options active simple_arguments.vm))

simple_registry-found : lookup (codes "simple_report") simple_registry.all_plugins ≡ some 6
unfolding lookup is_before
simple_registry-found = refl

simple_registry-reported : lookup (codes "simple_report") simple_registry.report_plugins ≡ some 6
unfolding lookup is_before
simple_registry-reported = refl

simple_report_stays_example :
    is_zero (percona_playback_argv simple_registry simple_arguments simple_fails fresh).0 ≡ false
simple_report_stays_example =
    simple_report_stays class_of simple_registry simple_arguments
      (stored_vm-IsStored (options_description class_of simple_registry)
        (codes "disable-reporting-plugin"))
      simple_fails fresh 6 (λ active. refl) simple_registry-found simple_registry-reported refl refl

abbrev help_arguments : Arguments
help_arguments = arguments_for small_registry (codes "help")

help_is_one : (percona_playback_argv small_registry help_arguments no_failure fresh).0 ≡ pos 1
unfolding lookup is_before percona_playback_argv select_dbclient select_input select_dispatcher
    disable_reports show_help_or_version process_options set_numbers
help_is_one = refl

-- The name in an object.
abbrev name_of : ℕ → Bytes
name_of p = if p == 2 then codes "query-log" else codes "other"

abbrev some_build : Build
some_build = record {
  name = codes "percona-playback";
  version = codes "0.3";
  release_comment = [];
  bug_report = codes "bugs";
}

percona_playback_argv-IsShown_example :
    let s' = (percona_playback_argv small_registry help_arguments no_failure fresh).1 in
    ((is_given help_arguments.vm (codes "help") || help_arguments.argc == 1) ≡ true)
    × (t : HelpText) × (help some_build
          (options_description class_of small_registry)
          small_registry
          name_of
          s'
        ≡ some t)
    × IsShown small_registry help_arguments name_of
        (names_of s')
        (active_of small_registry help_arguments name_of fresh s')
        t
percona_playback_argv-IsShown_example =
    percona_playback_argv-IsShown small_registry help_arguments name_of some_build
      (options_description class_of small_registry) no_failure fresh help_is_one
