-- ===== src/Tests/Program.antt =====
-- The start of the program with four plugins.
use query_playback.Prelude.{◌≡◌, refl, List, [], ◌∷◌, some}
use query_playback.Prelude.Int.{pos}
use query_playback.Text.{Bytes, codes, is_before, is_one_of, starts_with}
use query_playback.OrderedMap.{bytes_order, insert, lookup}
use query_playback.Tokenize.{find_first_of, tokenize_from, tokenize}
use query_playback.Tokenize.Pieces.{pieces}
use query_playback.Registry.{
  PluginRegistry, PluginObject, dbclient, report, input, dispatcher, add, add_all, Linker,
  load_plugin, load_each, load_plugins,
}
use query_playback.Registry.Loaded.{adds_for, wanted}
use query_playback.Playback.{
  Setup, select_dbclient, select_input, select_dispatcher, disable_reports, show_help_or_version,
  process_options, set_numbers, percona_playback_argv,
}
use query_playback.Playback.Program.{
  first_setup, load_argv, registry_for, IsActivated, load_argv-IsActivated,
}
use query_playback.Tests.Playback.{arguments, no_failure}

abbrev all_calls : List (Bytes × PluginObject)
all_calls =
    (codes "null", dbclient 1)
    ∷ (codes "query-log", input 2)
    ∷ (codes "thread-per-connection", dispatcher 3)
    ∷ (codes "full_report", report 4)
    ∷ []

abbrev one_plugin : Linker
one_plugin = record {
  dlopen = λ file. some 1;
  dlsym = λ handle name. some 2;
  init = λ def. all_calls;
}

abbrev four_plugins : PluginRegistry
four_plugins = registry_for (codes "all") [] all_calls

abbrev left : Setup
left = (percona_playback_argv four_plugins arguments no_failure (first_setup four_plugins)).1

load_argv_zero :
    load_argv one_plugin (codes "all") [] (λ r. arguments) no_failure ≡ some (pos 0, left)
unfolding load_argv load_plugins load_each load_plugin add_all add insert tokenize tokenize_from
    find_first_of pieces is_one_of is_before lookup starts_with percona_playback_argv
    select_dbclient select_input select_dispatcher disable_reports show_help_or_version
    process_options set_numbers
load_argv_zero = refl

load_argv-IsActivated_example :
    (adds : List (Bytes × PluginObject)) × (adds_for one_plugin (wanted (codes "all") [])
      ≡ some adds)
    × IsActivated adds arguments left
load_argv-IsActivated_example =
    load_argv-IsActivated one_plugin (codes "all") [] (λ r. arguments) no_failure load_argv_zero
      refl
