-- ===== src/Report/Simple/Options.antt =====
-- `processOptions` of SimpleReportPlugin in percona_playback/simple_report/simple_report.cc.
use query_playback.Prelude.{List, [], ◌∷◌, true, Bool, not, ◌&&◌, ◌||◌, if◌then◌else◌}
use query_playback.Prelude.Int.{ℤ, pos, negsuc}
use query_playback.CommandLine.{VariablesMap, OptionType, OptionDescription, is_given}
use query_playback.Text.{codes}

abbrev pub get_program_options : List OptionDescription
get_program_options =
    record {
      name = codes "show-per-connection-query-count";
      type = OptionType.flag;
      has_default = true;
    }
    ∷ record { name = codes "ignore-row-result-diffs"; type = OptionType.flag; has_default = true }
    ∷ []

unfoldable pub process_options : Bool → VariablesMap → ℤ
process_options active vm =
    if not active
      && (is_given vm (codes "show-per-connection-query-count")
          || is_given vm (codes "ignore-row-result-diffs"))
    then negsuc 0
    else pos 0
