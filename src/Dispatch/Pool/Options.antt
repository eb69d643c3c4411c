-- ===== src/Dispatch/Pool/Options.antt =====
-- `processOptions` of ThreadPoolDispatcher in percona_playback/thread_pool/thread_pool.cc.
use query_playback.Prelude.{List, [], ◌∷◌, true, Bool, not, ◌&&◌, if◌then◌else◌}
use query_playback.Prelude.Int.{ℤ, pos, negsuc}
use query_playback.CommandLine.{VariablesMap, OptionType, OptionDescription}
use query_playback.Text.{codes}

abbrev pub get_program_options : List OptionDescription
get_program_options =
    record {
      name = codes "thread-pool-threads-count";
      type = OptionType.number;
      has_default = true;
    }
    ∷ []

unfoldable pub process_options : Bool → VariablesMap → ℤ
process_options active vm =
    if not active && not (vm.defaulted (codes "thread-pool-threads-count")) then negsuc 0 else pos 0
